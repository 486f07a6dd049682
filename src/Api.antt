-- ===== src/Api.antt =====
-- app/api: the answers of the HTTP routes.
pub mod Webhooks
pub mod RawEvents
pub mod Entities
pub mod Health
pub mod App
use glacis.Base.{ℕ, Option, Text}
use glacis.Core.Events.{EntityType}
use glacis.Core.Models.{Uuid}
use glacis.Core.Errors.{Error, Reason}

-- the `detail` of an `HTTPException`, by the parts of its text
pub data Detail : Type 0 where
  payload_exceeds : ℕ → Detail
  empty_body not_an_object invalid_vendor : Detail
  invalid_json : Text → Detail
  raw_event_not_found : Uuid → Detail
  entity_not_found : EntityType → Detail
  refused_for : Reason → Detail
  retry_failed : Error → Detail

-- A route answers, or raises an `HTTPException` with its status code, or lets another exception
-- through, which the framework answers with 500.
pub data Response {ℓ} (A : Type ℓ) : Type ℓ where
  respond : A → Response A
  http_exception : ℕ → Detail → Response A
  server_error : Error → Response A
