-- ===== src/Services/World.antt =====
-- What the worker and the retry take from outside: the settings, pydantic's `model_dump`, as a JSONB
-- column gives it back, Python's `repr` of an exception, which is any text, and the order of
-- `ORDER BY received_at`.
use glacis.Base.{Text}
use glacis.Core.Json.{Json}
use glacis.Core.Events.{EventPayload}
use glacis.Core.Models.{RawEvent}
use glacis.Core.Errors.{Error}
use glacis.Core.Config.{Settings}
use glacis.Core.OrderBy.{OrderBy}

pub record World : Type 0 where
  pub settings : Settings
  pub model_dump : EventPayload → Json
  pub repr : Error → Text
  pub oldest : OrderBy (λ (r : RawEvent). r.received_at)
