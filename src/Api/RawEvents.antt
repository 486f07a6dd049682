-- ===== src/Api/RawEvents.antt =====
-- app/api/raw_events.py: the answer to an operator's retry.
pub mod Answers
use glacis.Base.{
  ℕ, ◌+◌, ◌<◌, ◌≡◌, refl, sym, subst, ◌∙◌, ap, Bool, true, false, Option, none, some, List, [], ◌∷◌,
  arith, Text, ◌==◌, any_row, first_row, rows_where, IsUnique, Bool-cases, inl, inr, if◌then◌else◌,
  leb, Member,
}
use glacis.Core.Json.{Json}
use glacis.Core.Events.{CanonicalState, EntityType, NormalizedEvent}
use glacis.Core.Models.{
  Uuid, Instant, Status, RawEvent, EntityEvent, Tables, Db, same_raw_event, get_raw, max_integer,
}
use glacis.Core.Errors.{
  Error, multiple_results_found, retry_not_found, retry_refused, Result, ok, raise,
}
use glacis.Core.Session.{Tx, session_scope, commit_or_rollback, ◌>>=◌}
use glacis.Services.Normalization.{Env}
use glacis.Services.World.{World}
use glacis.Services.Retry.{retry_raw_event}
use glacis.Api.{
  Detail, raw_event_not_found, refused_for, retry_failed, Response, respond, http_exception,
  server_error,
}

pub record RawEventRetryResult : Type 0 where
  pub raw_event_id : Uuid
  pub status : Status
  pub attempts : ℕ
  pub canonical_state : Option CanonicalState
  pub entity_type : Option EntityType
  pub last_error : Option Text

-- `scalar_one_or_none`
abbrev pub scalar_one_or_none {ℓ} : {A : Type ℓ} → List A → Result (Option A)
scalar_one_or_none [] = ok none
scalar_one_or_none (x ∷ []) = ok (some x)
scalar_one_or_none (x ∷ (y ∷ xs)) = raise multiple_results_found

abbrev pub is_event_of : Uuid → EntityEvent → Bool
is_event_of raw_event_id e = raw_event_id == e.raw_event_id

-- SELECT … WHERE raw_event_id = …
unfoldable pub event_of_raw : Uuid → List EntityEvent → Result (Option EntityEvent)
event_of_raw id events = scalar_one_or_none (rows_where (is_event_of id) events)

-- the loop over the two event tables, and its `break`
unfoldable pub surfaced : Uuid → Tx (Option (CanonicalState × EntityType))
unfolding event_of_raw
surfaced id db = do
  shipped ← event_of_raw id db.shipments.events
  elim shipped [
    | some e ↦ ok (some (e.canonical_state, EntityType.shipment), db)
    | none ↦ do
      billed ← event_of_raw id db.invoices.events
      elim billed [
        | some e ↦ ok (some (e.canonical_state, EntityType.invoice), db)
        | none ↦ ok (none, db)
      ]
  ]

-- the `except` clauses
abbrev pub exception_response {ℓ} : {A : Type ℓ} → Error → Response A
exception_response (retry_not_found id) = http_exception 404 (raw_event_not_found id)
exception_response (retry_refused status reason) = http_exception 409 (refused_for reason)
exception_response e = http_exception 502 (retry_failed e)

abbrev pub result_of :
    RawEvent
    → Result (Option (CanonicalState × EntityType)) × Db
    → Response RawEventRetryResult × Db
result_of raw (raise e, db) = (server_error e, db)
result_of raw (ok none, db) = (
  respond (record {
    raw_event_id = raw.id;
    status = raw.status;
    attempts = raw.attempts;
    canonical_state = none;
    entity_type = none;
    last_error = raw.last_error;
  }),
  db,
)
result_of raw (ok (some (state, entity_type)), db) = (
  respond (record {
    raw_event_id = raw.id;
    status = raw.status;
    attempts = raw.attempts;
    canonical_state = some state;
    entity_type = some entity_type;
    last_error = raw.last_error;
  }),
  db,
)

unfoldable pub surface : Result RawEvent × Db → Response RawEventRetryResult × Db
unfolding surfaced
surface (raise e, db) = (exception_response e, db)
surface (ok raw, db) = result_of raw (session_scope (surfaced raw.id) db)

unfoldable pub retry_endpoint :
    World
    → Instant
    → Env
    → (Json → Result NormalizedEvent)
    → Uuid
    → Db
    → Response RawEventRetryResult × Db
unfolding retry_raw_event surface
retry_endpoint w now env classify id db = surface (retry_raw_event w now env classify id db)

none_selected :
    (id : Uuid) (e : EntityEvent) (events : List EntityEvent)
    → is_event_of id e ≡ true
    → any_row (same_raw_event e) events ≡ false
    → rows_where (is_event_of id) events ≡ []
none_selected id e [] t h = refl
none_selected id e (x ∷ events) t h = ground (arith, none_selected id e events)

-- With one event for a raw event at most, the query finds it or nothing, and never raises.
pub event_of_raw-of_unique :
    (id : Uuid) (events : List EntityEvent)
    → IsUnique same_raw_event events
    → event_of_raw id events ≡ ok (first_row (is_event_of id) events)
unfolding event_of_raw
event_of_raw-of_unique id [] u = refl
event_of_raw-of_unique id (e ∷ events) u = elim (Bool-cases (is_event_of id e)) [
  | inl t ↦ rw (t, none_selected id e events t u.0) refl
  | inr f ↦ rw f (event_of_raw-of_unique id events u.1)
]
