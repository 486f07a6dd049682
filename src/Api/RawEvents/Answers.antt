-- ===== src/Api/RawEvents/Answers.antt =====
-- What the route of a retry answers on a sound database.
use glacis.Base.{false, ◌+◌, ◌≡◌, Option, none, some, first_row, take, ◌++◌, codes}
use glacis.Core.Json.{Json}
use glacis.Core.Events.{NormalizedEvent, CanonicalState, EntityType}
use glacis.Core.Models.{Uuid, Instant, Status, RawEvent, Db, get_raw, no_nul}
use glacis.Core.Errors.{Error, data_error, Reason, retry_refused, Result, ok}
use glacis.Utils.Hashing.{Hashing}
use glacis.Services.Normalization.{Env}
use glacis.Services.World.{World}
use glacis.Services.Retry.Outcome.{refusal}
use glacis.System.Runs.{Runs}
use glacis.Api.{Response, http_exception, refused_for, retry_failed}
use glacis.Api.RawEvents.{RawEventRetryResult, is_event_of, exception_response, result_of}

-- the event of a raw event: that of a shipment, or else that of an invoice
abbrev pub recorded_event : Uuid → Db → Option (CanonicalState × EntityType)
recorded_event id db = elim (first_row (is_event_of id) db.shipments.events) [
  | some e ↦ some (e.canonical_state, EntityType.shipment)
  | none ↦ elim (first_row (is_event_of id) db.invoices.events) [
    | some e ↦ some (e.canonical_state, EntityType.invoice)
    | none ↦ none
  ]
]

module _ (hashing : Hashing) (w : World) (now : Instant) (env : Env)
    (classify : Json → Result NormalizedEvent) (id : Uuid) where
  -- what the operator is told, and what became of the row `r`
  pub data Answer (r : RawEvent) (before : Db) : Response RawEventRetryResult → Db → Type 0 where
    conflict :
        (reason : Reason)
        → refusal r r.status ≡ some (retry_refused r.status reason)
        → Answer r before (http_exception 409 (refused_for reason)) before
    answered :
        (q : RawEvent) (after : Db)
        → get_raw id after ≡ some q
        → q.status ≡ Status.processed
        → q.attempts ≡ r.attempts + 1
        → Answer r before (result_of q (ok (recorded_event q.id after), after)).0 after
    requeued :
        (e : Error) (q : RawEvent) (after : Db)
        → get_raw id after ≡ some q
        → q.status ≡ Status.pending
        → q.attempts ≡ r.attempts + 1
        → q.last_error ≡ some (take 2000 (codes "manual retry: " ++ w.repr e))
        → Answer r before (exception_response e) after
    stuck :
        (e : Error) (q : RawEvent) (after : Db)
        → no_nul (take 2000 (codes "manual retry: " ++ w.repr e)) ≡ false
        → get_raw id after ≡ some q
        → q.status ≡ Status.processing
        → q.attempts ≡ r.attempts + 1
        → Answer r before (http_exception 502 (retry_failed data_error)) after
