-- ===== src/Services/Retry/Outcome.antt =====
-- What becomes of the row that an operator retries.
use glacis.Base.{◌+◌, ◌≡◌, Option, none, some, codes, ◌++◌, take, false}
use glacis.Core.Json.{Json}
use glacis.Core.Events.{NormalizedEvent}
use glacis.Core.Models.{Uuid, Instant, Status, RawEvent, Db, get_raw, update_raw, no_nul}
use glacis.Core.Errors.{
  Error, data_error, Result, ok, raise, retry_refused, duplicate_of, already_processed,
}
use glacis.Services.Normalization.{Env}
use glacis.Services.World.{World}
use glacis.Services.Retry.{set_acquired, persist_retried, conclude}

-- the rows that a retry refuses
abbrev pub refusal : RawEvent → Status → Option Error
refusal r Status.duplicate = some (retry_refused Status.duplicate (duplicate_of r.duplicate_of_id))
refusal r Status.processed = some (retry_refused Status.processed already_processed)
refusal r _ = none

module _ (w : World) (now : Instant) (env : Env) (classify : Json → Result NormalizedEvent)
    (id : Uuid) where
  -- after phase 1
  abbrev pub acquired_db : RawEvent → Db → Db
  acquired_db r before = update_raw r.id (set_acquired now (r.attempts + 1)) before

  -- why a retry fails: the classification has raised, or the transaction of phase 2
  pub data Cause (r : RawEvent) (before : Db) (e : Error) : Type 0 where
    classification : classify r.payload ≡ raise e → Cause r before e
    persistence :
        (event : NormalizedEvent)
        → classify r.payload ≡ ok event
        → persist_retried w env id event (acquired_db r before) ≡ raise e
        → Cause r before e

  -- The results of a retry of the row `r`.
  pub data Retried (r : RawEvent) (before : Db) : Result RawEvent → Db → Type 0 where
    refused : (e : Error) → refusal r r.status ≡ some e → Retried r before (raise e) before
    done :
        (event : NormalizedEvent) (q : RawEvent) (after : Db)
        → classify r.payload ≡ ok event
        → persist_retried w env id event (acquired_db r before) ≡ ok (tt, after)
        → get_raw id after ≡ some q
        → q.status ≡ Status.processed
        → q.attempts ≡ r.attempts + 1
        → Retried r before (ok q) after
    failed :
        (e : Error) (q : RawEvent) (after : Db)
        → Cause r before e
        → get_raw id after ≡ some q
        → q.status ≡ Status.pending
        → q.attempts ≡ r.attempts + 1
        → q.last_error ≡ some (take 2000 (codes "manual retry: " ++ w.repr e))
        → after.shipments ≡ before.shipments
        → after.invoices ≡ before.invoices
        → Retried r before (raise e) after
    stuck :
        (e : Error) (q : RawEvent) (after : Db)
        → Cause r before e
        → no_nul (take 2000 (codes "manual retry: " ++ w.repr e)) ≡ false
        → get_raw id after ≡ some q
        → q.status ≡ Status.processing
        → q.attempts ≡ r.attempts + 1
        → q.last_error ≡ none
        → after.shipments ≡ before.shipments
        → after.invoices ≡ before.invoices
        → Retried r before (raise data_error) after

  -- the row as phase 1 leaves it
  Acquired : RawEvent → Type 0
  Acquired q = (q.status ≡ Status.processing) × (q.last_error ≡ none)

  ResultOf : RawEvent → Db → Result (Unit {0}) × Db → Type 0
  ResultOf r before p =
      (res : Result RawEvent) × (after : Db) × (conclude w id p.0 p.1 ≡ (res, after))
      × Retried r before res after
