-- ===== src/System/Attempts.antt =====
-- The attempts of a raw event, and which transactions count one.
pub mod Rows
pub mod Total
use mathlib.Core.Bool.{false≢true}
use glacis.Base.{
  ℕ, ◌+◌, ◌≡◌, ◌∙◌, refl, sym, ap, Bool, false, Option, none, some, arith, Text, ◌==◌, ==_sound,
  Bool-cases, Option-cases, inl, inr, any_row, any_row-of_Member, first_row-Member,
  first_row-update, update_where, if◌then◌else◌,
}
use glacis.Core.Json.{Json}
use glacis.Core.Events.{NormalizedEvent}
use glacis.Core.Models.{Uuid, Instant, RawEvent, Db, same_raw_id, get_raw, update_raw}
use glacis.Core.Errors.{ok}
use glacis.Core.Lookup.{raw_is, get-update_self, get-update_ne}
use glacis.Utils.Hashing.{Hashing}
use glacis.Services.Ingestion.{IngestResult}
use glacis.Services.Ingestion.Dedupe.{add_raw, Outcome, as_primary, as_duplicate, ingest-Outcome}
use glacis.Services.Normalization.{Env, persist_normalized, mark_processed, shipments, invoices}
use glacis.Services.Normalization.Outcome.{
  Committed, unclassified, stored, persist_normalized-Committed,
}
use glacis.Services.World.{World}
use glacis.Services.Retry.{acquire, persist_retried, record_outcome, set_acquired, set_outcome}
use glacis.Workers.IngestWorker.{
  claim, persist_claimed, mark_failed, set_failed, reap_before, release, is_stale,
}
use glacis.Workers.IngestWorker.Claims.{Claimed, nothing, row, claim_one_inv}
use glacis.System.Reachable.{IsConsistent, Reach-keeps}
use glacis.System.{
  State, Step, ingested, idle, claimed, persisted, failed, reaped, acquired, retried, concluded,
  Reach, start, next,
}

-- the row of the id is in the table, with so many attempts
pub record HasAttempts (id : Uuid) (n : ℕ) (db : Db) : Type 0 where
  pub raw : RawEvent
  pub found : get_raw id db ≡ some raw
  pub attempts : raw.attempts ≡ n

-- the same number, written otherwise
pub HasAttempts-eq :
    {id : Uuid} {m n : ℕ} {db : Db} → m ≡ n → HasAttempts id m db → HasAttempts id n db
HasAttempts-eq e h = record { raw = h.raw; found = h.found; attempts = h.attempts ∙ e }

module _ (hashing : Hashing) (w : World) (id : Uuid) where
  -- does the transaction count an attempt of the row?
  unfoldable pub counted : {s t : State} → Step hashing w s t → ℕ
  counted (failed i error n db m e) = if i == id then 1 else 0
  counted (acquired now i r db e) = if i == id then 1 else 0
  counted _ = 0

  unfoldable pub total_counted : {s t : State} → Reach hashing w s t → ℕ
  unfolding counted
  total_counted start = 0
  total_counted (next r e) = total_counted r + counted e
