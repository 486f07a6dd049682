-- ===== src/Workers/IngestWorker/InFlight.antt =====
-- The time that the classifier may take, and the reaper.
use glacis.Base.{
  ℕ, ◌+◌, ◌-◌, ◌*◌, ◌≡◌, ◌≤◌, ◌∙◌, refl, Bool, some, List, [], ◌∷◌, arith, ltb, All, Bool-cases,
  inl, inr, first_row-update, if◌then◌else◌,
}
use glacis.Core.Models.{Uuid, Instant, RawEvent, Db, get_raw}
use glacis.Core.Errors.{ok}
use glacis.Core.Config.{Settings}
use glacis.Core.Inbox.{IsInbox}
use glacis.Core.Lookup.{raw_is}
use glacis.Core.OrderBy.{OrderBy}
use glacis.Llm.Client.{build_llm, longest_call}
use glacis.Workers.IngestWorker.{claim_one, is_stale, release, minute, reap_before, reap_stale}
use glacis.Workers.IngestWorker.Claims.{claim_one_inv, claimed_row}

-- the sweeps of all workers, at the times that their clocks show
unfoldable pub sweeps : Settings → List Instant → Db → Db
unfolding reap_stale
sweeps settings [] db = db
sweeps settings (t ∷ times) db = sweeps settings times (reap_stale settings t db).1

module _ (settings : Settings) (r : RawEvent) (claimed_at : Instant)
    (lock : r.locked_at ≡ some claimed_at) where
  -- a lock that is not older than the limit is kept
  locked-kept :
      (t : Instant) (db : Db)
      → t ≤ claimed_at + settings.worker_stale_lock_minutes * minute
      → get_raw r.id db ≡ some r
      → get_raw r.id (reap_stale settings t db).1 ≡ some r
  unfolding reap_stale reap_before
  locked-kept t db soon found =
      let age = settings.worker_stale_lock_minutes * minute in
      elim (Bool-cases (ltb t age)) [
        | inl early ↦ rw early found
        | inr late ↦
            let threshold = t - age in
            rw late (
              first_row-update (is_stale threshold) release (raw_is r.id) db.raw_events r
                (λ x. refl) found
              ∙ fresh_lock threshold (omega arith))
      ]
    where
      fresh_lock :
          (threshold : Instant)
          → threshold ≤ claimed_at
          → some (if is_stale threshold r then release r else r) ≡ some r
      fresh_lock threshold h = ground (arith, lock, h)

  sweeps-kept :
      (times : List Instant) (db : Db)
      → All (λ t. t ≤ claimed_at + settings.worker_stale_lock_minutes * minute) times
      → get_raw r.id db ≡ some r
      → get_raw r.id (sweeps settings times db) ≡ some r
  unfolding sweeps
  sweeps-kept [] db h found = found
  sweeps-kept (t ∷ times) db h found =
      sweeps-kept times (reap_stale settings t db).1 h.1 (locked-kept t db h.0 found)

-- A sweep never frees a row whose classification is still running: after a claim, any number of
-- sweeps leave the claimed row as it is, if their clocks are ahead of that of the database by at
-- most `skew`, if they come within the longest call of the model, and if the stale-lock limit of
-- the settings covers that call and the skew.
pub claim_one-sweeps :
    (oldest : OrderBy (λ (r : RawEvent). r.received_at)) (locked : Uuid → Bool) (now : Instant)
    (n : ℕ) (settings : Settings) (backoff skew : ℕ) (times : List Instant) (db db₁ : Db)
    (r : RawEvent)
    → IsInbox db.raw_events
    → claim_one oldest locked now n db ≡ ok (some r, db₁)
    → longest_call (build_llm settings) backoff + skew ≤ settings.worker_stale_lock_minutes * minute
    → All (λ t. t ≤ now + (longest_call (build_llm settings) backoff + skew)) times
    → get_raw r.id (sweeps settings times db₁) ≡ some r
claim_one-sweeps oldest locked now n settings backoff skew times db db₁ r inv h enough early =
    let (found, taken, lock) =
      claimed_row oldest locked now n db db₁ r inv
        (claim_one_inv oldest locked now n db db₁ (some r) inv h) in
    sweeps-kept settings r now lock times db₁ (All-later times early) found
  where
    All-later :
        (times : List Instant)
        → All (λ t. t ≤ now + (longest_call (build_llm settings) backoff + skew)) times
        → All (λ t. t ≤ now + settings.worker_stale_lock_minutes * minute) times
    All-later [] h = tt
    All-later (t ∷ times) h = (omega (arith, h.0, enough), All-later times h.1)
