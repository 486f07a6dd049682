-- ===== src/Workers/IngestWorker/Crash.antt =====
-- A worker that crashes after its claim, and the reaper: `claim_one` and then `reap_stale`.
use glacis.Base.{
  ℕ, ◌<◌, ◌≡◌, refl, ◌∙◌, none, some, arith, first_row-update, update_where, if◌then◌else◌, Bool,
}
use glacis.Core.Models.{Uuid, Instant, Status, RawEvent, Db, get_raw}
use glacis.Core.Errors.{ok}
use glacis.Core.OrderBy.{OrderBy}
use glacis.Core.Inbox.{IsInbox}
use glacis.Core.Lookup.{raw_is}
use glacis.Workers.IngestWorker.{claim_one, is_stale, release, reap_before}
use glacis.Workers.IngestWorker.Claims.{claim_one_inv, claimed_row, unclaimed_row}

-- the row `r`, as a sweep with the threshold leaves it
pub data Released (threshold : Instant) (r : RawEvent) (db : Db) : Type 0 where
  released :
      (n : ℕ) (db' : Db) (q : RawEvent)
      → reap_before threshold db ≡ ok (n, db')
      → get_raw r.id db' ≡ some q
      → q.status ≡ Status.pending
      → q.locked_at ≡ none
      → q.attempts ≡ r.attempts
      → Released threshold r db

locked-Released :
    (threshold now : Instant) (r : RawEvent) (db : Db)
    → get_raw r.id db ≡ some r
    → r.status ≡ Status.processing
    → r.locked_at ≡ some now
    → now < threshold
    → Released threshold r db
unfolding reap_before
locked-Released threshold now r db found taken lock late =
    released _ (record db { raw_events = update_where (is_stale threshold) release db.raw_events })
      (release r) refl
      (first_row-update (is_stale threshold) release (raw_is r.id) db.raw_events r (λ x. refl) found
        ∙ stale_released)
      refl refl refl
  where
    stale_released : some (if is_stale threshold r then release r else r) ≡ some (release r)
    stale_released = ground (arith, taken, lock, late)

-- the sweep of a row says nothing of it but its id and its attempts
Released-attempts :
    (threshold : Instant) (r q : RawEvent) (db : Db)
    → r.id ≡ q.id
    → r.attempts ≡ q.attempts
    → Released threshold r db
    → Released threshold q db
Released-attempts threshold r q db key same (released n db' p h found st lock count) =
    released n db' p h (rw (← key) found) st lock (count ∙ same)

-- A crash after a claim costs no attempt: the row that was claimed is pending again after a sweep
-- whose threshold is later than the claim, with no lock and with the attempts that it had in the
-- database before the claim.
pub reap_before-claim_one :
    (oldest : OrderBy (λ (r : RawEvent). r.received_at)) (locked : Uuid → Bool)
    (now threshold : Instant) (n : ℕ) (db db₁ : Db) (r : RawEvent)
    → IsInbox db.raw_events
    → claim_one oldest locked now n db ≡ ok (some r, db₁)
    → now < threshold
    → (q : RawEvent) × (get_raw r.id db ≡ some q) × Released threshold q db₁
reap_before-claim_one oldest locked now threshold n db db₁ r inv h late =
    let c = claim_one_inv oldest locked now n db db₁ (some r) inv h in
    let (found, taken, lock) = claimed_row oldest locked now n db db₁ r inv c in
    let (q, before, key, same) = unclaimed_row oldest locked now n db db₁ r inv c in
    (
      q,
      before,
      Released-attempts threshold r q db₁ key same
          (locked-Released threshold now r db₁ found taken lock late),
    )
