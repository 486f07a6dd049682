-- ===== src/Workers/IngestWorker/Failures.antt =====
-- The failure budget of a row, and the reaper.
use glacis.Base.{
  zero, suc, [], ◌∷◌, ◌++◌, true, false, Bool-cases, inl, inr, subst, ℕ, ◌+◌, ◌≤◌, ◌<◌, ◌≡◌, refl,
  none, some, List, arith, Text, take, length, length-take-le, update_where, if◌then◌else◌, leb,
  All-of, All-at,
}
use glacis.Core.Models.{
  Uuid, Instant, Status, RawEvent, Db, get_raw, update_raw, max_integer, fits, no_nul,
}
use glacis.Core.Errors.{Result, ok, raise, data_error}
use glacis.Core.Inbox.{IsInbox, IsLinked, KeepsKeys, SelectsPrimaries, update-IsInbox}
use glacis.Core.Lookup.{get-update_self, not_duplicate}
use glacis.Workers.IngestWorker.{set_failed, mark_failed, is_stale, release}

no_nul-append : (s t : Text) → no_nul s ≡ true → no_nul t ≡ true → no_nul (s ++ t) ≡ true
unfolding no_nul
no_nul-append [] t a b = b
no_nul-append (c ∷ s) t a b = ground (arith, no_nul-append s t)

no_nul-take : (n : ℕ) (t : Text) → no_nul t ≡ true → no_nul (take n t) ≡ true
unfolding no_nul
no_nul-take zero t h = refl
no_nul-take (suc n) [] h = refl
no_nul-take (suc n) (c ∷ t) h = ground (arith, no_nul-take n t)

-- the text of a failure, after a prefix, has U+0000 only if the exception's has
pub no_nul-told :
    (prefix text : Text)
    → no_nul prefix ≡ true
    → no_nul text ≡ true
    → no_nul (take 2000 (prefix ++ text)) ≡ true
no_nul-told prefix text a b = no_nul-take 2000 (prefix ++ text) (no_nul-append prefix text a b)

-- what `mark_failed` does to the row `r`
pub data Marked (id : Uuid) (error : Text) (max_attempts : ℕ) (r : RawEvent) (db : Db)
    : Result (Unit {0} × Db) → Type 0 where
  counted :
      (db' : Db) (q : RawEvent)
      → no_nul (take 2000 error) ≡ true
      → get_raw id db' ≡ some q
      → q.attempts ≡ r.attempts + 1
      → q.status ≡ (if leb max_attempts (r.attempts + 1) then Status.failed else Status.pending)
      → q.last_error ≡ some (take 2000 error)
      → length (take 2000 error) ≤ 2000
      → q.locked_at ≡ none
      → db'.shipments ≡ db.shipments
      → db'.invoices ≡ db.invoices
      → Marked id error max_attempts r db (ok (tt, db'))
  unstorable :
      no_nul (take 2000 error) ≡ false → Marked id error max_attempts r db (raise data_error)

-- what is cut to 2000 characters fits its column, if no U+0000 is left in it
pub fits-take :
    (error : Text) → no_nul (take 2000 error) ≡ true → fits 2048 (take 2000 error) ≡ true
fits-take error clean = let short = length-take-le 2000 error in ground arith

-- A failure whose text has no U+0000 in its first 2000 characters is counted on the row, whatever
-- its status was: one attempt more, the error in 2000 characters at most, no lock; and the row is
-- terminally failed exactly if it has used up `max_attempts`, and pending again if it has not. The
-- other tables do not change. Any other failure raises, and nothing is counted.
pub mark_failed_lem :
    (id : Uuid) (error : Text) (max_attempts : ℕ) (r : RawEvent) (db : Db)
    → get_raw id db ≡ some r
    → r.attempts < max_integer
    → Marked id error max_attempts r db (mark_failed id error max_attempts db)
unfolding mark_failed
mark_failed_lem id error max_attempts r db h small = elim (Bool-cases (no_nul (take 2000 error))) [
  | inr nul ↦ subst (Marked id error max_attempts r db) (ground arith) (unstorable nul)
  | inl clean ↦
      let f = set_failed (r.attempts + 1) error max_attempts in
      let room = fits-take error clean in
      subst (Marked id error max_attempts r db) (ground arith) (
        counted (update_raw id f db) (f r) clean (get-update_self id f (λ x. refl) r db h) refl refl
          refl (length-take-le 2000 error) refl refl refl)
]

-- a failure that the worker could write
pub mark_failed-eq :
    (id : Uuid) (error : Text) (max_attempts : ℕ) (r : RawEvent) (db : Db)
    → get_raw id db ≡ some r
    → r.attempts < max_integer
    → no_nul (take 2000 error) ≡ true
    → mark_failed id error max_attempts db
      ≡ ok (tt, update_raw id (set_failed (r.attempts + 1) error max_attempts) db)
unfolding mark_failed
mark_failed-eq id error max_attempts r db h small clean =
    let room = fits-take error clean in ground arith

-- and one that the column refuses
pub mark_failed-raises :
    (id : Uuid) (error : Text) (max_attempts : ℕ) (r : RawEvent) (db : Db)
    → get_raw id db ≡ some r
    → r.attempts < max_integer
    → no_nul (take 2000 error) ≡ false
    → mark_failed id error max_attempts db ≡ raise data_error
unfolding mark_failed
mark_failed-raises id error max_attempts r db h small nul = ground arith

pub release-KeepsKeys : KeepsKeys release
release-KeepsKeys = ground arith

pub set_failed-KeepsKeys : (a : ℕ) (e : Text) (n : ℕ) → KeepsKeys (set_failed a e n)
set_failed-KeepsKeys a e n = ground arith

release-selects :
    (threshold : Instant) (rows : List RawEvent)
    → IsInbox rows
    → SelectsPrimaries (is_stale threshold) rows
release-selects threshold rows inv =
    All-of (λ q. is_stale threshold q ≡ true → q.duplicate_of_id ≡ none) rows
      λ q m stale.
        not_duplicate rows q q.duplicate_of_id (All-at (IsLinked rows) rows inv.linked m)
          (ground arith)

-- a sweep keeps the invariant of `raw_events`
pub release-IsInbox :
    (threshold : Instant) (rows : List RawEvent)
    → IsInbox rows
    → IsInbox (update_where (is_stale threshold) release rows)
release-IsInbox threshold rows inv =
    update-IsInbox (is_stale threshold) release release-KeepsKeys rows
      (release-selects threshold rows inv) inv
