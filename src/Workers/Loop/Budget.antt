-- ===== src/Workers/Loop/Budget.antt =====
-- The work that is left in `raw_events`, and how an UPDATE changes it.
use mathlib.Core.Bool.{false≢true}
use glacis.Base.{
  ℕ, suc, ◌+◌, ◌-◌, ◌≤◌, ◌≡◌, refl, sym, ◌∙◌, subst, true, false, List, [], ◌∷◌, arith, Member,
  here, there, any_row, any_row-of_Member, update_where, IsUnique, ◌==◌, ==_refl, inl, inr,
  Bool-cases,
}
use glacis.Core.Models.{Instant, Status, RawEvent, same_raw_id}
use glacis.Core.Lookup.{raw_is}
use glacis.Workers.IngestWorker.{is_stale, release}

-- What a row can still cost: a pending row can be claimed until its attempts are used up, and once
-- in any case, and a row in processing can be released before.
abbrev pub cost : ℕ → Status → ℕ → ℕ
cost max_attempts Status.pending attempts = suc (max_attempts - attempts)
cost max_attempts Status.processing attempts = suc (suc (max_attempts - attempts))
cost max_attempts _ attempts = 0

abbrev pub cost_of : ℕ → RawEvent → ℕ
cost_of max_attempts r = cost max_attempts r.status r.attempts

abbrev pub work : ℕ → List RawEvent → ℕ
work max_attempts [] = 0
work max_attempts (r ∷ rows) = cost_of max_attempts r + work max_attempts rows

other_id :
    (r q : RawEvent) (rows : List RawEvent)
    → any_row (same_raw_id q) rows ≡ false
    → Member r rows
    → (r.id == q.id) ≡ false
other_id r q rows h m = elim (Bool-cases (r.id == q.id)) [
  | inr differs ↦ differs
  | inl same ↦ absurd (false≢true (sym h ∙ any_row-of_Member (same_raw_id q) rows m (ground arith)))
]

module _ (n : ℕ) (f : RawEvent → RawEvent) where
  work-untouched :
      (r : RawEvent) (rows : List RawEvent)
      → any_row (same_raw_id r) rows ≡ false
      → work n (update_where (raw_is r.id) f rows) ≡ work n rows
  work-untouched r [] h = refl
  work-untouched r (q ∷ rows) h = ground (arith, work-untouched r rows)

  work-update_head :
      (q : RawEvent) (rows : List RawEvent)
      → any_row (same_raw_id q) rows ≡ false
      → work n (update_where (raw_is q.id) f (q ∷ rows)) + cost_of n q
        ≡ work n (q ∷ rows) + cost_of n (f q)
  work-update_head q rows h = ground (arith, ==_refl q.id, work-untouched q rows)

  -- the UPDATE of one row changes the work by the work of that row
  pub work-update :
      (r : RawEvent) (rows : List RawEvent)
      → IsUnique same_raw_id rows
      → Member r rows
      → work n (update_where (raw_is r.id) f rows) + cost_of n r ≡ work n rows + cost_of n (f r)
  work-update r [] u m = elim m [ ]
  work-update r (q ∷ rows) u (here e) =
      subst
        (λ x.
          work n (update_where (raw_is x.id) f (q ∷ rows)) + cost_of n x
          ≡ work n (q ∷ rows) + cost_of n (f x))
        e (work-update_head q rows u.0)
  work-update r (q ∷ rows) u (there m) =
      let rest = work-update r rows u.1 m in rw (other_id r q rows u.0 m) (omega (arith, rest))

-- a sweep adds no work
pub work-release :
    (n : ℕ) (threshold : Instant) (rows : List RawEvent)
    → work n (update_where (is_stale threshold) release rows) ≤ work n rows
work-release n threshold [] = omega arith
work-release n threshold (r ∷ rows) = elim (Bool-cases (is_stale threshold r)) [
  | inr fresh ↦ let rest = work-release n threshold rows in rw fresh (omega (arith, rest))
  | inl stale ↦
      let rest = work-release n threshold rows in
      let s : cost_of n (release r) ≤ cost_of n r = released r stale in
      rw stale (omega (arith, rest, s))
]
  where
    released : (r : RawEvent) → is_stale threshold r ≡ true → cost_of n (release r) ≤ cost_of n r
    released r stale = ground arith
