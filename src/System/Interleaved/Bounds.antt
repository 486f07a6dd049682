-- ===== src/System/Interleaved/Bounds.antt =====
-- The attempts of a row, with `mark_failed` in two steps: failures that overlap may count as one.
use glacis.Base.{
  ℕ, ◌+◌, ◌≡◌, ◌∙◌, ◌≤◌, ◌<◌, refl, sym, some, List, [], ◌∷◌, arith, Text, ◌==◌, ==_sound, All,
  All-at, Bool-cases, inl, inr, if◌then◌else◌,
}
use glacis.Core.Models.{Uuid, RawEvent, Db, get_raw, update_raw}
use glacis.Core.Errors.{ok}
use glacis.Core.Lookup.{get-update_self, get-update_ne}
use glacis.Utils.Hashing.{Hashing}
use glacis.Services.World.{World}
use glacis.Workers.IngestWorker.{set_failed}
use glacis.Workers.IngestWorker.Unlocked.{flush_failed, write_failed, write_failed_inv}
use glacis.System.{State}
use glacis.System.Attempts.{HasAttempts, HasAttempts-eq, counted}
use glacis.System.Attempts.Total.{Step-HasAttempts}
use glacis.System.Reachable.{IsConsistent}
use glacis.System.Interleaved.{
  Shared, Turn, whole, read, written, Turns, begin, later, turn_counted, turns_counted,
}
use glacis.System.Interleaved.Consistent.{IsSettled, Turns-keeps}

module _ (id : Uuid) (n k : ℕ) where
  -- the attempts in what was read of the row
  abbrev IsReadWithin : RawEvent → Type 0
  IsReadWithin row = row.id ≡ id → (n ≤ row.attempts) × (row.attempts ≤ n + k)

  -- after `k` counted attempts of a row that had `n`
  pub record IsWithin (s : Shared) : Type 0 where
    pub attempts : ℕ
    pub has : HasAttempts id attempts s.state.db
    pub low : n ≤ attempts
    pub high : attempts ≤ n + k
    pub moved : 0 < k → n < attempts
    pub reads : All IsReadWithin s.reads

wider :
    (id : Uuid) (n k j : ℕ) (rows : List RawEvent)
    → All (IsReadWithin id n k) rows
    → All (IsReadWithin id n (k + j)) rows
wider id n k j [] h = tt
wider id n k j (row ∷ rows) h =
    (λ own. let (low, high) = h.0 own in (low, omega arith), wider id n k j rows h.1)

-- the row after a late write
written-HasAttempts :
    (id : Uuid) (m : ℕ) (row : RawEvent) (error : Text) (j : ℕ) (db db' : Db)
    → write_failed row error j db ≡ ok (tt, db')
    → HasAttempts id m db
    → HasAttempts id (if row.id == id then row.attempts + 1 else m) db'
written-HasAttempts id m row error j db db' e h =
    let f = flush_failed row (set_failed (row.attempts + 1) error j row) in
    let after : db' ≡ update_raw row.id f db = write_failed_inv row error j db db' e in
    elim (Bool-cases (row.id == id)) [
      | inl own ↦
          let same : row.id ≡ id = ==_sound row.id id own in
          rw (after, own)
            (record {
              raw = f h.raw;
              found = rw (← same) (get-update_self row.id f (λ x. refl) h.raw db (rw same h.found));
              attempts = ground arith;
            })
      | inr other ↦
          rw (after, other)
            (record {
              raw = h.raw;
              found = get-update_ne row.id f (λ x. refl) id h.raw db other h.found;
              attempts = h.attempts;
            })
    ]

module _ (hashing : Hashing) (w : World) (id : Uuid) (n : ℕ) where
  read_within :
      (k : ℕ) (row : RawEvent) (s : Shared)
      → get_raw row.id s.state.db ≡ some row
      → IsWithin id n k s
      → IsReadWithin id n k row
  read_within k row s found h own =
      let same : some row ≡ some h.has.raw = sym found ∙ rw own h.has.found in
      let as_many : row.attempts ≡ h.attempts = ground (arith, same, h.has.attempts) in
      (omega (arith, h.low), omega (arith, h.high))

  Turn-IsWithin :
      (k : ℕ) {s t : Shared} (e : Turn hashing w s t)
      → IsSettled hashing w s
      → IsWithin id n k s
      → IsWithin id n (k + turn_counted hashing w id e) t
  unfolding turn_counted
  Turn-IsWithin k {s} (whole e) c h = record {
    attempts = h.attempts + counted hashing w id e;
    has = Step-HasAttempts hashing w id h.attempts e c.consistent h.has;
    low = omega (arith, h.low);
    high = omega (arith, h.high);
    moved = λ some_counted. grind (arith, h.low, h.moved);
    reads = wider id n k (counted hashing w id e) s.reads h.reads;
  }
  Turn-IsWithin k {s} (read row m found) c h = record {
    attempts = h.attempts;
    has = h.has;
    low = h.low;
    high = omega (arith, h.high);
    moved = λ some_counted. h.moved (omega arith);
    reads = (
      λ own. let (low, high) = read_within k row s found h own in (low, omega arith),
      wider id n k 0 s.reads h.reads,
    );
  }
  Turn-IsWithin k {s} (written row error j db m e) c h = elim (Bool-cases (row.id == id)) [
    | inl own ↦
        let (low, high) = All-at (IsReadWithin id n k) s.reads h.reads m (==_sound row.id id own) in
        record {
          attempts = row.attempts + 1;
          has =
              HasAttempts-eq (rw own refl)
                (written-HasAttempts id h.attempts row error j s.state.db db e h.has);
          low = omega arith;
          high = ground (arith, own);
          moved = λ some_counted. omega arith;
          reads = wider id n k (if row.id == id then 1 else 0) s.reads h.reads;
        }
    | inr other ↦ record {
      attempts = h.attempts;
      has =
          HasAttempts-eq (rw other refl)
            (written-HasAttempts id h.attempts row error j s.state.db db e h.has);
      low = h.low;
      high = ground (arith, other, h.high);
      moved = λ some_counted. h.moved (ground (arith, other));
      reads = wider id n k (if row.id == id then 1 else 0) s.reads h.reads;
    }
  ]

  Turns-IsWithin :
      {s t : Shared} (r : Turns hashing w s t)
      → IsSettled hashing w s
      → IsWithin id n 0 s
      → IsWithin id n (turns_counted hashing w id r) t
  unfolding turns_counted
  Turns-IsWithin begin c h = h
  Turns-IsWithin (later r e) c h =
      Turn-IsWithin (turns_counted hashing w id r) e (Turns-keeps hashing w r c)
        (Turns-IsWithin r c h)

  -- From any consistent state, when other transactions come between the read of `mark_failed` and
  -- its write: the attempts of a row grow by at most the number of its failures that were written
  -- and of the retries of it that were admitted, and by at least one if there was any.
  pub Turns-HasAttempts :
      {s : State} {t : Shared} (r : Turns hashing w (record { state = s; reads = [] }) t)
      → IsConsistent hashing w s
      → HasAttempts id n s.db
      → (m : ℕ) × HasAttempts id m t.state.db
        × ((if turns_counted hashing w id r == 0 then n else n + 1) ≤ m)
        × (m ≤ n + turns_counted hashing w id r)
  Turns-HasAttempts r c h =
      let k = turns_counted hashing w id r in
      let within =
        Turns-IsWithin r (record { consistent = c; held = tt })
          (record {
            attempts = n;
            has = h;
            low = omega arith;
            high = omega arith;
            moved = λ none_counted. absurd (omega arith);
            reads = tt;
          }) in
      let low : (if k == 0 then n else n + 1) ≤ within.attempts = elim (Bool-cases (k == 0)) [
        | inl none_counted ↦ rw none_counted within.low
        | inr some_counted ↦ rw some_counted (omega (arith, within.moved (ground arith)))
      ] in
      (within.attempts, within.has, low, within.high)
