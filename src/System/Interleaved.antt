-- ===== src/System/Interleaved.antt =====
-- The system with `mark_failed` in two steps: it reads the row without a lock, so that another
-- transaction may change the row before it writes. Every other transaction is one step, as in
-- `System`.
pub mod Consistent
pub mod Bounds
use glacis.Base.{ℕ, zero, ◌+◌, ◌≡◌, some, List, [], ◌∷◌, Text, Member, ◌==◌, if◌then◌else◌}
use glacis.Core.Models.{Uuid, RawEvent, Db, get_raw}
use glacis.Core.Errors.{ok}
use glacis.Utils.Hashing.{Hashing}
use glacis.Services.World.{World}
use glacis.Workers.IngestWorker.Unlocked.{write_failed}
use glacis.System.{State, initial, Step}
use glacis.System.Attempts.{counted}

-- `reads` has the rows that some `mark_failed` has read: each may still be written, however late
pub record Shared : Type 0 where
  pub state : State
  pub reads : List RawEvent

abbrev pub at_start : Shared
at_start = record { state = initial; reads = [] }

module _ (hashing : Hashing) (w : World) where
  pub data Turn (s : Shared) : Shared → Type 0 where
    whole : {t : State} → Step hashing w s.state t → Turn s (record { state = t; reads = s.reads })
    read :
        (row : RawEvent)
        → Member row.id s.state.in_flight
        → get_raw row.id s.state.db ≡ some row
        → Turn s (record { state = s.state; reads = row ∷ s.reads })
    written :
        (row : RawEvent) (error : Text) (n : ℕ) (db : Db)
        → Member row s.reads
        → write_failed row error n s.state.db ≡ ok (tt, db)
        → Turn s
            (record { state = record { db = db; in_flight = s.state.in_flight }; reads = s.reads })

  pub data Turns (s : Shared) : Shared → Type 0 where
    begin : Turns s s
    later : {t u : Shared} → Turns s t → Turn t u → Turns s u

  module _ (id : Uuid) where
    -- does the turn count an attempt of the row?
    unfoldable pub turn_counted : {s t : Shared} → Turn s t → ℕ
    unfolding counted
    turn_counted (whole e) = counted hashing w id e
    turn_counted (read row m found) = 0
    turn_counted (written row error n db m e) = if row.id == id then 1 else 0

    unfoldable pub turns_counted : {s t : Shared} → Turns s t → ℕ
    unfolding turn_counted
    turns_counted begin = 0
    turns_counted (later r e) = turns_counted r + turn_counted e
