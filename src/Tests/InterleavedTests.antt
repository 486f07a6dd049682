-- ===== src/Tests/InterleavedTests.antt =====
-- A row whose first worker is slow: a sweep frees it, a second worker claims it, and both fail.
use glacis.Base.{◌==◌, if◌then◌else◌, ◌≡◌, ◌≤◌, ◌+◌, ℕ, refl, none, [], ◌∷◌, codes, here}
use glacis.Core.Models.{no_nul, RawEvent, Db, update_raw}
use glacis.Workers.IngestWorker.{claim, set_failed}
use glacis.Workers.IngestWorker.Unlocked.{flush_failed, write_failed}
use glacis.System.{State, Reach, start, next, claimed, reaped, failed}
use glacis.System.Attempts.{HasAttempts, total_counted}
use glacis.System.Attempts.Total.{Reach-HasAttempts}
use glacis.System.Reachable.{IsConsistent, Reach-IsConsistent}
use glacis.System.Runs.{Reach-trans}
use glacis.System.Interleaved.{
  Shared, at_start, whole, read, written, Turns, begin, later, turns_counted,
}
use glacis.System.Interleaved.Consistent.{Turns-IsConsistent}
use glacis.System.Interleaved.Bounds.{Turns-HasAttempts}
use glacis.Tests.Fixtures.{hashing, world}
use glacis.Tests.IngestTests.{first_row}
use glacis.Tests.WorkerTests.{working, free, swept_db, sweep, claimed_state, history}

claimed-IsConsistent : IsConsistent hashing world claimed_state
claimed-IsConsistent = Reach-IsConsistent hashing world history

claimed-HasAttempts : HasAttempts 1 0 claimed_state.db
unfolding working no_nul
claimed-HasAttempts = record { raw = claim 30 first_row; found = refl; attempts = refl }

-- the row was swept, and is claimed again
abbrev second_row : RawEvent
second_row = claim 110 (record first_row { locked_at = none })

abbrev second_db : Db
second_db = update_raw 1 (claim 110) swept_db

abbrev second_state : State
second_state = record { db = second_db; in_flight = 1 ∷ 1 ∷ [] }

second_reach : Reach hashing world claimed_state second_state
unfolding working no_nul
second_reach =
    next (next start (reaped 100 1 swept_db sweep)) (claimed free 110 5 second_row second_db refl)

-- one failure after the other: two attempts
abbrev failed_db : Db
failed_db = update_raw 1 (set_failed 1 (codes "boom") 5) second_db

abbrev twice_failed_state : State
twice_failed_state = record {
  db = update_raw 1 (set_failed 2 (codes "late") 5) failed_db;
  in_flight = 1 ∷ 1 ∷ [];
}

twice_failed : Reach hashing world claimed_state twice_failed_state
unfolding working no_nul
twice_failed =
    next (next second_reach (failed 1 (codes "boom") 5 failed_db (here refl) refl))
      (failed 1 (codes "late") 5 twice_failed_state.db (here refl) refl)

Reach-HasAttempts_example :
    HasAttempts 1 (0 + total_counted hashing world 1 twice_failed) twice_failed_state.db
Reach-HasAttempts_example =
    Reach-HasAttempts hashing world 1 0 twice_failed claimed-IsConsistent claimed-HasAttempts

two_counted : total_counted hashing world 1 twice_failed ≡ 2
unfolding twice_failed second_reach total_counted
two_counted = refl

-- both workers read the row before either writes it
abbrev flushed_once : Db
flushed_once =
    update_raw 1 (flush_failed second_row (set_failed 1 (codes "boom") 5 second_row)) second_db

abbrev flushed_twice : Db
flushed_twice =
    update_raw 1 (flush_failed second_row (set_failed 1 (codes "late") 5 second_row)) flushed_once

abbrev at_end : Shared
at_end = record {
  state = record { db = flushed_twice; in_flight = 1 ∷ 1 ∷ [] };
  reads = second_row ∷ second_row ∷ [];
}

-- so far, each transaction was whole

whole_turns :
    {s t : State}
    → Reach hashing world s t
    → Turns hashing world (record { state = s; reads = [] }) (record { state = t; reads = [] })
whole_turns start = begin
whole_turns (next r e) = later (whole_turns r) (whole e)

overlapping :
    {s : Shared}
    → Turns hashing world s (record { state = second_state; reads = [] })
    → Turns hashing world s at_end
unfolding write_failed working no_nul
overlapping before =
    later
      (later
        (later (later before (read second_row (here refl) refl)) (read second_row (here refl) refl))
        (written second_row (codes "boom") 5 flushed_once (here refl) refl))
      (written second_row (codes "late") 5 flushed_twice (here refl) refl)

lost_update : Turns hashing world (record { state = claimed_state; reads = [] }) at_end
lost_update = overlapping (whole_turns second_reach)

-- two failures were counted, and the row has one attempt more
lost_update_counted : turns_counted hashing world 1 lost_update ≡ 2
unfolding lost_update overlapping whole_turns second_reach turns_counted
lost_update_counted = refl

lost_update_attempts : HasAttempts 1 1 flushed_twice
unfolding working no_nul
lost_update_attempts = record {
  raw =
      flush_failed second_row (set_failed 1 (codes "late") 5 second_row)
        (flush_failed second_row (set_failed 1 (codes "boom") 5 second_row) second_row);
  found = refl;
  attempts = refl;
}

Turns-HasAttempts_example :
    (m : ℕ) × HasAttempts 1 m at_end.state.db
    × ((if turns_counted hashing world 1 lost_update == 0 then 0 else 0 + 1) ≤ m)
    × (m ≤ 0 + turns_counted hashing world 1 lost_update)
Turns-HasAttempts_example =
    Turns-HasAttempts hashing world 1 0 lost_update claimed-IsConsistent claimed-HasAttempts

history_turns : Turns hashing world at_start at_end
history_turns = overlapping (whole_turns (Reach-trans hashing world history second_reach))

Turns-IsConsistent_example : IsConsistent hashing world at_end.state
Turns-IsConsistent_example = Turns-IsConsistent hashing world history_turns
