-- ===== src/Tests/LoopTests.antt =====
-- A round, the loop with a classifier that is down, and a retry.
use glacis.Base.{refl, Bool, false, List, [], ◌∷◌, arith, codes}
use glacis.Core.Json.{Json}
use glacis.Core.Events.{NormalizedEvent}
use glacis.Core.Models.{no_nul, Uuid}
use glacis.Core.Errors.{Result, ok, raise, llm_error}
use glacis.Services.Ingestion.{new_raw}
use glacis.Workers.Loop.{Tick, LoopState, run}
use glacis.Workers.Loop.Drain.{Drained, HasRoom, iterate-Drained}
use glacis.System.{State}
use glacis.System.Runs.{Runs, run-Runs}
use glacis.Tests.Fixtures.{hashing, world, in_transit, event_of, env_of}
use glacis.Tests.IngestTests.{first_db, first_db-IsInbox}

abbrev down : Json → Result NormalizedEvent
down payload = raise (llm_error (codes "timeout"))

abbrev pub up : Json → Result NormalizedEvent
up payload = ok (event_of 100 in_transit)

abbrev free : Uuid → Bool
free id = false

first_db-HasRoom : HasRoom 7 first_db.raw_events
unfolding new_raw
first_db-HasRoom = ground arith

first_db-below : HasRoom 0 first_db.raw_events
unfolding new_raw
first_db-below = ground arith

abbrev tick : Tick
tick = record {
  time = 5;
  reap_now = 30;
  locked = free;
  now = 30;
  env = env_of 70 71;
  classify = down;
}

abbrev ticks : List Tick
ticks = tick ∷ tick ∷ tick ∷ tick ∷ tick ∷ tick ∷ tick ∷ []

abbrev loop_start : LoopState
loop_start = record { last_reap = 0; db = first_db; did_work = false }

iterate-Drained_example : Drained world ticks loop_start
unfolding new_raw no_nul
iterate-Drained_example =
    iterate-Drained world ticks loop_start (λ e. refl) first_db-IsInbox first_db-HasRoom
      (ground arith)

abbrev queued : State
queued = record { db = first_db; in_flight = [] }

run-Runs_example : Runs hashing world queued (run world 5 30 ticks first_db).db
run-Runs_example = run-Runs hashing world 5 30 ticks queued
