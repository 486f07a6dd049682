-- ===== src/Workers/Loop.antt =====
-- app/workers/ingest_worker.py: `run`, the loop of the worker.
pub mod Budget
pub mod Drain
use glacis.Base.{ℕ, ◌+◌, Bool, true, false, List, [], ◌∷◌, leb, if◌then◌else◌}
use glacis.Core.Json.{Json}
use glacis.Core.Events.{NormalizedEvent}
use glacis.Core.Models.{Uuid, Instant, Db}
use glacis.Core.Errors.{Result, ok, raise}
use glacis.Services.Normalization.{Env}
use glacis.Services.World.{World}
use glacis.Workers.IngestWorker.{reap_stale, process_one}

-- What an iteration reads from outside: `time` is the monotonic clock of the event loop, in the
-- unit of the settings, `reap_now` the wall clock of the sweep, `now` that of the claim.
pub record Tick : Type 0 where
  pub time : ℕ
  pub reap_now : Instant
  pub locked : Uuid → Bool
  pub now : Instant
  pub env : Env
  pub classify : Json → Result NormalizedEvent

-- the local variable `last_reap`, the database, and whether the last iteration did work
pub record LoopState : Type 0 where
  pub last_reap : ℕ
  pub db : Db
  pub did_work : Bool

module _ (w : World) where
  -- `now - last_reap >= settings.worker_reaper_interval_s`
  unfoldable pub is_reap_due : ℕ → ℕ → Bool
  is_reap_due last_reap time = leb (last_reap + w.settings.worker_reaper_interval) time

  -- an exception is logged, and no work was done
  abbrev pub worked_of : Result Bool → Bool
  worked_of (ok did_work) = did_work
  worked_of (raise e) = false

  -- the sweep, whose exception is logged
  unfoldable pub reap_if_due : Tick → LoopState → LoopState
  unfolding is_reap_due reap_stale
  reap_if_due tick s =
      if is_reap_due s.last_reap tick.time
      then record s { last_reap = tick.time; db = (reap_stale w.settings tick.reap_now s.db).1 }
      else s

  -- the body of the `while`
  unfoldable pub iterate : Tick → LoopState → LoopState
  unfolding reap_if_due process_one
  iterate tick s =
      let s₁ = reap_if_due tick s in
      let (result, db) = process_one w tick.locked tick.now tick.env tick.classify s₁.db in
      record s₁ { db = db; did_work = worked_of result }

  -- the iterations until the shutdown
  unfoldable pub run_loop : List Tick → LoopState → LoopState
  unfolding iterate
  run_loop [] s = s
  run_loop (tick ∷ ticks) s = run_loop ticks (iterate tick s)

  -- the first sweep, and the loop
  unfoldable pub run : ℕ → Instant → List Tick → Db → LoopState
  unfolding reap_stale run_loop
  run time reap_now ticks db =
      run_loop ticks
        (record { last_reap = time; db = (reap_stale w.settings reap_now db).1; did_work = false })
