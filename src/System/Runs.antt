-- ===== src/System/Runs.antt =====
-- The worker's loop and an operator's retry, related to the steps of `System`.
use glacis.Base.{
  ℕ, ◌≡◌, refl, subst, Bool, Option, none, some, List, [], ◌∷◌, arith, Text, codes, ◌++◌, Member,
  here, ltb, ◌*◌, ◌-◌, Bool-cases, Option-cases, inl, inr,
}
use glacis.Core.Json.{Json}
use glacis.Core.Events.{NormalizedEvent}
use glacis.Core.Models.{Uuid, Instant, RawEvent, Db, get_raw}
use glacis.Core.Errors.{Result, ok, raise}
use glacis.Core.Session.{commit_or_rollback}
use glacis.Utils.Hashing.{Hashing}
use glacis.Services.Normalization.{Env}
use glacis.Services.World.{World}
use glacis.Services.Retry.{
  acquire, persist_retried, record_outcome, read_final, process, conclude, retry_raw_event,
}
use glacis.Workers.IngestWorker.{
  claim_one, persist_claimed, mark_failed, give_up, finish, process_claimed, process_one,
  reap_stale, minute,
}
use glacis.Workers.Loop.{Tick, LoopState, is_reap_due, reap_if_due, iterate, run_loop, run}
use glacis.System.{
  State, Step, idle, claimed, persisted, failed, reaped, acquired, retried, concluded, Reach, start,
  next,
}

module _ (hashing : Hashing) (w : World) where
  -- the database `db` is reached from the state `s`
  pub data Runs (s : State) (db : Db) : Type 0 where
    runs : (ids : List Uuid) → Reach hashing w s (record { db = db; in_flight = ids }) → Runs s db

  pub Reach-trans :
      {s t u : State} → Reach hashing w s t → Reach hashing w t u → Reach hashing w s u
  Reach-trans r start = r
  Reach-trans r (next q e) = next (Reach-trans r q) e

  -- one step of a row that was taken
  pub step :
      {s : State} {db : Db}
      → Step hashing w s (record { db = db; in_flight = s.in_flight })
      → Runs s db
  step {s} e = runs s.in_flight (next start e)

  after : {s t : State} {db : Db} → Reach hashing w s t → Runs t db → Runs s db
  after r (runs ids q) = runs ids (Reach-trans r q)

  module _ (id : Uuid) where
    failed_step :
        (error : Text) (n : ℕ) (s : State) (result : Result (Unit {0} × Db))
        → Member id s.in_flight
        → mark_failed id error n s.db ≡ result
        → Runs s (commit_or_rollback s.db result).1
    failed_step error n s (ok (_, db)) m h = step (failed id error n db m h)
    failed_step error n s (raise e) m h = runs s.in_flight start

    give_up-Runs :
        (error : Text) (s : State) → Member id s.in_flight → Runs s (give_up w id error s.db).1
    unfolding give_up
    give_up-Runs error s m = failed_step error w.settings.worker_max_attempts s _ m refl

    finish-Runs :
        (env : Env) (event : NormalizedEvent) (s : State) (result : Result (Unit {0} × Db))
        → Member id s.in_flight
        → persist_claimed w env id event s.db ≡ result
        → Runs s (finish w env id event s.db).1
    unfolding finish
    finish-Runs env event s (ok (_, db)) m h =
        subst (Runs s) (ground arith) (step (persisted env id event db m h))
    finish-Runs env event s (raise e) m h =
        subst (Runs s) (ground arith) (give_up-Runs (codes "persist: " ++ w.repr e) s m)

    process_claimed-Runs :
        (env : Env) (classified : Result NormalizedEvent) (s : State)
        → Member id s.in_flight
        → Runs s (process_claimed w env id classified s.db).1
    unfolding process_claimed
    process_claimed-Runs env (raise e) s m = give_up-Runs (codes "classify: " ++ w.repr e) s m
    process_claimed-Runs env (ok event) s m = finish-Runs env event s _ m refl

  module _ (locked : Uuid → Bool) (now : Instant) (env : Env)
      (classify : Json → Result NormalizedEvent) where
    round_by :
        (s : State) (result : Result (Option RawEvent × Db))
        → claim_one w.oldest locked now w.settings.worker_max_attempts s.db ≡ result
        → Runs s (process_one w locked now env classify s.db).1
    unfolding process_one
    round_by s (raise e) h = subst (Runs s) (ground arith) (runs s.in_flight start)
    round_by s (ok (none, db)) h =
        subst (Runs s) (ground arith) (step (idle locked now w.settings.worker_max_attempts db h))
    round_by s (ok (some r, db)) h =
        let t : State = record { db = db; in_flight = r.id ∷ s.in_flight } in
        subst (Runs s) (ground arith) (
          after (next start (claimed locked now w.settings.worker_max_attempts r db h))
            (process_claimed-Runs r.id env (classify r.payload) t (here refl)))

    -- A round of the worker is a sequence of steps.
    pub process_one-Runs : (s : State) → Runs s (process_one w locked now env classify s.db).1
    process_one-Runs s =
        round_by s (claim_one w.oldest locked now w.settings.worker_max_attempts s.db) refl

  module _ (id : Uuid) where
    concluded_by :
        (error : Text) (s : State) (result : Result (Unit {0} × Db))
        → Member id s.in_flight
        → record_outcome id error s.db ≡ result
        → Runs s (commit_or_rollback s.db result).1
    concluded_by error s (ok (_, db)) m h = step (concluded id error db m h)
    concluded_by error s (raise e) m h = runs s.in_flight start

    read_final-same :
        (before : Db) (r : RawEvent) (db : Db) → read_final id before ≡ ok (r, db) → before ≡ db
    unfolding read_final
    read_final-same before r db h = elim (Option-cases (get_raw id before)) [
      | inl missing ↦ absurd (ground arith)
      | inr (q, found) ↦ ground arith
    ]

    final_by :
        (s : State) (result : Result (RawEvent × Db))
        → read_final id s.db ≡ result
        → Runs s (commit_or_rollback s.db result).1
    final_by s (ok (r, db)) h =
        subst (Runs s) (read_final-same s.db r db h) (runs s.in_flight start)
    final_by s (raise e) h = runs s.in_flight start

    conclude-Runs :
        (result : Result (Unit {0})) (s : State)
        → Member id s.in_flight
        → Runs s (conclude w id result s.db).1
    unfolding conclude
    conclude-Runs (ok _) s m = final_by s _ refl
    conclude-Runs (raise e) s m = concluded_by (codes "manual retry: " ++ w.repr e) s _ m refl

    persisted_by :
        (env : Env) (event : NormalizedEvent) (s : State) (result : Result (Unit {0} × Db))
        → Member id s.in_flight
        → persist_retried w env id event s.db ≡ result
        → Runs s
            (conclude w id (commit_or_rollback s.db result).0 (commit_or_rollback s.db result).1).1
    persisted_by env event s (ok (_, db)) m h =
        after (next start (retried env id event db m h))
          (conclude-Runs (ok tt) (record { db = db; in_flight = s.in_flight }) m)
    persisted_by env event s (raise e) m h = conclude-Runs (raise e) s m

    process-Runs :
        (env : Env) (classified : Result NormalizedEvent) (s : State)
        → Member id s.in_flight
        → Runs s
            (conclude w id
              (process w env id classified s.db).0
              (process w env id classified s.db).1).1
    unfolding process
    process-Runs env (raise e) s m = conclude-Runs (raise e) s m
    process-Runs env (ok event) s m = persisted_by env event s _ m refl

    retry_by :
        (now : Instant) (env : Env) (classify : Json → Result NormalizedEvent) (s : State)
        (result : Result (RawEvent × Db))
        → acquire now id s.db ≡ result
        → Runs s (retry_raw_event w now env classify id s.db).1
    unfolding retry_raw_event
    retry_by now env classify s (raise e) h = subst (Runs s) (ground arith) (runs s.in_flight start)
    retry_by now env classify s (ok (r, db)) h =
        let t : State = record { db = db; in_flight = id ∷ s.in_flight } in
        subst (Runs s) (ground arith) (
          after (next start (acquired now id r db h))
            (process-Runs env (classify r.payload) t (here refl)))

    -- An operator's retry is a sequence of steps.
    pub retry_raw_event-Runs :
        (now : Instant) (env : Env) (classify : Json → Result NormalizedEvent) (s : State)
        → Runs s (retry_raw_event w now env classify id s.db).1
    retry_raw_event-Runs now env classify s = retry_by now env classify s (acquire now id s.db) refl

  reap_stale-Runs : (now : Instant) (s : State) → Runs s (reap_stale w.settings now s.db).1
  unfolding reap_stale
  reap_stale-Runs now s =
      elim (Bool-cases (ltb now (w.settings.worker_stale_lock_minutes * minute))) [
        | inl early ↦ rw early (runs s.in_flight start)
        | inr late ↦
            rw late (step (reaped (now - w.settings.worker_stale_lock_minutes * minute) _ _ refl))
      ]

  pub then_runs :
      {s : State} {db db' : Db} → Runs s db → ((t : State) → t.db ≡ db → Runs t db') → Runs s db'
  then_runs (runs ids r) f = after r (f _ refl)

  reap_if_due-Runs :
      (tick : Tick) (l : LoopState) (s : State) → s.db ≡ l.db → Runs s (reap_if_due w tick l).db
  unfolding reap_if_due
  reap_if_due-Runs tick l s e = elim (Bool-cases (is_reap_due w l.last_reap tick.time)) [
    | inl due ↦ rw (due, ← e) (reap_stale-Runs tick.reap_now s)
    | inr early ↦ rw (early, ← e) (runs s.in_flight start)
  ]

  iterate-Runs :
      (tick : Tick) (l : LoopState) (s : State) → s.db ≡ l.db → Runs s (iterate w tick l).db
  unfolding iterate
  iterate-Runs tick l s e = then_runs (reap_if_due-Runs tick l s e) λ t f.
      subst (λ d. Runs t (process_one w tick.locked tick.now tick.env tick.classify d).1) f
        (process_one-Runs tick.locked tick.now tick.env tick.classify t)

  run_loop-Runs :
      (ticks : List Tick) (l : LoopState) (s : State) → s.db ≡ l.db → Runs s (run_loop w ticks l).db
  unfolding run_loop
  run_loop-Runs [] l s e = rw (← e) (runs s.in_flight start)
  run_loop-Runs (tick ∷ ticks) l s e =
      then_runs (iterate-Runs tick l s e) λ t f. run_loop-Runs ticks (iterate w tick l) t f

  -- The whole run of a worker, with its first sweep and any number of iterations, is a sequence of
  -- steps: what holds of every reachable state holds of the database that the run leaves.
  pub run-Runs :
      (time : ℕ) (reap_now : Instant) (ticks : List Tick) (s : State)
      → Runs s (run w time reap_now ticks s.db).db
  unfolding run
  run-Runs time reap_now ticks s =
      then_runs (reap_stale-Runs reap_now s) λ t e. run_loop-Runs ticks _ t e
