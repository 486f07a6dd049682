-- ===== src/Workers/IngestWorker/Rounds.antt =====
-- One round of the worker: what becomes of the row that it claims.
use glacis.Base.{
  ℕ, ◌+◌, ◌<◌, ◌≡◌, refl, Bool, true, false, Option, some, arith, Text, codes, ◌++◌, Member, All,
  All-at, any_row, take, subst, Bool-cases, inl, inr,
}
use glacis.Core.Json.{Json}
use glacis.Core.Events.{NormalizedEvent}
use glacis.Core.Models.{Uuid, Instant, RawEvent, Db, get_raw, update_raw, max_integer, no_nul}
use glacis.Core.Errors.{Error, data_error, Result, ok, raise}
use glacis.Core.Inbox.{IsInbox}
use glacis.Core.Lookup.{first_row-id, get-update_self}
use glacis.Services.Normalization.{Env, mark_processed}
use glacis.Services.Normalization.Outcome.{persist_normalized-Committed, Committed-rows}
use glacis.Services.World.{World}
use glacis.Workers.IngestWorker.{
  claimable, claim, claim_one, set_failed, persist_claimed, give_up, finish, process_claimed,
  process_one,
}
use glacis.Workers.IngestWorker.Failures.{mark_failed-eq, mark_failed-raises}
use glacis.Workers.IngestWorker.Claims.{Claimed, nothing, row, claim_one-Claimed}

module _ (w : World) (now : Instant) (env : Env) where
  max_attempts : ℕ
  max_attempts = w.settings.worker_max_attempts

  -- what the worker tells of a failure: the exception of the classification, or of the transaction
  -- that persists
  pub data Failure (r : RawEvent) (classified : Result NormalizedEvent) (before : Db)
      : Text → Type 0 where
    classification :
        (e : Error)
        → classified ≡ raise e
        → Failure r classified before (codes "classify: " ++ w.repr e)
    persistence :
        (event : NormalizedEvent) (e : Error)
        → classified ≡ ok event
        → persist_claimed w env r.id event before ≡ raise e
        → Failure r classified before (codes "persist: " ++ w.repr e)

  -- the row `r`, once claimed: the classification returned and its event was persisted, or the
  -- failure was counted, or the text of the failure cannot be stored
  pub data Ended (r : RawEvent) (classified : Result NormalizedEvent) (before : Db)
      : Result Bool → Db → Type 0 where
    processed :
        (event : NormalizedEvent) (note : Option Text) (after : Db)
        → classified ≡ ok event
        → persist_claimed w env r.id event before ≡ ok (tt, after)
        → after.raw_events ≡ (update_raw r.id (mark_processed env.now note) before).raw_events
        → Ended r classified before (ok true) after
    failed :
        (error : Text) (after : Db)
        → Failure r classified before error
        → no_nul (take 2000 error) ≡ true
        → after
          ≡ update_raw r.id
              (set_failed (r.attempts + 1) error w.settings.worker_max_attempts)
              before
        → Ended r classified before (ok true) after
    stuck :
        (error : Text)
        → Failure r classified before error
        → no_nul (take 2000 error) ≡ false
        → Ended r classified before (raise data_error) before

  EndedOf : RawEvent → Result NormalizedEvent → Db → Result Bool × Db → Type 0
  EndedOf r classified db p = Ended r classified db p.0 p.1

  give_up-Ended :
      (r : RawEvent) (classified : Result NormalizedEvent) (error : Text) (db : Db)
      → Failure r classified db error
      → get_raw r.id db ≡ some (claim now r)
      → r.attempts < max_integer
      → EndedOf r classified db (give_up w r.id error db)
  unfolding give_up EndedOf
  give_up-Ended r classified error db why h small = elim (Bool-cases (no_nul (take 2000 error))) [
    | inl clean ↦
        let e =
          mark_failed-eq r.id error w.settings.worker_max_attempts (claim now r) db h small clean in
        rw e (failed error _ why clean refl)
    | inr nul ↦
        let e =
          mark_failed-raises r.id error w.settings.worker_max_attempts (claim now r) db h small
            nul in
        rw e (stuck error why nul)
  ]

  -- the transaction that persists, which commits or raises
  persist_claimed-rows :
      (r : RawEvent) (event : NormalizedEvent) (db db' : Db)
      → get_raw r.id db ≡ some (claim now r)
      → persist_claimed w env r.id event db ≡ ok (tt, db')
      → (note : Option Text) × (db'.raw_events
          ≡ (update_raw r.id (mark_processed env.now note) db).raw_events)
  unfolding persist_claimed
  persist_claimed-rows r event db db' found h =
      Committed-rows w.settings w.model_dump env (claim now r) event (
        persist_normalized-Committed w.settings w.model_dump env (claim now r) event db db'
          (rw (found, persist_claimed) at h))

  finish_by :
      (r : RawEvent) (event : NormalizedEvent) (db : Db) (result : Result (Unit {0} × Db))
      → persist_claimed w env r.id event db ≡ result
      → get_raw r.id db ≡ some (claim now r)
      → r.attempts < max_integer
      → EndedOf r (ok event) db (finish w env r.id event db)
  unfolding finish EndedOf
  finish_by r event db (ok (done, db')) h found small =
      let (note, rows) = persist_claimed-rows r event db db' found h in
      let run : (ok true, db') ≡ finish w env r.id event db = ground arith in
      subst (EndedOf r (ok event) db) run (processed event note db' refl h rows)
  finish_by r event db (raise e) h found small =
      let run : give_up w r.id (codes "persist: " ++ w.repr e) db ≡ finish w env r.id event db =
        ground arith in
      subst (EndedOf r (ok event) db) run (
        give_up-Ended r (ok event) (codes "persist: " ++ w.repr e) db (persistence event e refl h)
          found small)

  process_claimed-Ended :
      (r : RawEvent) (classified : Result NormalizedEvent) (db : Db)
      → get_raw r.id db ≡ some (claim now r)
      → r.attempts < max_integer
      → EndedOf r classified db (process_claimed w env r.id classified db)
  unfolding process_claimed
  process_claimed-Ended r (raise e) db found small =
      give_up-Ended r (raise e) (codes "classify: " ++ w.repr e) db (classification e refl) found
        small
  process_claimed-Ended r (ok event) db found small =
      finish_by r event db (persist_claimed w env r.id event db) refl found small

  module _ (locked : Uuid → Bool) (classify : Json → Result NormalizedEvent) where
    -- a round: nothing was claimable, or a row was claimed and came to an end
    pub data Round (db : Db) : Result Bool → Db → Type 0 where
      idle : any_row (claimable locked) db.raw_events ≡ false → Round db (ok false) db
      worked :
          {result : Result Bool} {db' : Db} (r : RawEvent)
          → Member r db.raw_events
          → claimable locked r ≡ true
          → Ended r (classify r.payload) (update_raw r.id (claim now) db) result db'
          → Round db result db'

    RoundOf : Db → Result Bool × Db → Type 0
    RoundOf db p = Round db p.0 p.1

    Claimed-Round :
        (db db₁ : Db) (o : Option RawEvent)
        → IsInbox db.raw_events
        → All (λ (r : RawEvent). r.attempts < max_integer) db.raw_events
        → claim_one w.oldest locked now w.settings.worker_max_attempts db ≡ ok (o, db₁)
        → Claimed w.oldest locked now w.settings.worker_max_attempts db o db₁
        → RoundOf db (process_one w locked now env classify db)
    unfolding process_one RoundOf EndedOf
    Claimed-Round db db₁ o inv small h (nothing none_left e f) =
        subst (RoundOf db) (ground arith) (idle none_left)
    Claimed-Round db db₁ o inv small h (row r m t old e f) =
        let found =
          get-update_self r.id (claim now) (λ x. refl) r db
            (first_row-id r db.raw_events inv.ids m) in
        let after = update_raw r.id (claim now) db in
        subst (RoundOf db) (ground arith) (
          worked {result = (process_claimed w env r.id (classify r.payload) after).0}
            {db' = (process_claimed w env r.id (classify r.payload) after).1} r m t
            (process_claimed-Ended r (classify r.payload) after found
              (All-at _ db.raw_events small m)))

    pub process_one-Round :
        (db : Db)
        → IsInbox db.raw_events
        → All (λ (r : RawEvent). r.attempts < max_integer) db.raw_events
        → (result : Result Bool) × (db' : Db) × (process_one w locked now env classify db
            ≡ (result, db'))
          × Round db result db'
    unfolding RoundOf
    process_one-Round db inv small =
        let (o, db₁, h, c) =
          claim_one-Claimed w.oldest locked now w.settings.worker_max_attempts db inv in
        (
          (process_one w locked now env classify db).0,
          (process_one w locked now env classify db).1,
          refl,
          Claimed-Round db db₁ o inv small h c,
        )
