-- ===== src/Workers/IngestWorker.antt =====
-- app/workers/ingest_worker.py: claim a row, classify it, persist the event or record the failure.
pub mod Claims
pub mod Failures
pub mod Rounds
pub mod Unstorable
pub mod Crash
pub mod Unlocked
pub mod InFlight
use glacis.Base.{
  ℕ, ◌+◌, ◌-◌, ◌*◌, Bool, true, false, not, ◌&&◌, Option, none, some, List, ◌++◌, Text, codes, take,
  leb, ltb, count_where, update_where, if◌then◌else◌,
}
use glacis.Core.Json.{Json}
use glacis.Core.Events.{NormalizedEvent}
use glacis.Core.Models.{
  Uuid, Instant, Status, RawEvent, Db, is_pending, is_processing, get_raw, update_raw, max_integer,
  fits,
}
use glacis.Core.Errors.{Error, data_error, overflow_error, Result, ok, raise}
use glacis.Core.Session.{Tx, Proc, session_scope, ◌>>=◌, ◌>>◌, ensure}
use glacis.Core.Config.{Settings}
use glacis.Core.OrderBy.{OrderBy, select_first}
use glacis.Services.Normalization.{Env, persist_normalized}
use glacis.Services.World.{World}

-- `status = 'pending'`, and no other transaction has the row locked
abbrev pub claimable : (Uuid → Bool) → RawEvent → Bool
claimable locked r = is_pending r.status && not (locked r.id)

abbrev pub claim : Instant → RawEvent → RawEvent
claim now r = record r { status = Status.processing; locked_at = some now }

-- `locked` are the rows that SKIP LOCKED passes over. The statement has no use of `max_attempts`.
unfoldable pub claim_one :
    OrderBy (λ (r : RawEvent). r.received_at) → (Uuid → Bool) → Instant → ℕ → Tx (Option RawEvent)
claim_one oldest locked now max_attempts db =
    elim (select_first oldest (claimable locked) db.raw_events) [
      | none ↦ ok (none, db)
      | some r ↦ let db' = update_raw r.id (claim now) db in ok (get_raw r.id db', db')
    ]

abbrev pub set_failed : ℕ → Text → ℕ → RawEvent → RawEvent
set_failed attempts error max_attempts r = record r {
  attempts = attempts;
  last_error = some (take 2000 error);
  locked_at = none;
  status = if leb max_attempts attempts then Status.failed else Status.pending;
}

-- `attempts` is a column of 32 bits, `last_error` one of 2048 characters, none of them U+0000
unfoldable pub mark_failed : Uuid → Text → ℕ → Tx (Unit {0})
mark_failed id error max_attempts db = elim (get_raw id db) [
  | none ↦ ok (tt, db)
  | some row ↦ do
    ensure (leb (row.attempts + 1) max_integer) data_error
    ensure (fits 2048 (take 2000 error)) data_error
    ok (tt, update_raw id (set_failed (row.attempts + 1) error max_attempts) db)
]

-- `status = 'processing' AND locked_at < :threshold`, where NULL is not less
abbrev pub is_stale : Instant → RawEvent → Bool
is_stale threshold r =
    is_processing r.status
    && elim r.locked_at [ none ↦ false | some locked_at ↦ ltb locked_at threshold ]

abbrev pub release : RawEvent → RawEvent
release r = record r { status = Status.pending; locked_at = none }

abbrev pub minute : ℕ
minute = 60 * 1000000

unfoldable pub reap_before : Instant → Tx ℕ
reap_before threshold db = ok (
  count_where (is_stale threshold) db.raw_events,
  record db { raw_events = update_where (is_stale threshold) release db.raw_events },
)

-- A threshold before the year 1 raises OverflowError.
unfoldable pub reap_stale : Settings → Instant → Proc ℕ
unfolding reap_before
reap_stale settings now db =
    let age = settings.worker_stale_lock_minutes * minute in
    if ltb now age then (raise overflow_error, db) else session_scope (reap_before (now - age)) db

module _ (w : World) where
  -- the second transaction of `process_one`
  unfoldable pub persist_claimed : Env → Uuid → NormalizedEvent → Tx (Unit {0})
  persist_claimed env id result db = elim (get_raw id db) [
    | none ↦ ok (tt, db)
    | some row ↦ persist_normalized w.settings w.model_dump env row result db
  ]

  -- `await mark_failed(…); return True`
  unfoldable pub give_up : Uuid → Text → Proc Bool
  unfolding mark_failed
  give_up id error db =
      let (r, db') = session_scope (mark_failed id error w.settings.worker_max_attempts) db in
      (r >>= λ _. ok true, db')

  -- after the classifier returned
  unfoldable pub finish : Env → Uuid → NormalizedEvent → Proc Bool
  unfolding persist_claimed give_up
  finish env id result db =
      let (r, db') = session_scope (persist_claimed env id result) db in
      elim r [ ok _ ↦ (ok true, db') | raise e ↦ give_up id (codes "persist: " ++ w.repr e) db' ]

  -- after the claim was committed
  unfoldable pub process_claimed : Env → Uuid → Result NormalizedEvent → Proc Bool
  unfolding finish give_up
  process_claimed env id classified db = elim classified [
    | raise e ↦ give_up id (codes "classify: " ++ w.repr e) db
    | ok result ↦ finish env id result db
  ]

  unfoldable pub process_one :
      (Uuid → Bool) → Instant → Env → (Json → Result NormalizedEvent) → Proc Bool
  unfolding claim_one process_claimed
  process_one locked now env classify db =
      let (claimed, db') =
        session_scope (claim_one w.oldest locked now w.settings.worker_max_attempts) db in
      elim claimed [
        | raise e ↦ (raise e, db')
        | ok none ↦ (ok false, db')
        | ok (some raw) ↦ process_claimed env raw.id (classify raw.payload) db'
      ]
