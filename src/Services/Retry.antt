-- ===== src/Services/Retry.antt =====
-- app/services/retry.py: an operator's retry of one raw event, in its phases.
pub mod Outcome
use glacis.Base.{ℕ, ◌+◌, none, some, ◌++◌, Text, codes, take, leb}
use glacis.Core.Json.{Json}
use glacis.Core.Events.{NormalizedEvent}
use glacis.Core.Models.{Uuid, Instant, Status, RawEvent, get_raw, update_raw, max_integer, fits}
use glacis.Core.Errors.{
  data_error, retry_not_found, retry_refused, duplicate_of, already_processed, Result, ok, raise,
}
use glacis.Core.Session.{Tx, Proc, session_scope, ◌>>=◌, ◌>>◌, ensure}
use glacis.Services.Normalization.{Env, persist_normalized}
use glacis.Services.World.{World}

abbrev pub set_acquired : Instant → ℕ → RawEvent → RawEvent
set_acquired now attempts r = record r {
  status = Status.processing;
  locked_at = some now;
  attempts = attempts;
  last_error = none;
}

unfoldable pub acquire_row : Instant → RawEvent → Status → Tx RawEvent
acquire_row now raw Status.duplicate db =
    raise (retry_refused Status.duplicate (duplicate_of raw.duplicate_of_id))
acquire_row now raw Status.processed db = raise (retry_refused Status.processed already_processed)
acquire_row now raw _ db = do
  ensure (leb (raw.attempts + 1) max_integer) data_error
  ok (raw, update_raw raw.id (set_acquired now (raw.attempts + 1)) db)

-- phase 1; the row is returned for its payload
unfoldable pub acquire : Instant → Uuid → Tx RawEvent
unfolding acquire_row
acquire now id db = elim (get_raw id db) [
  | none ↦ raise (retry_not_found id)
  | some raw ↦ acquire_row now raw raw.status db
]

abbrev pub set_outcome : Text → RawEvent → RawEvent
set_outcome error r = record r { status = Status.pending; last_error = some (take 2000 error) }

-- phase 3
unfoldable pub record_outcome : Uuid → Text → Tx (Unit {0})
record_outcome id error db = elim (get_raw id db) [
  | none ↦ ok (tt, db)
  | some row ↦ do
    ensure (fits 2048 (take 2000 error)) data_error
    ok (tt, update_raw id (set_outcome error) db)
]

-- phase 4
unfoldable pub read_final : Uuid → Tx RawEvent
read_final id db = elim (get_raw id db) [
  | none ↦ raise (retry_not_found id)
  | some row ↦ ok (row, db)
]

module _ (w : World) where
  -- the transaction of phase 2
  unfoldable pub persist_retried : Env → Uuid → NormalizedEvent → Tx (Unit {0})
  persist_retried env id result db = elim (get_raw id db) [
    | none ↦ raise (retry_not_found id)
    | some row ↦ persist_normalized w.settings w.model_dump env row result db
  ]

  -- phase 2
  unfoldable pub process : Env → Uuid → Result NormalizedEvent → Proc (Unit {0})
  unfolding persist_retried
  process env id classified db = elim classified [
    | raise e ↦ (raise e, db)
    | ok result ↦ session_scope (persist_retried env id result) db
  ]

  -- the handler of phase 2, which records the failure and raises it again
  unfoldable pub conclude : Uuid → Result (Unit {0}) → Proc RawEvent
  unfolding record_outcome read_final
  conclude id (ok _) db = session_scope (read_final id) db
  conclude id (raise e) db =
      let (r, db') = session_scope (record_outcome id (codes "manual retry: " ++ w.repr e)) db in
      (r >>= λ _. raise e, db')

  unfoldable pub retry_raw_event :
      Instant → Env → (Json → Result NormalizedEvent) → Uuid → Proc RawEvent
  unfolding acquire process conclude
  retry_raw_event now env classify id db =
      let (acquired, db₁) = session_scope (acquire now id) db in
      elim acquired [
        | raise e ↦ (raise e, db₁)
        | ok raw ↦
            let (processed, db₂) = process env id (classify raw.payload) db₁ in
            conclude id processed db₂
      ]
