-- ===== src/Workers/IngestWorker/Unlocked.antt =====
-- `mark_failed` of app/workers/ingest_worker.py in two parts: it reads the row without a lock, and
-- writes it when the transaction commits. SQLAlchemy writes the columns whose value was changed.
use glacis.Base.{
  ℕ, ◌+◌, ◌≡◌, refl, Bool, true, false, Option, none, some, arith, Text, take, text_eq,
  text_eq_sound, ◌==◌, ==_sound, leb, if◌then◌else◌, IsUnique, Bool-cases, inl, inr, Option-cases,
  first_row-Member,
}
use glacis.Core.Models.{
  Uuid, Status, RawEvent, Db, same_raw_id, get_raw, update_raw, max_integer, fits,
}
use glacis.Core.Errors.{data_error, ok}
use glacis.Core.Session.{Tx, ensure, ◌>>◌}
use glacis.Core.Lookup.{raw_is, update_raw-eq}
use glacis.Workers.IngestWorker.{set_failed, mark_failed}

abbrev optional_eq {ℓ} : {A : Type ℓ} → (A → A → Bool) → Option A → Option A → Bool
optional_eq eq none none = true
optional_eq eq (some a) (some b) = eq a b
optional_eq eq _ _ = false

abbrev status_eq : Status → Status → Bool
status_eq Status.pending Status.pending = true
status_eq Status.processing Status.processing = true
status_eq Status.processed Status.processed = true
status_eq Status.failed Status.failed = true
status_eq Status.duplicate Status.duplicate = true
status_eq _ _ = false

-- the column after the UPDATE: what it was when the row was read, what it is set to, and what it is
abbrev flushed {ℓ} : {A : Type ℓ} → (A → A → Bool) → A → A → A → A
flushed eq read new stored = if eq read new then stored else new

-- `UPDATE raw_events SET … WHERE id = :id` of the columns that `mark_failed` assigns
abbrev pub flush_failed : RawEvent → RawEvent → RawEvent → RawEvent
flush_failed read new stored = record stored {
  attempts = flushed ◌==◌ read.attempts new.attempts stored.attempts;
  last_error = flushed (optional_eq text_eq) read.last_error new.last_error stored.last_error;
  locked_at = flushed (optional_eq ◌==◌) read.locked_at new.locked_at stored.locked_at;
  status = flushed status_eq read.status new.status stored.status;
}

-- The second part, for the row as it was read. No row is ever deleted, so the UPDATE finds it.
unfoldable pub write_failed : RawEvent → Text → ℕ → Tx (Unit {0})
write_failed row error max_attempts db = do
  ensure (leb (row.attempts + 1) max_integer) data_error
  ensure (fits 2048 (take 2000 error)) data_error
  let new = set_failed (row.attempts + 1) error max_attempts row
  ok (tt, update_raw row.id (flush_failed row new) db)

-- both parts, with nothing in between
unfoldable pub read_and_write : Uuid → Text → ℕ → Tx (Unit {0})
unfolding write_failed
read_and_write id error max_attempts db = elim (get_raw id db) [
  | none ↦ ok (tt, db)
  | some row ↦ write_failed row error max_attempts db
]

optional_eq_sound {ℓ} :
    {A : Type ℓ} (eq : A → A → Bool) (a b : Option A)
    → ((x y : A) → eq x y ≡ true → x ≡ y)
    → optional_eq eq a b ≡ true
    → a ≡ b
optional_eq_sound eq none none sound h = refl
optional_eq_sound eq none (some b) sound h = cc
optional_eq_sound eq (some a) none sound h = cc
optional_eq_sound eq (some a) (some b) sound h = rw (sound a b h) refl

status_eq_sound : (a b : Status) → status_eq a b ≡ true → a ≡ b
status_eq_sound Status.pending b h = ground arith
status_eq_sound Status.processing b h = ground arith
status_eq_sound Status.processed b h = ground arith
status_eq_sound Status.failed b h = ground arith
status_eq_sound Status.duplicate b h = ground arith

-- a column that nothing else has changed is what it was set to
flushed_self {ℓ} :
    {A : Type ℓ} (eq : A → A → Bool) (read new : A)
    → ((x y : A) → eq x y ≡ true → x ≡ y)
    → flushed eq read new read ≡ new
flushed_self eq read new sound = elim (Bool-cases (eq read new)) [
  | inl same ↦ rw same (sound read new same)
  | inr changed ↦ rw changed refl
]

flush_failed_self :
    (read new : RawEvent)
    → flush_failed read new read ≡ record read {
      attempts = new.attempts;
      last_error = new.last_error;
      locked_at = new.locked_at;
      status = new.status;
    }
flush_failed_self read new = λ i. record read {
  attempts = flushed_self ◌==◌ read.attempts new.attempts ==_sound i;
  last_error =
      flushed_self (optional_eq text_eq) read.last_error new.last_error
        (λ a b. optional_eq_sound text_eq a b text_eq_sound) i;
  locked_at =
      flushed_self (optional_eq ◌==◌) read.locked_at new.locked_at
        (λ a b. optional_eq_sound ◌==◌ a b ==_sound) i;
  status = flushed_self status_eq read.status new.status status_eq_sound i;
}

-- With nothing in between, the two parts are the transaction `mark_failed`.
pub read_and_write-mark_failed :
    (id : Uuid) (error : Text) (n : ℕ) (db : Db)
    → IsUnique same_raw_id db.raw_events
    → read_and_write id error n db ≡ mark_failed id error n db
unfolding read_and_write write_failed mark_failed
read_and_write-mark_failed id error n db u = elim (Option-cases (get_raw id db)) [
  | inl missing ↦ rw (missing, read_and_write, mark_failed) refl
  | inr (row, found) ↦
      let own : id ≡ row.id =
        ==_sound id row.id (first_row-Member (raw_is id) db.raw_events row found).1 in
      let new = set_failed (row.attempts + 1) error n in
      let same : update_raw row.id (flush_failed row (new row)) db ≡ update_raw id new db =
        rw (← own) (
          update_raw-eq id (flush_failed row (new row)) new row db u found
            (flush_failed_self row (new row))) in
      ground (arith, found, same)
]

-- what a write that commits has done
pub write_failed_inv :
    (row : RawEvent) (error : Text) (n : ℕ) (db db' : Db)
    → write_failed row error n db ≡ ok (tt, db')
    → db' ≡ update_raw row.id (flush_failed row (set_failed (row.attempts + 1) error n row)) db
unfolding write_failed
write_failed_inv row error n db db' e = ground arith
