-- ===== src/Services/Ingestion.antt =====
-- app/services/ingestion.py: every delivery is stored, as a primary or as a duplicate of one.
-- `now` is the database's clock in the transaction; the ids are what `gen_random_uuid()` returns
-- for the two INSERTs. The payload is stored as its JSONB column keeps it.
pub mod Dedupe
pub mod Redelivery
use glacis.Base.{
  ℕ, ◌≡◌, refl, Bool, true, false, not, ◌&&◌, Option, none, some, List, [], ◌∷◌, Text, any_row,
  if◌then◌else◌,
}
use glacis.Core.Json.{Json}
use glacis.Core.Models.{
  Uuid, Instant, Status, RawEvent, Db, fits, fits_optional, fits_jsonb, same_raw_id, is_primary_of,
  same_primary,
}
use glacis.Core.Errors.{Error, integrity_error, data_error, no_result_found, Result, ok, raise}
use glacis.Core.Session.{Tx, ◌>>=◌, ◌>>◌, ensure}
use glacis.Core.OrderBy.{OrderBy, select_first}
use glacis.Utils.Hashing.{Hashing, canonical_hash}

pub record IngestResult : Type 0 where
  pub raw_event_id : Uuid
  pub duplicate : Bool
  pub duplicate_of : Option Uuid

-- the row of `values(…)`, with the server's defaults
unfoldable pub new_raw : Uuid → Instant → Text → Json → Text → RawEvent
new_raw id now vendor_hint payload hash = record {
  id = id;
  vendor_hint = vendor_hint;
  payload = payload;
  received_at = now;
  hash_exact = hash;
  duplicate_of_id = none;
  status = Status.pending;
  attempts = 0;
  last_error = none;
  locked_at = none;
  processed_at = none;
}

abbrev pub raw_fits : RawEvent → Bool
raw_fits r =
    fits 64 r.vendor_hint
    && fits 64 r.hash_exact
    && fits_optional 2048 r.last_error
    && fits_jsonb r.payload

-- INSERT into `raw_events`
unfoldable pub insert_raw : RawEvent → Db → Result Db
insert_raw r db = do
  ensure (raw_fits r) data_error
  ensure (not (any_row (same_raw_id r) db.raw_events)) integrity_error
  ensure (not (any_row (same_primary r) db.raw_events)) integrity_error
  ok (record db { raw_events = r ∷ db.raw_events })

-- phase 1: ON CONFLICT DO NOTHING on the index of the primaries, RETURNING id
unfoldable pub insert_primary : RawEvent → Tx (Option Uuid)
insert_primary r db = do
  ensure (raw_fits r) data_error
  if any_row (is_primary_of r.vendor_hint r.hash_exact) db.raw_events
      then ok (none, db)
      else do db' ← insert_raw r db; ok (some r.id, db')

-- phase 3: the row that points at the surviving primary
unfoldable pub duplicate_row : Uuid → Instant → Text → Json → Text → Uuid → RawEvent
unfolding new_raw
duplicate_row id now vendor_hint payload hash parent_id =
    record (new_raw id now vendor_hint payload hash) {
      duplicate_of_id = some parent_id;
      status = Status.duplicate;
    }

module _ (hashing : Hashing) (oldest : OrderBy (λ (r : RawEvent). r.received_at)) where
  -- phases 2 and 3; `scalar_one` raises where there is no row
  unfoldable pub insert_duplicate : Uuid → Instant → Text → Json → Text → Tx IngestResult
  unfolding duplicate_row insert_raw
  insert_duplicate id now vendor_hint payload hash db =
      elim (select_first oldest (is_primary_of vendor_hint hash) db.raw_events) [
        | none ↦ raise no_result_found
        | some parent ↦ do
          db' ← insert_raw (duplicate_row id now vendor_hint payload hash parent.id) db
          ok (record { raw_event_id = id; duplicate = true; duplicate_of = some parent.id }, db')
      ]

  unfoldable pub insert_raw_event : Instant → Uuid → Uuid → Text → Json → Tx IngestResult
  unfolding canonical_hash new_raw insert_raw insert_primary insert_duplicate
  insert_raw_event now primary_id duplicate_id vendor_hint payload db = do
    hash ← canonical_hash hashing payload
    (inserted, db') ←
        insert_primary (new_raw primary_id now vendor_hint (hashing.jsonb payload) hash) db
    elim inserted [
      | some id ↦ ok (record { raw_event_id = id; duplicate = false; duplicate_of = none }, db')
      | none ↦ insert_duplicate duplicate_id now vendor_hint (hashing.jsonb payload) hash db'
    ]
