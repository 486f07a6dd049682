-- ===== src/Tests/IngestTests.antt =====
-- Deliveries: the first of a payload, and its repetition.
use glacis.Base.{◌≡◌, refl, true, false, none, some, arith, text_eq}
use glacis.Core.Models.{no_nul, fits_jsonb, RawEvent, Db, empty_db}
use glacis.Core.Errors.{ok}
use glacis.Core.Inbox.{IsInbox}
use glacis.Core.OrderBy.{select_first}
use glacis.Utils.Hashing.{digest_of, canonical_hash}
use glacis.Services.Ingestion.{IngestResult, new_raw, duplicate_row, insert_raw_event}
use glacis.Services.Ingestion.Dedupe.{add_raw, insert_raw_event_total}
use glacis.Services.Ingestion.Redelivery.{Duplicate, redelivery, canonical}
use glacis.Tests.Fixtures.{hashing, oldest, vendor, body}

program : Unit {0}
unfolding insert_raw_event select_first canonical_hash digest_of text_eq fits_jsonb no_nul
program = tt

abbrev pub first_row : RawEvent
first_row = new_raw 1 10 vendor body (digest_of hashing body)

abbrev pub first_db : Db
first_db = add_raw first_row empty_db

abbrev pub first_result : IngestResult
first_result = record { raw_event_id = 1; duplicate = false; duplicate_of = none }

pub first_delivery :
    insert_raw_event hashing oldest 10 1 2 vendor body empty_db ≡ ok (first_result, first_db)
unfolding program
first_delivery = refl

abbrev second_db : Db
second_db = add_raw (duplicate_row 4 20 vendor body (digest_of hashing body) 1) first_db

abbrev second_result : IngestResult
second_result = record { raw_event_id = 4; duplicate = true; duplicate_of = some 1 }

second_delivery :
    insert_raw_event hashing oldest 20 3 4 vendor body first_db ≡ ok (second_result, second_db)
unfolding program
second_delivery = refl

empty-IsInbox : IsInbox empty_db.raw_events
empty-IsInbox = ground arith

pub first_db-IsInbox : IsInbox first_db.raw_events
unfolding new_raw
first_db-IsInbox = ground arith

insert_raw_event_total_example :
    (r : IngestResult) × (db : Db) × (insert_raw_event hashing oldest 20 3 4 vendor body first_db
      ≡ ok (r, db))
unfolding program new_raw
insert_raw_event_total_example =
    insert_raw_event_total hashing oldest 20 3 4 vendor body first_db refl refl refl refl refl

redelivery_example :
    Duplicate hashing oldest vendor 20 4 body (canonical first_result) second_result second_db
redelivery_example =
    redelivery hashing oldest vendor 10 20 1 2 3 4 body body empty_db first_db second_db
      first_result second_result empty-IsInbox refl first_delivery second_delivery
