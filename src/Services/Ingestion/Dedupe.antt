-- ===== src/Services/Ingestion/Dedupe.antt =====
-- Deduplication by the content hash: what a delivery does, by whether its hash was seen before.
use glacis.Base.{
  ◌≡◌, refl, inl, inr, Bool, true, false, none, some, List, [], ◌∷◌, arith, Text, ◌==◌, Member,
  any_row, any_row-of_Member, Bool-cases,
}
use glacis.Core.Json.{Json}
use glacis.Core.Models.{
  Uuid, Instant, RawEvent, Db, fits, fits_jsonb, same_raw_id, same_primary, is_primary_of,
}
use glacis.Core.Errors.{ok, raise, data_error, encode_error}
use glacis.Core.OrderBy.{OrderBy, select_first-some}
use glacis.Core.Inbox.{IsInbox, IsLinked, insert-IsInbox, is_parent_of}
use glacis.Utils.Hashing.{Hashing, digest_of, length-digest_of, no_nul-digest_of}
use glacis.Services.Ingestion.{
  IngestResult, new_raw, duplicate_row, insert_raw, raw_fits, insert_raw_event,
}

abbrev pub add_raw : RawEvent → Db → Db
add_raw r db = record db { raw_events = r ∷ db.raw_events }

-- An accepted row clashes with none.
insert_raw_inv :
    (r : RawEvent) (db db' : Db)
    → insert_raw r db ≡ ok db'
    → (db' ≡ add_raw r db)
      × (any_row (same_raw_id r) db.raw_events ≡ false)
      × (any_row (same_primary r) db.raw_events ≡ false)
unfolding insert_raw
insert_raw_inv r db db' h = ground arith

insert_raw_ok :
    (r : RawEvent) (db : Db)
    → raw_fits r ≡ true
    → any_row (same_raw_id r) db.raw_events ≡ false
    → any_row (same_primary r) db.raw_events ≡ false
    → insert_raw r db ≡ ok (add_raw r db)
unfolding insert_raw
insert_raw_ok r db f u v = ground arith

any_row-never {ℓ} : {A : Type ℓ} (xs : List A) → any_row (λ x. false) xs ≡ false
any_row-never [] = refl
any_row-never (x ∷ xs) = any_row-never xs

module _ (hashing : Hashing) (oldest : OrderBy (λ (r : RawEvent). r.received_at)) where
  module _ (now : Instant) (primary_id duplicate_id : Uuid) (vendor_hint : Text)
      (payload : Json) where
    abbrev pub hash : Text
    hash = digest_of hashing payload

    abbrev pub primary : RawEvent
    primary = new_raw primary_id now vendor_hint (hashing.jsonb payload) hash

    abbrev pub duplicate_of : RawEvent → RawEvent
    duplicate_of parent =
        duplicate_row duplicate_id now vendor_hint (hashing.jsonb payload) hash parent.id

    -- is there a primary of this vendor and hash?
    abbrev pub seen : Db → Bool
    seen db = any_row (is_primary_of vendor_hint hash) db.raw_events

    -- a delivery that was accepted, as a primary or as a duplicate
    pub data Outcome (db : Db) (r : IngestResult) (db' : Db) : Type 0 where
      as_primary :
          seen db ≡ false
          → any_row (same_raw_id primary) db.raw_events ≡ false
          → r ≡ record { raw_event_id = primary_id; duplicate = false; duplicate_of = none }
          → db' ≡ add_raw primary db
          → Outcome db r db'
      as_duplicate :
          (parent : RawEvent)
          → Member parent db.raw_events
          → is_primary_of vendor_hint hash parent ≡ true
          → any_row (same_raw_id (duplicate_of parent)) db.raw_events ≡ false
          → r ≡ record {
            raw_event_id = duplicate_id;
            duplicate = true;
            duplicate_of = some parent.id;
          }
          → db' ≡ add_raw (duplicate_of parent) db
          → Outcome db r db'

    -- A delivery that returns has stored one row: a primary if the hash was new to the vendor, and
    -- else a duplicate of the primary.
    pub ingest-Outcome :
        (db db' : Db) (r : IngestResult)
        → insert_raw_event hashing oldest now primary_id duplicate_id vendor_hint payload db
          ≡ ok (r, db')
        → Outcome db r db'
    unfolding insert_raw_event
    ingest-Outcome db db' r h = elim (Bool-cases (seen db)) [
      | inl old ↦
          let (parent, found, m, t) = select_first-some oldest _ db.raw_events old in
          as_duplicate parent m t (ground arith) (ground arith) (ground arith)
      | inr new ↦ as_primary new (ground arith) (ground arith) (ground arith)
    ]

    primary-IsLinked : (rows : List RawEvent) → IsLinked rows primary
    unfolding new_raw
    primary-IsLinked rows = ground arith

    duplicate-IsLinked :
        (rows : List RawEvent) (parent : RawEvent)
        → Member parent rows
        → is_primary_of vendor_hint hash parent ≡ true
        → IsLinked rows (duplicate_of parent)
    unfolding duplicate_row
    duplicate-IsLinked rows parent m t = (
      refl,
      any_row-of_Member (is_parent_of parent.id (duplicate_of parent)) rows m (ground arith),
    )

    duplicate-clashes_with_none :
        (rows : List RawEvent) (parent : RawEvent)
        → any_row (same_primary (duplicate_of parent)) rows ≡ false
    unfolding duplicate_row
    duplicate-clashes_with_none rows parent = any_row-never rows

    primary-clash :
        (rows : List RawEvent)
        → any_row (is_primary_of vendor_hint hash) rows ≡ false
        → any_row (same_primary primary) rows ≡ false
    unfolding new_raw
    primary-clash rows h = h

    pub Outcome-IsInbox :
        {db db' : Db} {r : IngestResult}
        → Outcome db r db'
        → IsInbox db.raw_events
        → IsInbox db'.raw_events
    Outcome-IsInbox {db} (as_primary new fresh e f) inv = rw f (
        insert-IsInbox primary db.raw_events fresh (primary-clash db.raw_events new)
          (primary-IsLinked db.raw_events) inv)
    Outcome-IsInbox {db} (as_duplicate parent m t fresh e f) inv = rw f (
        insert-IsInbox (duplicate_of parent) db.raw_events fresh
          (duplicate-clashes_with_none db.raw_events parent)
          (duplicate-IsLinked db.raw_events parent m t) inv)

    -- A delivery keeps the invariant of `raw_events`: in particular a vendor and a hash never get
    -- two primaries.
    pub insert_raw_event-IsInbox :
        (db db' : Db) (r : IngestResult)
        → IsInbox db.raw_events
        → insert_raw_event hashing oldest now primary_id duplicate_id vendor_hint payload db
          ≡ ok (r, db')
        → IsInbox db'.raw_events
    insert_raw_event-IsInbox db db' r inv h = Outcome-IsInbox (ingest-Outcome db db' r h) inv

    -- A payload with U+0000 in a string or a key is refused by the INSERT.
    pub insert_raw_event-unstorable :
        (db : Db)
        → hashing.serializes payload ≡ true
        → fits_jsonb payload ≡ false
        → insert_raw_event hashing oldest now primary_id duplicate_id vendor_hint payload db
          ≡ raise data_error
    unfolding insert_raw_event
    insert_raw_event-unstorable db good nul =
        let stored = hashing.fits_jsonb-jsonb payload in ground arith

    -- A payload that cannot be serialized has no hash, and is not stored.
    pub insert_raw_event-unserializable :
        (db : Db)
        → hashing.serializes payload ≡ false
        → insert_raw_event hashing oldest now primary_id duplicate_id vendor_hint payload db
          ≡ raise encode_error
    unfolding insert_raw_event
    insert_raw_event-unserializable db deep = ground arith

    -- If the vendor's name fits its column, the payload can be serialized and has no U+0000, and the ids are new,
    -- a delivery always returns a result.
    pub insert_raw_event_total :
        (db : Db)
        → fits 64 vendor_hint ≡ true
        → hashing.serializes payload ≡ true
        → fits_jsonb payload ≡ true
        → any_row (λ r. primary_id == r.id) db.raw_events ≡ false
        → any_row (λ r. duplicate_id == r.id) db.raw_events ≡ false
        → (r : IngestResult) × (db' : Db) × (insert_raw_event hashing oldest now primary_id
              duplicate_id vendor_hint payload db
            ≡ ok (r, db'))
    unfolding insert_raw_event
    insert_raw_event_total db short good clean p d = elim (Bool-cases (seen db)) [
      | inl old ↦
          let (parent, found, m, t) = select_first-some oldest _ db.raw_events old in
          (
            record { raw_event_id = duplicate_id; duplicate = true; duplicate_of = some parent.id },
            add_raw (duplicate_of parent) db,
            ground (
              arith,
              length-digest_of hashing payload,
              hashing.fits_jsonb-jsonb payload,
              no_nul-digest_of hashing payload,
              duplicate-clashes_with_none db.raw_events parent,
            ),
          )
      | inr new ↦ (
        record { raw_event_id = primary_id; duplicate = false; duplicate_of = none },
        add_raw primary db,
        ground (
          arith,
          length-digest_of hashing payload,
          no_nul-digest_of hashing payload,
          hashing.fits_jsonb-jsonb payload,
        ),
      )
    ]
