-- ===== src/Services/Ingestion/Redelivery.antt =====
-- A payload that is delivered again.
use mathlib.Core.Bool.{false≢true}
use glacis.Base.{
  ==_refl, subst, ◌≡◌, refl, sym, ◌∙◌, true, none, some, List, arith, Text, text_eq_refl,
  text_eq_sound, Member, here, there, any_row-of_Member, IsUnique-eq,
}
use glacis.Core.Json.{Json}
use glacis.Core.Models.{Status, get_raw, Uuid, Instant, RawEvent, Db, same_primary, is_primary_of}
use glacis.Core.Errors.{ok}
use glacis.Core.OrderBy.{OrderBy}
use glacis.Core.Inbox.{IsInbox}
use glacis.Utils.Hashing.{Hashing, digest_of}
use glacis.Services.Ingestion.{IngestResult, new_raw, duplicate_row, insert_raw_event}
use glacis.Services.Ingestion.Dedupe.{
  Outcome, as_primary, as_duplicate, ingest-Outcome, insert_raw_event-IsInbox,
}

is_primary_of-same_primary :
    (v h : Text) (a b : RawEvent)
    → is_primary_of v h a ≡ true
    → is_primary_of v h b ≡ true
    → same_primary a b ≡ true
is_primary_of-same_primary v h a b p q =
    ground (arith, text_eq_sound v a.vendor_hint, text_eq_sound h a.hash_exact)

-- In an inbox there is one primary for a vendor and a hash.
pub primary_unique :
    (v h : Text) (rows : List RawEvent) {a b : RawEvent}
    → IsInbox rows
    → Member a rows
    → Member b rows
    → is_primary_of v h a ≡ true
    → is_primary_of v h b ≡ true
    → a ≡ b
primary_unique v h rows {a} {b} inv m n p q =
    IsUnique-eq same_primary rows inv.primaries m n (is_primary_of-same_primary v h a b p q)
      (is_primary_of-same_primary v h b a q p)

-- the row that the answer names as the one that is processed
abbrev pub canonical : IngestResult → Uuid
canonical r = elim r.duplicate_of [ none ↦ r.raw_event_id | some parent ↦ parent ]

module _ (hashing : Hashing) (oldest : OrderBy (λ (r : RawEvent). r.received_at)) where
  module _ (vendor_hint : Text) where
    -- the second answer, and the row that is stored for it
    pub record Duplicate (now : Instant) (j : Uuid) (payload : Json) (parent : Uuid)
        (r : IngestResult) (db : Db) : Type 0 where
      pub answer : r ≡ record { raw_event_id = j; duplicate = true; duplicate_of = some parent }
      pub row : RawEvent
      pub found : get_raw j db ≡ some row
      pub status : row.status ≡ Status.duplicate
      pub duplicate_of_id : row.duplicate_of_id ≡ some parent
      pub vendor : row.vendor_hint ≡ vendor_hint
      pub payload_kept : row.payload ≡ hashing.jsonb payload
      pub hash : row.hash_exact ≡ digest_of hashing payload
      pub received_at : row.received_at ≡ now

    Outcome-primary :
        {now : Instant} {i j : Uuid} {payload : Json} {db db' : Db} {r : IngestResult}
        → Outcome hashing oldest now i j vendor_hint payload db r db'
        → (q : RawEvent) × Member q db'.raw_events
          × (is_primary_of vendor_hint (digest_of hashing payload) q ≡ true)
          × (canonical r ≡ q.id)
    unfolding new_raw
    Outcome-primary {now} {i} {j} {payload} (as_primary new fresh e f) = (
      new_raw i now vendor_hint (hashing.jsonb payload) (digest_of hashing payload),
      rw f (here refl),
      ground (arith, text_eq_refl vendor_hint, text_eq_refl (digest_of hashing payload)),
      rw e refl,
    )
    Outcome-primary (as_duplicate parent m t fresh e f) = (parent, rw f (there m), t, rw e refl)

    Outcome-Duplicate :
        {now : Instant} {i j : Uuid} {payload : Json} {db db' : Db} {r : IngestResult}
        → (q : RawEvent) → IsInbox db.raw_events
        → Member q db.raw_events
        → is_primary_of vendor_hint (digest_of hashing payload) q ≡ true
        → Outcome hashing oldest now i j vendor_hint payload db r db'
        → Duplicate now j payload q.id r db'
    unfolding duplicate_row
    Outcome-Duplicate {payload} {db} q inv m t (as_primary new fresh e f) =
        absurd (false≢true (sym new ∙ any_row-of_Member _ db.raw_events m t))
    Outcome-Duplicate {now} {j} {payload} {db} {db'} {r} q inv m t
          (as_duplicate parent n u fresh e f) =
        let same = primary_unique vendor_hint _ db.raw_events inv n m u t in
        subst (λ (x : RawEvent). Duplicate now j payload x.id r db') same
          (record {
            answer = e;
            row =
                duplicate_row j now vendor_hint (hashing.jsonb payload) (digest_of hashing payload)
                  parent.id;
            found = rw (f, ==_refl j) refl;
            status = refl;
            duplicate_of_id = refl;
            vendor = refl;
            payload_kept = refl;
            hash = refl;
            received_at = refl;
          })

    -- While the primary of a vendor and a hash is in the table, every accepted delivery of a
    -- payload with this hash is stored as a duplicate of it.
    redelivery-of_primary :
        (now : Instant) (i j : Uuid) (payload : Json) (db db' : Db) (r : IngestResult)
        (q : RawEvent)
        → IsInbox db.raw_events
        → Member q db.raw_events
        → is_primary_of vendor_hint (digest_of hashing payload) q ≡ true
        → insert_raw_event hashing oldest now i j vendor_hint payload db ≡ ok (r, db')
        → Duplicate now j payload q.id r db'
    redelivery-of_primary now i j payload db db' r q inv m t h =
        Outcome-Duplicate q inv m t
          (ingest-Outcome hashing oldest now i j vendor_hint payload db db' r h)

    -- Two deliveries in a row of payloads with one hash, by one vendor: the second answer is
    -- `duplicate`, and names the row that the first answer names as its primary; and a row with the
    -- status `duplicate` is stored for it, which has the id of the answer, points at this primary, and
    -- has the vendor, the hash, the payload as its column keeps it, and the time of the delivery.
    pub redelivery :
        (now now' : Instant) (i j i' j' : Uuid) (payload payload' : Json) (db db₁ db₂ : Db)
        (r₁ r₂ : IngestResult)
        → IsInbox db.raw_events
        → digest_of hashing payload ≡ digest_of hashing payload'
        → insert_raw_event hashing oldest now i j vendor_hint payload db ≡ ok (r₁, db₁)
        → insert_raw_event hashing oldest now' i' j' vendor_hint payload' db₁ ≡ ok (r₂, db₂)
        → Duplicate now' j' payload' (canonical r₁) r₂ db₂
    redelivery now now' i j i' j' payload payload' db db₁ db₂ r₁ r₂ inv same h k =
        let (q, m, t, c) =
          Outcome-primary (ingest-Outcome hashing oldest now i j vendor_hint payload db db₁ r₁ h) in
        let inv₁ =
          insert_raw_event-IsInbox hashing oldest now i j vendor_hint payload db db₁ r₁ inv h in
        rw c (redelivery-of_primary now' i' j' payload' db₁ db₂ r₂ q inv₁ m (rw (← same) t) k)
