-- ===== src/Core/Models.antt =====
-- app/core/models.py: the five tables. A row is a record; a nullable column is an `Option`; a
-- timestamp counts microseconds from 0001-01-01T00:00 UTC; an id is the number of its UUID.
-- Shipments and invoices have the same columns, and so have their events. The JSONB columns, `payload`
-- and `attributes`, hold what PostgreSQL gives back of the value that was written.
use glacis.Base.{
  zero, suc, any_row, arith, ◌≡◌, ℕ, Bool, true, false, not, ◌&&◌, Option, none, some, List, [],
  ◌∷◌, Text, text_eq, ◌==◌, is_none, first_row, update_where, length, leb,
}
use glacis.Core.Json.{Json, string, array, object, Items, nil, item, Members, end, member}
use glacis.Core.Events.{CanonicalState}

abbrev pub Uuid : Type 0
Uuid = ℕ

abbrev pub Instant : Type 0
Instant = ℕ

pub data Status : Type 0 where
  pending processing processed failed duplicate : Status

abbrev pub is_pending : Status → Bool
is_pending Status.pending = true
is_pending _ = false

abbrev pub is_processing : Status → Bool
is_processing Status.processing = true
is_processing _ = false

pub record RawEvent : Type 0 where
  pub id : Uuid
  pub vendor_hint : Text
  pub payload : Json
  pub received_at : Instant
  pub hash_exact : Text
  pub duplicate_of_id : Option Uuid
  pub status : Status
  pub attempts : ℕ
  pub last_error : Option Text
  pub locked_at : Option Instant
  pub processed_at : Option Instant

pub record Entity : Type 0 where
  pub id : Uuid
  pub vendor : Text
  pub external_ref : Text
  pub current_state : Option CanonicalState
  pub last_event_at : Option Instant
  pub attributes : Json
  pub created_at : Instant
  pub updated_at : Instant

pub record EntityEvent : Type 0 where
  pub id : Uuid
  pub entity_id : Uuid
  pub raw_event_id : Uuid
  pub canonical_state : CanonicalState
  pub event_at : Instant
  pub vendor_milestone : Option Text
  pub attributes : Json
  pub created_at : Instant

abbrev pub Shipment : Type 0
Shipment = Entity

abbrev pub ShipmentEvent : Type 0
ShipmentEvent = EntityEvent

abbrev pub Invoice : Type 0
Invoice = Entity

abbrev pub InvoiceEvent : Type 0
InvoiceEvent = EntityEvent

-- the tables of one kind of entity
pub record Tables : Type 0 where
  pub entities : List Entity
  pub events : List EntityEvent

pub record Db : Type 0 where
  pub raw_events : List RawEvent
  pub shipments : Tables
  pub invoices : Tables

-- PostgreSQL refuses U+0000 in a text, and so in the strings and the keys of a JSONB value.
unfoldable pub no_nul : Text → Bool
no_nul [] = true
no_nul (c ∷ t) = not (c == 0) && no_nul t

-- The columns `String(n)` and `Integer`: a longer text or a larger number is refused. A text that is
-- longer by spaces at its end only, which PostgreSQL cuts, is outside the model.
abbrev pub fits : ℕ → Text → Bool
fits n t = leb (length t) n && no_nul t

-- a text that PostgreSQL refuses for its length: it has another character than a space after `n`
unfoldable pub overflows : ℕ → Text → Bool
overflows zero t = any_row (λ c. not (c == 32)) t
overflows (suc n) [] = false
overflows (suc n) (c ∷ t) = overflows n t

pub overflows-long : (n : ℕ) (t : Text) → overflows n t ≡ true → leb (length t) n ≡ false
unfolding overflows
overflows-long zero [] h = cc
overflows-long zero (c ∷ t) h = ground arith
overflows-long (suc n) [] h = cc
overflows-long (suc n) (c ∷ t) h = ground (arith, overflows-long n t)

abbrev pub fits_optional : ℕ → Option Text → Bool
fits_optional n none = true
fits_optional n (some t) = fits n t

unfoldable mutual
  pub fits_jsonb : Json → Bool
  fits_jsonb (string t) = no_nul t
  fits_jsonb (array items) = fits_items items
  fits_jsonb (object members) = fits_members members
  fits_jsonb _ = true

  pub fits_items : Items → Bool
  fits_items nil = true
  fits_items (item j rest) = fits_jsonb j && fits_items rest

  pub fits_members : Members → Bool
  fits_members end = true
  fits_members (member key j rest) = no_nul key && (fits_jsonb j && fits_members rest)

abbrev pub max_integer : ℕ
max_integer = 2147483647

-- The primary keys and the unique constraints, each as the test that two rows clash.
abbrev pub same_raw_id : RawEvent → RawEvent → Bool
same_raw_id r s = r.id == s.id

-- `uq_raw_events_primary_per_hash`, on the rows `WHERE duplicate_of_id IS NULL`
abbrev pub is_primary_of : Text → Text → RawEvent → Bool
is_primary_of vendor hash r =
    is_none r.duplicate_of_id && (text_eq vendor r.vendor_hint && text_eq hash r.hash_exact)

abbrev pub same_primary : RawEvent → RawEvent → Bool
same_primary r s = is_none r.duplicate_of_id && is_primary_of r.vendor_hint r.hash_exact s

abbrev pub same_entity_id : Entity → Entity → Bool
same_entity_id e f = e.id == f.id

-- `uq_shipments_vendor_ref`, `uq_invoices_vendor_ref`
abbrev pub has_ref : Text → Text → Entity → Bool
has_ref vendor ref e = text_eq vendor e.vendor && text_eq ref e.external_ref

abbrev pub same_vendor_ref : Entity → Entity → Bool
same_vendor_ref e f = has_ref e.vendor e.external_ref f

abbrev pub same_event_id : EntityEvent → EntityEvent → Bool
same_event_id e f = e.id == f.id

abbrev pub same_raw_event : EntityEvent → EntityEvent → Bool
same_raw_event e f = e.raw_event_id == f.raw_event_id

-- `session.get(RawEvent, id)`
abbrev pub get_raw : Uuid → Db → Option RawEvent
get_raw id db = first_row (λ r. id == r.id) db.raw_events

-- the UPDATE of one row of `raw_events`
abbrev pub update_raw : Uuid → (RawEvent → RawEvent) → Db → Db
update_raw id f db = record db { raw_events = update_where (λ r. id == r.id) f db.raw_events }

abbrev pub empty_db : Db
empty_db = record {
  raw_events = [];
  shipments = record { entities = []; events = [] };
  invoices = record { entities = []; events = [] };
}
