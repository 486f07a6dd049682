-- ===== src/Services/Normalization.antt =====
-- app/services/normalization.py: one classified event into the tables of its entity.
pub mod Ledger
pub mod Steps
pub mod Latest
pub mod History
pub mod Backed
pub mod Order
pub mod Outcome
pub mod Total
pub mod Limits
use glacis.Base.{
  ℕ, ◌+◌, ◌-◌, ◌*◌, ◌≡◌, refl, Bool, true, false, not, ◌&&◌, ◌||◌, Option, none, some, List, [],
  ◌∷◌, ◌++◌, Text, codes, take, ◌==◌, leb, ltb, is_none, any_row, first_row, update_where,
  if◌then◌else◌,
}
use glacis.Core.Json.{Json}
use glacis.Core.Events.{
  CanonicalState, DateTime, Offset, east, west, EventPayload, UnclassifiedPayload, NormalizedEvent,
  canonical_state, vendor_milestone, external_ref,
}
use glacis.Core.Models.{
  Uuid, Instant, Status, RawEvent, Entity, EntityEvent, Tables, Db, fits, fits_optional, fits_jsonb,
  has_ref, same_entity_id, same_event_id, same_raw_event, update_raw,
}
use glacis.Core.Errors.{
  Error, integrity_error, data_error, overflow_error, persist_error, Result, ok, raise,
}
use glacis.Core.Session.{Tx, ◌>>=◌, ◌>>◌, ensure}
use glacis.Core.Config.{Settings}

-- the last microsecond of the year 9999, `datetime.max`
abbrev pub max_instant : Instant
max_instant = 315537897599999999

-- `dt.astimezone(UTC)` of an aware datetime raises OverflowError outside the years 1 to 9999.
unfoldable pub astimezone_utc : ℕ → Offset → Result Instant
astimezone_utc wall (east n) = do ensure (leb n wall) overflow_error; ok (wall - n)
astimezone_utc wall (west n) = do ensure (leb (wall + n) max_instant) overflow_error; ok (wall + n)

unfoldable pub ensure_utc : DateTime → Result Instant
unfolding astimezone_utc
ensure_utc dt = elim dt.tzinfo [ none ↦ ok dt.wall | some offset ↦ astimezone_utc dt.wall offset ]

-- `Shipment` and `ShipmentEvent`, or `Invoice` and `InvoiceEvent`
pub data EntityModel : Type 0 where
  shipments invoices : EntityModel

-- the `isinstance` tests; `none` where neither holds
unfoldable pub entity_model : EventPayload → Option EntityModel
entity_model (EventPayload.picked_up p) = some shipments
entity_model (EventPayload.in_transit p) = some shipments
entity_model (EventPayload.out_for_delivery p) = some shipments
entity_model (EventPayload.delivered p) = some shipments
entity_model (EventPayload.issued p) = some invoices
entity_model (EventPayload.paid p) = some invoices
entity_model (EventPayload.voided p) = some invoices
entity_model (EventPayload.refunded p) = some invoices
entity_model (EventPayload.unclassified p) = none

-- `isinstance(event.payload, UnclassifiedPayload)`
unfoldable pub as_unclassified : EventPayload → Option UnclassifiedPayload
as_unclassified (EventPayload.unclassified p) = some p
as_unclassified _ = none

-- What a run reads from outside: `now` is `datetime.now(tz=UTC)`, `db_now` the `now()` of the
-- database, and the ids are what `gen_random_uuid()` returns for the two INSERTs.
pub record Env : Type 0 where
  pub now : Instant
  pub db_now : Instant
  pub entity_uuid : Uuid
  pub event_uuid : Uuid

-- step 2: INSERT … ON CONFLICT (vendor, external_ref) DO UPDATE SET updated_at … RETURNING id
unfoldable pub upsert_entity : Env → Text → Text → Json → List Entity → Result (Uuid × List Entity)
upsert_entity env vendor ref attributes rows = do
  ensure (fits 64 vendor && fits 128 ref && fits_jsonb attributes) data_error
  elim (first_row (has_ref vendor ref) rows) [
    | some e ↦
        ok (e.id, update_where (has_ref vendor ref) (λ x. record x { updated_at = env.now }) rows)
    | none ↦ do
      ensure (not (any_row (λ e. env.entity_uuid == e.id) rows)) integrity_error
      ok (
        env.entity_uuid,
        record {
          id = env.entity_uuid;
          vendor = vendor;
          external_ref = ref;
          current_state = none;
          last_event_at = none;
          attributes = attributes;
          created_at = env.db_now;
          updated_at = env.db_now;
        }
            ∷ rows,
      )
  ]

-- step 3: INSERT … ON CONFLICT (raw_event_id) DO NOTHING
unfoldable pub insert_event : EntityEvent → List EntityEvent → Result (List EntityEvent)
insert_event e rows = do
  ensure (fits_optional 512 e.vendor_milestone && fits_jsonb e.attributes) data_error
  if any_row (same_raw_event e) rows
      then ok rows
      else do ensure (not (any_row (same_event_id e) rows)) integrity_error; ok (e ∷ rows)

-- `last_event_at IS NULL OR last_event_at < event_at`
unfoldable pub is_newer : Instant → Option Instant → Bool
is_newer event_at none = true
is_newer event_at (some last) = ltb last event_at

-- step 4: the UPDATE that never rolls back, its WHERE and its SET
abbrev pub overtakes : Uuid → Instant → Entity → Bool
overtakes entity_id event_at e = entity_id == e.id && is_newer event_at e.last_event_at

abbrev pub set_state : Env → CanonicalState → Instant → Json → Entity → Entity
set_state env state event_at attributes e = record e {
  current_state = some state;
  last_event_at = some event_at;
  attributes = attributes;
  updated_at = env.now;
}

unfoldable pub update_state :
    Env → Uuid → CanonicalState → Instant → Json → List Entity → List Entity
unfolding is_newer
update_state env entity_id state event_at attributes =
    update_where (overtakes entity_id event_at) (set_state env state event_at attributes)

-- steps 2 to 4, on the tables of the entity
unfoldable pub persist_event :
    Env
    → Uuid
    → Text
    → Text
    → CanonicalState
    → Instant
    → Option Text
    → Json
    → Tables
    → Result Tables
unfolding upsert_entity insert_event update_state
persist_event env raw_event_id vendor ref state event_at milestone attributes tables = do
  (entity_id, entities) ← upsert_entity env vendor ref attributes tables.entities
  events ←
      insert_event
        (record {
          id = env.event_uuid;
          entity_id = entity_id;
          raw_event_id = raw_event_id;
          canonical_state = state;
          event_at = event_at;
          vendor_milestone = milestone;
          attributes = attributes;
          created_at = env.db_now;
        })
        tables.events
  ok (record {
    entities = update_state env entity_id state event_at attributes entities;
    events = events;
  })

-- step 5, and the mark of an unclassified event: the columns that the flush writes
unfoldable pub mark_processed : Instant → Option Text → RawEvent → RawEvent
mark_processed now error r = record r {
  status = Status.processed;
  processed_at = some now;
  last_error = error;
}

-- f"dropped: unclassified payload ({reason})"[:2000]
unfoldable pub dropped_note : Text → Text
dropped_note reason = take 2000 (codes "dropped: unclassified payload (" ++ (reason ++ codes ")"))

-- the `last_error` of an unclassified event
unfoldable pub note_of : Settings → UnclassifiedPayload → Option Text
unfolding dropped_note
note_of settings p =
    if settings.worker_keep_unclassified_events then none else some (dropped_note p.reason)

abbrev pub tables_of : EntityModel → Db → Tables
tables_of shipments db = db.shipments
tables_of invoices db = db.invoices

abbrev pub set_tables : EntityModel → Tables → Db → Db
set_tables shipments t db = record db { shipments = t }
set_tables invoices t db = record db { invoices = t }

-- `external_ref` is NOT NULL
abbrev pub not_null {ℓ} : {A : Type ℓ} → Option A → Result A
not_null none = raise integrity_error
not_null (some a) = ok a

-- the model of an actionable payload
abbrev pub or_persist_error {ℓ} : {A : Type ℓ} → Option A → Result A
or_persist_error none = raise persist_error
or_persist_error (some a) = ok a

-- `model_dump` is pydantic's, of a payload
module _ (settings : Settings) (model_dump : EventPayload → Json) where
  unfoldable pub persist_actionable : Env → RawEvent → NormalizedEvent → Tx (Unit {0})
  unfolding ensure_utc entity_model persist_event mark_processed
  persist_actionable env raw_event event db = do
    event_at ← ensure_utc event.event_at
    let attributes = model_dump event.payload
    model ← or_persist_error (entity_model event.payload)
    ref ← not_null (external_ref event.payload)
    tables ←
        persist_event env raw_event.id raw_event.vendor_hint ref (canonical_state event.payload)
          event_at (vendor_milestone event.payload) attributes (tables_of model db)
    ok (tt, update_raw raw_event.id (mark_processed env.now none) (set_tables model tables db))

  unfoldable pub persist_normalized : Env → RawEvent → NormalizedEvent → Tx (Unit {0})
  unfolding persist_actionable mark_processed as_unclassified
  persist_normalized env raw_event event db = elim (as_unclassified event.payload) [
    | some p ↦ do
      ensure (fits_optional 2048 (note_of settings p)) data_error
      ok (tt, update_raw raw_event.id (mark_processed env.now (note_of settings p)) db)
    | none ↦ persist_actionable env raw_event event db
  ]
