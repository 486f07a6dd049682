-- ===== src/Api/Entities.antt =====
-- app/services/shipments.py, app/services/invoices.py and their routes: the read side. Both read
-- the same columns of their own tables.
use mathlib.Core.List.{Permᴰ}
use mathlib.Core.List.Permᴰ
use glacis.Base.{
  ◌≡◌, refl, sym, Bool, Option, none, some, List, [], ◌∷◌, Text, ◌==◌, ==_sound, ==_refl, All,
  All-of, Member, first_row, first_row-Member, rows_where, rows_where-Member, Member-rows_where,
  Member-perm,
}
use glacis.Core.Json.{Json}
use glacis.Core.Events.{CanonicalState, EntityType}
use glacis.Core.Models.{Uuid, Instant, Entity, EntityEvent, Db}
use glacis.Core.OrderBy.{OrderBy, IsSorted}
use glacis.Services.Normalization.{EntityModel, shipments, invoices, tables_of}
use glacis.Api.{entity_not_found, Response, respond, http_exception}

pub record EventOut : Type 0 where
  pub id : Uuid
  pub canonical_state : CanonicalState
  pub event_at : Instant
  pub vendor_milestone : Option Text
  pub attributes : Json

-- `ShipmentOut` and `InvoiceOut`
pub record EntityOut : Type 0 where
  pub id : Uuid
  pub entity_type : EntityType
  pub vendor : Text
  pub external_ref : Text
  pub current_state : Option CanonicalState
  pub last_event_at : Option Instant
  pub attributes : Json
  pub events : List EventOut

abbrev pub event_to_out : EntityEvent → EventOut
event_to_out e = record {
  id = e.id;
  canonical_state = e.canonical_state;
  event_at = e.event_at;
  vendor_milestone = e.vendor_milestone;
  attributes = e.attributes;
}

unfoldable pub events_to_out : List EntityEvent → List EventOut
events_to_out [] = []
events_to_out (e ∷ events) = event_to_out e ∷ events_to_out events

-- the events of the answer are those of the rows, in their order
pub data Shows : List EntityEvent → List EventOut → Type 0 where
  no_more : Shows [] []
  shown :
      {e : EntityEvent} {o : EventOut} {rows : List EntityEvent} {outs : List EventOut}
      → o.id ≡ e.id
      → o.canonical_state ≡ e.canonical_state
      → o.event_at ≡ e.event_at
      → o.vendor_milestone ≡ e.vendor_milestone
      → o.attributes ≡ e.attributes
      → Shows rows outs
      → Shows (e ∷ rows) (o ∷ outs)

events_to_out-Shows : (rows : List EntityEvent) → Shows rows (events_to_out rows)
unfolding events_to_out
events_to_out-Shows [] = no_more
events_to_out-Shows (e ∷ rows) = shown refl refl refl refl refl (events_to_out-Shows rows)

abbrev pub type_of : EntityModel → EntityType
type_of shipments = EntityType.shipment
type_of invoices = EntityType.invoice

abbrev pub ShipmentOut : Type 0
ShipmentOut = EntityOut

abbrev pub InvoiceOut : Type 0
InvoiceOut = EntityOut

-- the answer of a route
unfoldable pub entity_to_out : EntityModel → List EntityEvent → Entity → EntityOut
unfolding events_to_out
entity_to_out model events e = record {
  id = e.id;
  entity_type = type_of model;
  vendor = e.vendor;
  external_ref = e.external_ref;
  current_state = e.current_state;
  last_event_at = e.last_event_at;
  attributes = e.attributes;
  events = events_to_out events;
}

-- `session.get(Shipment, …)` or `session.get(Invoice, …)`
abbrev pub get_entity : EntityModel → Uuid → Db → Option Entity
get_entity model id db = first_row (λ (e : Entity). id == e.id) (tables_of model db).entities

abbrev pub belongs_to : Uuid → EntityEvent → Bool
belongs_to id e = id == e.entity_id

module _ (by_event_at : OrderBy (λ (e : EntityEvent). e.event_at)) where
  unfoldable pub list_events : EntityModel → Uuid → Db → List EntityEvent
  list_events model id db =
      by_event_at.order_by (rows_where (belongs_to id) (tables_of model db).events)

  -- `get_shipment` and `get_invoice` of the routes
  unfoldable pub read_entity : EntityModel → Uuid → Db → Response EntityOut
  unfolding list_events entity_to_out
  read_entity model id db = elim (get_entity model id db) [
    | none ↦ http_exception 404 (entity_not_found (type_of model))
    | some e ↦ respond (entity_to_out model (list_events model id db) e)
  ]

  unfoldable pub get_shipment : Uuid → Db → Response ShipmentOut
  unfolding read_entity
  get_shipment = read_entity shipments

  unfoldable pub get_invoice : Uuid → Db → Response InvoiceOut
  unfolding read_entity
  get_invoice = read_entity invoices

  abbrev pub list_shipment_events : Uuid → Db → List EntityEvent
  list_shipment_events = list_events shipments

  abbrev pub list_invoice_events : Uuid → Db → List EntityEvent
  list_invoice_events = list_events invoices

  -- the history of the entity `id`: its event rows, each as often as in the table, by time
  pub record IsHistory (model : EntityModel) (id : Uuid) (db : Db) (rows : List EntityEvent)
      : Type 0 where
    pub same_rows : Permᴰ rows (rows_where (belongs_to id) (tables_of model db).events)
    pub complete :
        (e : EntityEvent) → Member e (tables_of model db).events → e.entity_id ≡ id → Member e rows
    pub owned : All (λ (e : EntityEvent). e.entity_id ≡ id) rows
    pub chronological : IsSorted (λ (e : EntityEvent). e.event_at) rows

  pub list_events-IsHistory :
      (model : EntityModel) (id : Uuid) (db : Db) → IsHistory model id db (list_events model id db)
  unfolding list_events
  list_events-IsHistory model id db =
      let selected = rows_where (belongs_to id) (tables_of model db).events in
      record {
        same_rows = by_event_at.order_by-perm selected;
        complete = λ e m own.
            Member-perm (Permᴰ.symm (by_event_at.order_by-perm selected)) (
              Member-rows_where (belongs_to id) (tables_of model db).events m
                (rw own (==_refl id)));
        owned =
            All-of (λ (e : EntityEvent). e.entity_id ≡ id) (by_event_at.order_by selected)
              λ e m. sym (
                ==_sound id e.entity_id
                  (rows_where-Member (belongs_to id) (tables_of model db).events
                    (Member-perm (by_event_at.order_by-perm selected) m)).1);
        chronological = by_event_at.order_by-IsSorted selected;
      }

  -- A read of an entity that is in the table answers with every column of its row that the answer
  -- has, and its whole history in chronological order: every event row of the entity, and none of
  -- another, each with its id, state, time, milestone and attributes.
  pub read_entity_lem :
      (model : EntityModel) (id : Uuid) (db : Db) (e : Entity)
      → get_entity model id db ≡ some e
      → (rows : List EntityEvent) × (out : EntityOut) × (read_entity model id db ≡ respond out)
        × Shows rows out.events
        × IsHistory model id db rows
        × (out.id ≡ id)
        × (out.entity_type ≡ type_of model)
        × (out.vendor ≡ e.vendor)
        × (out.external_ref ≡ e.external_ref)
        × (out.current_state ≡ e.current_state)
        × (out.last_event_at ≡ e.last_event_at)
        × (out.attributes ≡ e.attributes)
  unfolding read_entity
  read_entity_lem model id db e found = (
    list_events model id db,
    entity_to_out model (list_events model id db) e,
    rw (found, read_entity) refl,
    events_to_out-Shows (list_events model id db),
    list_events-IsHistory model id db,
    sym (==_sound id e.id (first_row-Member _ (tables_of model db).entities e found).1),
    refl,
    refl,
    refl,
    refl,
    refl,
    refl,
  )
