-- ===== src/System/EndToEnd.antt =====
-- From a webhook to the history that the API reads: ingestion, a round of the worker, and a read.
use glacis.Base.{
  ◌≡◌, ◌∙◌, sym, ap, refl, inl, inr, false, none, some, List, [], ◌∷◌, arith, Text, text_eq_sound,
  ◌==◌, ==_refl, Member, here, there, any_row, any_row-of_Member, first_row, first_row-Member,
  IsUnique, IsUnique-eq, any_row-of_first, Option-cases,
}
use glacis.Core.Json.{Json}
use glacis.Core.Events.{
  EventPayload, NormalizedEvent, canonical_state, vendor_milestone, external_ref,
}
use glacis.Core.Models.{
  Uuid, Instant, RawEvent, Entity, EntityEvent, Tables, Db, has_ref, same_entity_id, update_raw,
}
use glacis.Core.Errors.{ok}
use glacis.Core.Config.{Settings}
use glacis.Core.OrderBy.{OrderBy}
use glacis.Services.Normalization.{
  Env, EntityModel, shipments, invoices, ensure_utc, entity_model, tables_of, set_tables,
  mark_processed, as_unclassified,
}
use glacis.Services.Normalization.Ledger.{IsLedger}
use glacis.Services.Normalization.Steps.{persist_event-IsLedger}
use glacis.Services.Normalization.History.{is_of_raw, History, again, once, persist_event-History}
use glacis.Services.Normalization.Outcome.{Committed, unclassified, stored}
use glacis.Api.Entities.{
  EntityOut, event_to_out, events_to_out, entity_to_out, get_entity, list_events, read_entity,
  list_events-IsHistory,
}
use glacis.Api.{respond}

tables_of-set_tables :
    (model : EntityModel) (t : Tables) (id : Uuid) (f : RawEvent → RawEvent) (db : Db)
    → tables_of model (update_raw id f (set_tables model t db)) ≡ t
tables_of-set_tables shipments t id f db = refl
tables_of-set_tables invoices t id f db = refl

events_to_out-Member :
    (e : EntityEvent) (rows : List EntityEvent)
    → Member e rows
    → Member (event_to_out e) (events_to_out rows)
unfolding events_to_out
events_to_out-Member e [] m = elim m [ ]
events_to_out-Member e (x ∷ rows) (here same) = here (ap event_to_out same)
events_to_out-Member e (x ∷ rows) (there m) = there (events_to_out-Member e rows m)

-- with distinct ids, the entity of an id is found by it
first_row-entity :
    (e : Entity) (rows : List Entity)
    → IsUnique same_entity_id rows
    → Member e rows
    → first_row (λ (x : Entity). e.id == x.id) rows ≡ some e
first_row-entity e rows u m = elim (Option-cases (first_row (λ (x : Entity). e.id == x.id) rows)) [
  | inl miss ↦
      let hit = any_row-of_Member (λ (x : Entity). e.id == x.id) rows m (==_refl e.id) in
      absurd (ground (arith, hit, any_row-of_first (λ (x : Entity). e.id == x.id) rows miss))
  | inr (x, hit) ↦
      let (n, same) = first_row-Member (λ (x : Entity). e.id == x.id) rows x hit in
      hit ∙ rw (IsUnique-eq same_entity_id rows u n m (ground arith) same) refl
]

module _ (by_event_at : OrderBy (λ (e : EntityEvent). e.event_at)) (model : EntityModel) where
  -- A read of the entity of this row answers with the vendor and the reference, and has the row
  -- among its events.
  pub record Readable (vendor ref : Text) (row : EntityEvent) (db : Db) : Type 0 where
    pub out : EntityOut
    pub answer : read_entity by_event_at model row.entity_id db ≡ respond out
    pub vendor_hint : out.vendor ≡ vendor
    pub external_ref : out.external_ref ≡ ref
    pub event : Member (event_to_out row) out.events

  recorded-Readable :
      (vendor ref : Text) (row : EntityEvent) (t : Tables) (e : Entity) (db : Db)
      → tables_of model db ≡ t
      → IsLedger t
      → first_row (has_ref vendor ref) t.entities ≡ some e
      → row.entity_id ≡ e.id
      → Member row t.events
      → Readable vendor ref row db
  unfolding entity_to_out read_entity list_events
  recorded-Readable vendor ref row t e db same ledger hit owner m =
      let (n, keys) = first_row-Member (has_ref vendor ref) t.entities e hit in
      let found : get_entity model row.entity_id db ≡ some e =
        rw (same, owner) (first_row-entity e t.entities ledger.entity_ids n) in
      let history = list_events-IsHistory by_event_at model row.entity_id db in
      record {
        out = entity_to_out model (list_events by_event_at model row.entity_id db) e;
        answer = rw (found, read_entity) refl;
        vendor_hint = sym (text_eq_sound vendor e.vendor (ground arith));
        external_ref = sym (text_eq_sound ref e.external_ref (ground arith));
        event =
            events_to_out-Member row (list_events by_event_at model row.entity_id db)
              (history.complete row (rw same m) refl);
      }

  -- The event of a raw event can be read: an event row of the raw event has its state, time,
  -- milestone and attributes, and is in the answer to a read of its entity.
  pub record Visible (model_dump : EventPayload → Json) (id : Uuid) (vendor : Text)
      (event : NormalizedEvent) (ref : Text) (event_at : Instant) (db : Db) : Type 0 where
    pub row : EntityEvent
    pub raw_event_id : row.raw_event_id ≡ id
    pub state : row.canonical_state ≡ canonical_state event.payload
    pub time : row.event_at ≡ event_at
    pub milestone : row.vendor_milestone ≡ vendor_milestone event.payload
    pub attributes : row.attributes ≡ model_dump event.payload
    pub read : Readable vendor ref row db

  module _ (model_dump : EventPayload → Json) (env : Env) (raw : RawEvent) (event : NormalizedEvent)
      (ref : Text) (event_at : Instant) where
    History-Visible :
        (t t' : Tables) (db : Db)
        → tables_of model db ≡ t'
        → IsLedger t'
        → any_row (is_of_raw raw.id) t.events ≡ false
        → History env raw.id raw.vendor_hint ref
            (canonical_state event.payload)
            event_at
            (vendor_milestone event.payload)
            (model_dump event.payload)
            t
            t'
        → Visible model_dump raw.id raw.vendor_hint event ref event_at db
    History-Visible t t' db same ledger fresh (again old e) = absurd (ground arith)
    History-Visible t t' db same ledger fresh (once e new found added) =
        let row : EntityEvent = record {
          id = env.event_uuid;
          entity_id = e.id;
          raw_event_id = raw.id;
          canonical_state = canonical_state event.payload;
          event_at = event_at;
          vendor_milestone = vendor_milestone event.payload;
          attributes = model_dump event.payload;
          created_at = env.db_now;
        } in
        record {
          row = row;
          raw_event_id = refl;
          state = refl;
          time = refl;
          milestone = refl;
          attributes = refl;
          read =
              recorded-Readable raw.vendor_hint ref row t' e db same ledger found refl
                (rw added (here refl));
        }

    pub stored-Visible :
        (settings : Settings) (db db' : Db)
        → as_unclassified event.payload ≡ none
        → entity_model event.payload ≡ some model
        → external_ref event.payload ≡ some ref
        → ensure_utc event.event_at ≡ ok event_at
        → IsLedger (tables_of model db)
        → any_row (is_of_raw raw.id) (tables_of model db).events ≡ false
        → Committed settings model_dump env raw event db db'
        → Visible model_dump raw.id raw.vendor_hint event ref event_at db'
    stored-Visible settings db db' actionable kind key at_time ledger fresh (unclassified p e f) =
        absurd (ground arith)
    stored-Visible settings db db' actionable kind key at_time ledger fresh
          (stored at m rf tables e k r h f) =
        let same_time : at ≡ event_at = cc in
        let same_model : m ≡ model = cc in
        let same_ref : rf ≡ ref = cc in
        let run = rw (same_time, same_model, same_ref) at h in
        let after = rw same_model at f in
        History-Visible (tables_of model db) tables db'
          (ap (tables_of model) after
            ∙ tables_of-set_tables model tables raw.id (mark_processed env.now none) db)
          (persist_event-IsLedger env raw.id raw.vendor_hint ref (canonical_state event.payload)
            event_at (vendor_milestone event.payload) (model_dump event.payload)
            (tables_of model db) tables ledger run)
          fresh
          (persist_event-History env raw.id raw.vendor_hint ref (canonical_state event.payload)
            event_at (vendor_milestone event.payload) (model_dump event.payload)
            (tables_of model db) tables run)
