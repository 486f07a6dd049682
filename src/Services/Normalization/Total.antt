-- ===== src/Services/Normalization/Total.antt =====
-- When the transaction of an event commits.
use glacis.Base.{
  ◌≡◌, refl, true, false, Option, none, some, arith, Text, first_row, any_row, update_where, List,
  Bool-cases, Option-cases, inl, inr, ◌==◌, ◌∷◌,
}
use glacis.Core.Json.{Json}
use glacis.Core.Events.{
  CanonicalState, EventPayload, NormalizedEvent, canonical_state, vendor_milestone, external_ref,
}
use glacis.Core.Models.{
  Uuid, Instant, RawEvent, Entity, EntityEvent, Tables, Db, update_raw, fits, fits_optional,
  fits_jsonb, has_ref, same_event_id, same_raw_event,
}
use glacis.Core.Errors.{ok}
use glacis.Core.Config.{Settings}
use glacis.Services.Normalization.{
  Env, EntityModel, ensure_utc, entity_model, upsert_entity, insert_event, update_state,
  persist_event, tables_of, set_tables, mark_processed, as_unclassified, persist_actionable,
  persist_normalized,
}
use glacis.Services.Normalization.Ledger.{new_entity, touch}

-- the ids of the two INSERTs are new
pub record IsFresh (env : Env) (t : Tables) : Type 0 where
  pub entity : any_row (λ (e : Entity). env.entity_uuid == e.id) t.entities ≡ false
  pub event : any_row (λ (e : EntityEvent). env.event_uuid == e.id) t.events ≡ false

module _ (env : Env) where
  pub upsert_entity_total :
      (vendor ref : Text) (attributes : Json) (rows : List Entity)
      → fits 64 vendor ≡ true
      → fits 128 ref ≡ true
      → fits_jsonb attributes ≡ true
      → any_row (λ (e : Entity). env.entity_uuid == e.id) rows ≡ false
      → (id : Uuid) × (rows' : List Entity) × (upsert_entity env vendor ref attributes rows
          ≡ ok (id, rows'))
  unfolding upsert_entity new_entity
  upsert_entity_total vendor ref attributes rows v r a fresh =
      elim (Option-cases (first_row (has_ref vendor ref) rows)) [
        | inl miss ↦ (
          env.entity_uuid,
          new_entity env vendor ref attributes ∷ rows,
          rw (v, r, a, miss, fresh) refl,
        )
        | inr (e, hit) ↦
            (e.id, update_where (has_ref vendor ref) (touch env) rows, rw (v, r, a, hit) refl)
      ]

  insert_event_total :
      (e : EntityEvent) (rows : List EntityEvent)
      → fits_optional 512 e.vendor_milestone ≡ true
      → fits_jsonb e.attributes ≡ true
      → any_row (same_event_id e) rows ≡ false
      → (rows' : List EntityEvent) × (insert_event e rows ≡ ok rows')
  unfolding insert_event
  insert_event_total e rows m a fresh = elim (Bool-cases (any_row (same_raw_event e) rows)) [
    | inl old ↦ (rows, rw (m, a, old) refl)
    | inr new ↦ (e ∷ rows, rw (m, a, new, fresh) refl)
  ]

  persist_event_total :
      (raw_event_id : Uuid) (vendor ref : Text) (state : CanonicalState) (event_at : Instant)
      (milestone : Option Text) (attributes : Json) (t : Tables)
      → fits 64 vendor ≡ true
      → fits 128 ref ≡ true
      → fits_optional 512 milestone ≡ true
      → fits_jsonb attributes ≡ true
      → IsFresh env t
      → (t' : Tables) × (persist_event env raw_event_id vendor ref state event_at milestone
            attributes t
          ≡ ok t')
  unfolding persist_event
  persist_event_total raw_event_id vendor ref state event_at milestone attributes t v r m a fresh =
      let (id, entities, h) =
        upsert_entity_total vendor ref attributes t.entities v r a fresh.entity in
      let (events, k) =
        insert_event_total
          (record {
            id = env.event_uuid;
            entity_id = id;
            raw_event_id = raw_event_id;
            canonical_state = state;
            event_at = event_at;
            vendor_milestone = milestone;
            attributes = attributes;
            created_at = env.db_now;
          })
          t.events m a fresh.event in
      (
        record {
          entities = update_state env id state event_at attributes entities;
          events = events;
        },
        rw (h, k) refl,
      )

module _ (settings : Settings) (model_dump : EventPayload → Json) (env : Env) (raw_event : RawEvent)
    (event : NormalizedEvent) where
  -- The transaction of an event of a shipment or an invoice commits if the event's time is in range,
  -- its reference and milestone and the row's vendor fit their columns, its dump has no U+0000, and the
  -- new ids are fresh.
  pub persist_normalized_total :
      (model : EntityModel) (ref : Text) (event_at : Instant) (db : Db)
      → as_unclassified event.payload ≡ none
      → entity_model event.payload ≡ some model
      → external_ref event.payload ≡ some ref
      → ensure_utc event.event_at ≡ ok event_at
      → fits 64 raw_event.vendor_hint ≡ true
      → fits 128 ref ≡ true
      → fits_optional 512 (vendor_milestone event.payload) ≡ true
      → fits_jsonb (model_dump event.payload) ≡ true
      → IsFresh env (tables_of model db)
      → (db' : Db) × (persist_normalized settings model_dump env raw_event event db ≡ ok (tt, db'))
  unfolding persist_normalized persist_actionable
  persist_normalized_total model ref event_at db actionable kind key time v r m a fresh =
      let (t', h) =
        persist_event_total env raw_event.id raw_event.vendor_hint ref
          (canonical_state event.payload) event_at (vendor_milestone event.payload)
          (model_dump event.payload) (tables_of model db) v r m a fresh in
      (
        update_raw raw_event.id (mark_processed env.now none) (set_tables model t' db),
        ground (arith, h),
      )
