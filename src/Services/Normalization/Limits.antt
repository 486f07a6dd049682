-- ===== src/Services/Normalization/Limits.antt =====
-- The widths of the columns, against the schema of the events, which has no such limits.
use glacis.Base.{
  ◌≡◌, refl, ◌&&◌, false, Option, none, some, arith, Text, List, Bool-cases, inl, inr,
}
use glacis.Core.Json.{Json}
use glacis.Core.Events.{
  CanonicalState, EventPayload, NormalizedEvent, canonical_state, vendor_milestone, external_ref,
}
use glacis.Core.Models.{
  Uuid, Instant, RawEvent, Entity, EntityEvent, Tables, Db, fits, fits_optional, fits_jsonb,
}
use glacis.Core.Errors.{data_error, ok, raise}
use glacis.Core.Config.{Settings}
use glacis.Services.Normalization.{
  Env, EntityModel, ensure_utc, entity_model, upsert_entity, insert_event, persist_event, tables_of,
  as_unclassified, persist_actionable, persist_normalized,
}
use glacis.Services.Normalization.Total.{IsFresh, upsert_entity_total}

module _ (env : Env) where
  upsert_too_long :
      (vendor ref : Text) (attributes : Json) (rows : List Entity)
      → (fits 64 vendor && fits 128 ref && fits_jsonb attributes) ≡ false
      → upsert_entity env vendor ref attributes rows ≡ raise data_error
  unfolding upsert_entity
  upsert_too_long vendor ref attributes rows h = rw h refl

  insert_too_long :
      (e : EntityEvent) (rows : List EntityEvent)
      → (fits_optional 512 e.vendor_milestone && fits_jsonb e.attributes) ≡ false
      → insert_event e rows ≡ raise data_error
  unfolding insert_event
  insert_too_long e rows h = rw h refl

  after_upsert :
      (raw_event_id : Uuid) (vendor ref : Text) (state : CanonicalState) (event_at : Instant)
      (milestone : Option Text) (attributes : Json) (t : Tables) (id : Uuid) (rows : List Entity)
      → upsert_entity env vendor ref attributes t.entities ≡ ok (id, rows)
      → (fits_optional 512 milestone && fits_jsonb attributes) ≡ false
      → persist_event env raw_event_id vendor ref state event_at milestone attributes t
        ≡ raise data_error
  unfolding persist_event
  after_upsert raw_event_id vendor ref state event_at milestone attributes t id rows k long =
      let refused =
        insert_too_long
          (record {
            id = env.event_uuid;
            entity_id = id;
            raw_event_id = raw_event_id;
            canonical_state = state;
            event_at = event_at;
            vendor_milestone = milestone;
            attributes = attributes;
            created_at = env.db_now;
          })
          t.events long in
      rw (k, refused) refl

  stopped_upsert :
      (raw_event_id : Uuid) (vendor ref : Text) (state : CanonicalState) (event_at : Instant)
      (milestone : Option Text) (attributes : Json) (t : Tables)
      → upsert_entity env vendor ref attributes t.entities ≡ raise data_error
      → persist_event env raw_event_id vendor ref state event_at milestone attributes t
        ≡ raise data_error
  unfolding persist_event
  stopped_upsert raw_event_id vendor ref state event_at milestone attributes t k = rw k refl

  persist_event_too_long :
      (raw_event_id : Uuid) (vendor ref : Text) (state : CanonicalState) (event_at : Instant)
      (milestone : Option Text) (attributes : Json) (t : Tables)
      → (fits 64 vendor && (fits 128 ref && (fits_optional 512 milestone && fits_jsonb attributes)))
        ≡ false
      → IsFresh env t
      → persist_event env raw_event_id vendor ref state event_at milestone attributes t
        ≡ raise data_error
  persist_event_too_long raw_event_id vendor ref state event_at milestone attributes t h fresh =
      elim (Bool-cases (fits 64 vendor && fits 128 ref && fits_jsonb attributes)) [
        | inr long ↦
            stopped_upsert raw_event_id vendor ref state event_at milestone attributes t
              (upsert_too_long vendor ref attributes t.entities long)
        | inl short ↦
            let (id, rows, k) =
              upsert_entity_total env vendor ref attributes t.entities (ground arith) (ground arith)
                (ground arith) fresh.entity in
            after_upsert raw_event_id vendor ref state event_at milestone attributes t id rows k
              (ground arith)
      ]

module _ (settings : Settings) (model_dump : EventPayload → Json) (env : Env) (raw_event : RawEvent)
    (event : NormalizedEvent) where
  -- An event of a shipment or an invoice whose reference is longer than 128 characters, whose
  -- milestone is longer than 512 or whose dump has U+0000, or whose row's vendor does not fit its
  -- column, is never persisted: with fresh ids and a time in range, the transaction raises.
  pub persist_normalized-too_long :
      (model : EntityModel) (ref : Text) (event_at : Instant) (db : Db)
      → as_unclassified event.payload ≡ none
      → entity_model event.payload ≡ some model
      → external_ref event.payload ≡ some ref
      → ensure_utc event.event_at ≡ ok event_at
      → (fits 64 raw_event.vendor_hint
          && (fits 128 ref
              && (fits_optional 512 (vendor_milestone event.payload)
                  && fits_jsonb (model_dump event.payload))))
        ≡ false
      → IsFresh env (tables_of model db)
      → persist_normalized settings model_dump env raw_event event db ≡ raise data_error
  unfolding persist_normalized persist_actionable
  persist_normalized-too_long model ref event_at db actionable kind key time long fresh = ground (
    arith,
    persist_event_too_long env raw_event.id raw_event.vendor_hint ref
        (canonical_state event.payload) event_at (vendor_milestone event.payload)
        (model_dump event.payload) (tables_of model db) long fresh,
  )
