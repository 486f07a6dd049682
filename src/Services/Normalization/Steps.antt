-- ===== src/Services/Normalization/Steps.antt =====
-- What `persist_event` did when it returns, statement by statement, and the invariant of the tables.
use glacis.Base.{
  ◌≡◌, refl, ◌∙◌, inl, inr, true, false, Option, List, [], ◌∷◌, arith, Text, All, any_row,
  any_row-update, IsUnique, IsUnique-update, Bool-cases,
}
use glacis.Core.Json.{Json}
use glacis.Core.Events.{CanonicalState}
use glacis.Core.Models.{
  Uuid, Instant, Entity, EntityEvent, Tables, same_entity_id, same_vendor_ref, same_event_id,
  same_raw_event,
}
use glacis.Core.Errors.{Result, ok, raise}
use glacis.Core.Session.{◌>>=◌}
use glacis.Services.Normalization.{
  Env, upsert_entity, insert_event, overtakes, set_state, update_state, persist_event,
}
use glacis.Services.Normalization.Ledger.{
  entity_is, IsLedger, Upserted, upsert-Upserted, Upserted-entity, Upserted-ids,
  Upserted-vendor_refs, Upserted-keeps,
}

-- the event was recorded before, or it is a new row
pub data Recorded (e : EntityEvent) (rows rows' : List EntityEvent) : Type 0 where
  known : any_row (same_raw_event e) rows ≡ true → rows' ≡ rows → Recorded e rows rows'
  added :
      any_row (same_raw_event e) rows ≡ false
      → any_row (same_event_id e) rows ≡ false
      → rows' ≡ e ∷ rows
      → Recorded e rows rows'

pub insert_event-Recorded :
    (e : EntityEvent) (rows rows' : List EntityEvent)
    → insert_event e rows ≡ ok rows'
    → Recorded e rows rows'
unfolding insert_event
insert_event-Recorded e rows rows' h = elim (Bool-cases (any_row (same_raw_event e) rows)) [
  | inl old ↦ known old (ground arith)
  | inr new ↦ added new (ground arith) (ground arith)
]

module _ (env : Env) (raw_event_id : Uuid) (vendor ref : Text) (state : CanonicalState)
    (event_at : Instant) (milestone : Option Text) (attributes : Json) where
  unfoldable pub event_row : Uuid → EntityEvent
  event_row entity_id = record {
    id = env.event_uuid;
    entity_id = entity_id;
    raw_event_id = raw_event_id;
    canonical_state = state;
    event_at = event_at;
    vendor_milestone = milestone;
    attributes = attributes;
    created_at = env.db_now;
  }

  -- the three statements, one after the other
  pub record Persisted (t t' : Tables) : Type 0 where
    pub entity_id : Uuid
    pub entities : List Entity
    pub upserted : Upserted env vendor ref attributes t.entities entity_id entities
    pub recorded : Recorded (event_row entity_id) t.events t'.events
    pub updated : t'.entities ≡ update_state env entity_id state event_at attributes entities

  then_insert :
      (entity_id : Uuid) (entities : List Entity) (t t' : Tables)
      → Upserted env vendor ref attributes t.entities entity_id entities
      → (r : Result (List EntityEvent)) → insert_event (event_row entity_id) t.events ≡ r
      → (do
        events ← r
        ok (record {
          entities = update_state env entity_id state event_at attributes entities;
          events = events;
        }))
        ≡ ok t'
      → Persisted t t'
  then_insert id entities t t' u (raise e) f h = cc
  then_insert id entities t t' u (ok events) f h = record {
    entity_id = id;
    entities = entities;
    upserted = u;
    recorded = insert_event-Recorded (event_row id) t.events t'.events (f ∙ ground arith);
    updated = ground arith;
  }

  then_upsert :
      (t t' : Tables) (r : Result (Uuid × List Entity))
      → upsert_entity env vendor ref attributes t.entities ≡ r
      → (do
        (entity_id, entities) ← r
        events ← insert_event (event_row entity_id) t.events
        ok (record {
          entities = update_state env entity_id state event_at attributes entities;
          events = events;
        }))
        ≡ ok t'
      → Persisted t t'
  then_upsert t t' (raise e) f h = cc
  then_upsert t t' (ok (id, entities)) f h =
      then_insert id entities t t'
        (upsert-Upserted env vendor ref attributes t.entities entities id f) _ refl h

  pub persist_event-Persisted :
      (t t' : Tables)
      → persist_event env raw_event_id vendor ref state event_at milestone attributes t ≡ ok t'
      → Persisted t t'
  unfolding persist_event event_row
  persist_event-Persisted t t' h = then_upsert t t' _ refl h

  update_state-ids :
      (id : Uuid) (rows : List Entity)
      → IsUnique same_entity_id rows
      → IsUnique same_entity_id (update_state env id state event_at attributes rows)
  unfolding update_state
  update_state-ids id rows u =
      IsUnique-update (overtakes id event_at) (set_state env state event_at attributes)
        same_entity_id rows (λ x y. refl) (λ x y. refl) u

  update_state-vendor_refs :
      (id : Uuid) (rows : List Entity)
      → IsUnique same_vendor_ref rows
      → IsUnique same_vendor_ref (update_state env id state event_at attributes rows)
  unfolding update_state
  update_state-vendor_refs id rows u =
      IsUnique-update (overtakes id event_at) (set_state env state event_at attributes)
        same_vendor_ref rows (λ x y. refl) (λ x y. refl) u

  update_state-keeps :
      (id i : Uuid) (rows : List Entity)
      → any_row (entity_is i) rows ≡ true
      → any_row (entity_is i) (update_state env id state event_at attributes rows) ≡ true
  unfolding update_state
  update_state-keeps id i rows h =
      any_row-update (overtakes id event_at) (set_state env state event_at attributes) (entity_is i)
        rows (λ x. refl)
      ∙ h

  abbrev HasOwner : List Entity → EntityEvent → Type 0
  HasOwner entities e = any_row (entity_is e.entity_id) entities ≡ true

  owners-kept :
      (rows rows' : List Entity) (events : List EntityEvent)
      → ((i : Uuid) → any_row (entity_is i) rows ≡ true → any_row (entity_is i) rows' ≡ true)
      → All (HasOwner rows) events
      → All (HasOwner rows') events
  owners-kept rows rows' [] keep h = tt
  owners-kept rows rows' (e ∷ events) keep h =
      (keep e.entity_id h.0, owners-kept rows rows' events keep h.1)

  Recorded-owners :
      (id : Uuid) (entities : List Entity) (events events' : List EntityEvent)
      → Recorded (event_row id) events events'
      → any_row (entity_is id) entities ≡ true
      → All (HasOwner entities) events
      → All (HasOwner entities) events'
  unfolding event_row
  Recorded-owners id entities events events' (known old e) own h = rw e h
  Recorded-owners id entities events events' (added new fresh e) own h = rw e (own, h)

  Recorded-ids :
      (id : Uuid) {events events' : List EntityEvent}
      → Recorded (event_row id) events events'
      → IsUnique same_event_id events
      → IsUnique same_event_id events'
  Recorded-ids id (known old e) u = rw e u
  Recorded-ids id (added new fresh e) u = rw e (fresh, u)

  Recorded-raw_event_ids :
      (id : Uuid) {events events' : List EntityEvent}
      → Recorded (event_row id) events events'
      → IsUnique same_raw_event events
      → IsUnique same_raw_event events'
  Recorded-raw_event_ids id (known old e) u = rw e u
  Recorded-raw_event_ids id (added new fresh e) u = rw e (new, u)

  Persisted-keeps :
      {t t' : Tables} (p : Persisted t t') (i : Uuid)
      → any_row (entity_is i) t.entities ≡ true
      → any_row (entity_is i) t'.entities ≡ true
  Persisted-keeps p i h = rw p.updated (
      update_state-keeps p.entity_id i p.entities
        (Upserted-keeps env vendor ref attributes i p.upserted h))

  pub Persisted-IsLedger : {t t' : Tables} → Persisted t t' → IsLedger t → IsLedger t'
  Persisted-IsLedger {t} {t'} p inv = record {
    entity_ids = rw p.updated (
        update_state-ids p.entity_id p.entities
          (Upserted-ids env vendor ref attributes p.upserted inv.entity_ids));
    vendor_refs = rw p.updated (
        update_state-vendor_refs p.entity_id p.entities
          (Upserted-vendor_refs env vendor ref attributes p.upserted inv.vendor_refs));
    event_ids = Recorded-ids p.entity_id p.recorded inv.event_ids;
    raw_event_ids = Recorded-raw_event_ids p.entity_id p.recorded inv.raw_event_ids;
    owners =
        Recorded-owners p.entity_id t'.entities t.events t'.events p.recorded
          (rw p.updated (
            update_state-keeps p.entity_id p.entity_id p.entities
              (Upserted-entity env vendor ref attributes p.upserted)))
          (owners-kept t.entities t'.entities t.events (Persisted-keeps p) inv.owners);
  }

  -- Persisting an event keeps the invariant of the tables: one entity for a vendor and an external
  -- reference, one event for a raw event, distinct ids, and no event without its entity.
  pub persist_event-IsLedger :
      (t t' : Tables)
      → IsLedger t
      → persist_event env raw_event_id vendor ref state event_at milestone attributes t ≡ ok t'
      → IsLedger t'
  persist_event-IsLedger t t' inv h = Persisted-IsLedger (persist_event-Persisted t t' h) inv
