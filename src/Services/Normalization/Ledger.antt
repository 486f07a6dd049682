-- ===== src/Services/Normalization/Ledger.antt =====
-- The invariant of the tables of a kind of entity: the primary keys, one entity for a vendor and
-- an external reference, one event for a raw event, and every event belongs to an entity.
use glacis.Base.{
  ◌≡◌, refl, ◌∙◌, inl, inr, Bool, true, false, none, some, List, ◌∷◌, arith, Text, ◌==◌, ==_refl,
  All, any_row, any_row-update, any_row-of_first, any_row-of_Member, first_row, first_row-Member,
  update_where, IsUnique, IsUnique-update, Option-cases,
}
use glacis.Core.Json.{Json}
use glacis.Core.Models.{
  Uuid, Entity, EntityEvent, Tables, has_ref, same_entity_id, same_vendor_ref, same_event_id,
  same_raw_event,
}
use glacis.Core.Errors.{ok}
use glacis.Services.Normalization.{Env, upsert_entity}

abbrev pub entity_is : Uuid → Entity → Bool
entity_is id e = id == e.id

pub record IsLedger (t : Tables) : Type 0 where
  pub entity_ids : IsUnique same_entity_id t.entities
  pub vendor_refs : IsUnique same_vendor_ref t.entities
  pub event_ids : IsUnique same_event_id t.events
  pub raw_event_ids : IsUnique same_raw_event t.events
  pub owners : All (λ (e : EntityEvent). any_row (entity_is e.entity_id) t.entities ≡ true) t.events

-- the row that an upsert inserts
unfoldable pub new_entity : Env → Text → Text → Json → Entity
new_entity env vendor ref attributes = record {
  id = env.entity_uuid;
  vendor = vendor;
  external_ref = ref;
  current_state = none;
  last_event_at = none;
  attributes = attributes;
  created_at = env.db_now;
  updated_at = env.db_now;
}

abbrev pub touch : Env → Entity → Entity
touch env e = record e { updated_at = env.now }

module _ (env : Env) (vendor ref : Text) (attributes : Json) where
  pub data Upserted (rows : List Entity) (id : Uuid) (rows' : List Entity) : Type 0 where
    updated :
        (e : Entity)
        → first_row (has_ref vendor ref) rows ≡ some e
        → id ≡ e.id
        → rows' ≡ update_where (has_ref vendor ref) (touch env) rows
        → Upserted rows id rows'
    inserted :
        first_row (has_ref vendor ref) rows ≡ none
        → any_row (entity_is env.entity_uuid) rows ≡ false
        → id ≡ env.entity_uuid
        → rows' ≡ new_entity env vendor ref attributes ∷ rows
        → Upserted rows id rows'

  pub upsert-Upserted :
      (rows rows' : List Entity) (id : Uuid)
      → upsert_entity env vendor ref attributes rows ≡ ok (id, rows')
      → Upserted rows id rows'
  unfolding upsert_entity new_entity
  upsert-Upserted rows rows' id h = elim (Option-cases (first_row (has_ref vendor ref) rows)) [
    | inl miss ↦ inserted miss (ground arith) (ground arith) (ground arith)
    | inr (e, hit) ↦ updated e hit (ground arith) (ground arith)
  ]

  -- the entity that the upsert returned is in the table, under its key
  pub Upserted-entity :
      {rows : List Entity} {id : Uuid} {rows' : List Entity}
      → Upserted rows id rows'
      → any_row (entity_is id) rows' ≡ true
  unfolding new_entity
  Upserted-entity {rows} (updated e hit eid erows) =
      rw (eid, erows)
        (any_row-update (has_ref vendor ref) (touch env) (entity_is e.id) rows (λ x. refl)
          ∙ any_row-of_Member (entity_is e.id) rows (first_row-Member _ rows e hit).0
              (==_refl e.id))
  Upserted-entity {rows} (inserted miss fresh eid erows) = rw (eid, erows) (ground arith)

  pub Upserted-ids :
      {rows : List Entity} {id : Uuid} {rows' : List Entity}
      → Upserted rows id rows'
      → IsUnique same_entity_id rows
      → IsUnique same_entity_id rows'
  unfolding new_entity
  Upserted-ids {rows} (updated e hit eid erows) u = rw erows (
      IsUnique-update (has_ref vendor ref) (touch env) same_entity_id rows (λ x y. refl)
        (λ x y. refl) u)
  Upserted-ids (inserted miss fresh eid erows) u = rw erows (fresh, u)

  pub Upserted-vendor_refs :
      {rows : List Entity} {id : Uuid} {rows' : List Entity}
      → Upserted rows id rows'
      → IsUnique same_vendor_ref rows
      → IsUnique same_vendor_ref rows'
  unfolding new_entity
  Upserted-vendor_refs {rows} (updated e hit eid erows) u = rw erows (
      IsUnique-update (has_ref vendor ref) (touch env) same_vendor_ref rows (λ x y. refl)
        (λ x y. refl) u)
  Upserted-vendor_refs {rows} (inserted miss fresh eid erows) u =
      rw erows (any_row-of_first _ rows miss, u)

  -- no entity is lost
  pub Upserted-keeps :
      {rows : List Entity} {id : Uuid} {rows' : List Entity} (i : Uuid)
      → Upserted rows id rows'
      → any_row (entity_is i) rows ≡ true
      → any_row (entity_is i) rows' ≡ true
  Upserted-keeps {rows} i (updated e hit eid erows) h =
      rw erows (any_row-update (has_ref vendor ref) (touch env) (entity_is i) rows (λ x. refl) ∙ h)
  Upserted-keeps i (inserted miss fresh eid erows) h = rw erows (ground arith)
