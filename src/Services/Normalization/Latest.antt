-- ===== src/Services/Normalization/Latest.antt =====
-- The abstract view of the entities: for a vendor and an external reference, the state, the time
-- and the attributes of the latest event. `absorb` is the specification of an event on it.
use glacis.Base.{
  ◌≡◌, refl, sym, ◌∙◌, ap, inl, inr, false, ◌&&◌, Option, none, some, List, arith, Text, text_eq,
  text_eq_refl, text_eq_sound, ◌==◌, ==_refl, first_row, first_row-Member, first_row-update,
  first_row-update_none, IsUnique, IsUnique-eq, Bool-cases, Option-cases, if◌then◌else◌, ltb,
}
use glacis.Core.Json.{Json}
use glacis.Core.Events.{CanonicalState}
use glacis.Core.Models.{Uuid, Instant, Entity, Tables, has_ref, same_entity_id}
use glacis.Core.Errors.{ok}
use glacis.Services.Normalization.{Env, overtakes, set_state, update_state, persist_event}
use glacis.Services.Normalization.Ledger.{
  IsLedger, new_entity, touch, Upserted, updated, inserted, Upserted-ids,
}
use glacis.Services.Normalization.Steps.{Persisted, persist_event-Persisted}

pub record Latest : Type 0 where
  pub current_state : Option CanonicalState
  pub last_event_at : Option Instant
  pub attributes : Json

abbrev pub latest_of : Entity → Latest
latest_of e = record {
  current_state = e.current_state;
  last_event_at = e.last_event_at;
  attributes = e.attributes;
}

abbrev pub latest_optional : Option Entity → Option Latest
latest_optional none = none
latest_optional (some e) = some (latest_of e)

unfoldable pub view : Text → Text → Tables → Option Latest
view vendor ref t = latest_optional (first_row (has_ref vendor ref) t.entities)

-- what an event says of its entity
abbrev pub of_event : CanonicalState → Instant → Json → Latest
of_event state event_at attributes = record {
  current_state = some state;
  last_event_at = some event_at;
  attributes = attributes;
}

-- the specification: the event replaces what is known if it is strictly later
unfoldable pub absorb : CanonicalState → Instant → Json → Option Latest → Latest
absorb state event_at attributes none = of_event state event_at attributes
absorb state event_at attributes (some l) = elim l.last_event_at [
  | none ↦ of_event state event_at attributes
  | some last ↦ if ltb last event_at then of_event state event_at attributes else l
]

module _ (env : Env) (vendor ref : Text) (state : CanonicalState) (event_at : Instant)
    (attributes : Json) where
  -- the entity of the key, after the upsert
  pub record Found (rows : List Entity) (id : Uuid) (rows' : List Entity) : Type 0 where
    pub entity : Entity
    pub found : first_row (has_ref vendor ref) rows' ≡ some entity
    pub has_id : entity.id ≡ id
    pub same :
        absorb state event_at attributes (latest_optional (first_row (has_ref vendor ref) rows))
        ≡ absorb state event_at attributes (some (latest_of entity))

  pub Upserted-Found :
      {rows : List Entity} {id : Uuid} {rows' : List Entity}
      → Upserted env vendor ref attributes rows id rows'
      → Found rows id rows'
  unfolding new_entity absorb
  Upserted-Found {rows} (updated e hit eid erows) = record {
    entity = touch env e;
    found = rw erows (
        first_row-update (has_ref vendor ref) (touch env) (has_ref vendor ref) rows e (λ x. refl)
          hit
        ∙ rw (first_row-Member _ rows e hit).1 refl);
    has_id = sym eid;
    same = rw hit refl;
  }
  Upserted-Found {rows} (inserted miss fresh eid erows) = record {
    entity = new_entity env vendor ref attributes;
    found = rw (erows, text_eq_refl vendor, text_eq_refl ref) refl;
    has_id = sym eid;
    same = rw miss refl;
  }

  update_state-found :
      (rows : List Entity) (e : Entity)
      → first_row (has_ref vendor ref) rows ≡ some e
      → latest_optional
          (first_row (has_ref vendor ref) (update_state env e.id state event_at attributes rows))
        ≡ some (absorb state event_at attributes (some (latest_of e)))
  unfolding update_state absorb
  update_state-found rows e h =
      rw
        (
          first_row-update (overtakes e.id event_at) (set_state env state event_at attributes)
              (has_ref vendor ref) rows e (λ x. refl) h,
          ==_refl e.id,
        )
        (ground arith)

  Upserted-other :
      {rows : List Entity} {id : Uuid} {rows' : List Entity} (v r : Text)
      → (text_eq v vendor && text_eq r ref) ≡ false
      → Upserted env vendor ref attributes rows id rows'
      → latest_optional (first_row (has_ref v r) rows')
        ≡ latest_optional (first_row (has_ref v r) rows)
  unfolding new_entity
  Upserted-other {rows} v r ne (updated e hit eid erows) =
      elim (Option-cases (first_row (has_ref v r) rows)) [
        | inl miss ↦
            rw (erows, miss)
              (ap latest_optional (
                first_row-update_none (has_ref vendor ref) (touch env) (has_ref v r) rows
                  (λ x. refl) miss))
        | inr (x, k) ↦
            rw
              (
                erows,
                k,
                first_row-update (has_ref vendor ref) (touch env) (has_ref v r) rows x (λ y. refl)
                    k,
              )
              (ground arith)
      ]
  Upserted-other {rows} v r ne (inserted miss fresh eid erows) = rw (erows, ne) refl

  -- another entity has another id
  other_id :
      (rows : List Entity) (e x : Entity) (v r : Text)
      → (text_eq v vendor && text_eq r ref) ≡ false
      → IsUnique same_entity_id rows
      → first_row (has_ref vendor ref) rows ≡ some e
      → first_row (has_ref v r) rows ≡ some x
      → (e.id == x.id) ≡ false
  other_id rows e x v r ne u h k = elim (Bool-cases (e.id == x.id)) [
    | inr no_clash ↦ no_clash
    | inl clash ↦
        let (m, p) = first_row-Member _ rows e h in
        let (n, q) = first_row-Member _ rows x k in
        let one : e ≡ x = IsUnique-eq same_entity_id rows u m n clash (ground arith) in
        ground (
          arith,
          text_eq_sound vendor e.vendor,
          text_eq_sound ref e.external_ref,
          text_eq_sound v x.vendor,
          text_eq_sound r x.external_ref,
          text_eq_refl v,
          text_eq_refl r,
        )
  ]

  update_state-other :
      (rows : List Entity) (e : Entity) (v r : Text)
      → (text_eq v vendor && text_eq r ref) ≡ false
      → IsUnique same_entity_id rows
      → first_row (has_ref vendor ref) rows ≡ some e
      → latest_optional
          (first_row (has_ref v r) (update_state env e.id state event_at attributes rows))
        ≡ latest_optional (first_row (has_ref v r) rows)
  unfolding update_state
  update_state-other rows e v r ne u h = elim (Option-cases (first_row (has_ref v r) rows)) [
    | inl miss ↦ rw miss (
        ap latest_optional (
          first_row-update_none (overtakes e.id event_at) (set_state env state event_at attributes)
            (has_ref v r) rows (λ x. refl) miss))
    | inr (x, k) ↦
        rw
          (
            k,
            first_row-update (overtakes e.id event_at) (set_state env state event_at attributes)
                (has_ref v r) rows x (λ y. refl) k,
            other_id rows e x v r ne u h k,
          )
          refl
  ]

module _ (env : Env) (raw_event_id : Uuid) (vendor ref : Text) (state : CanonicalState)
    (event_at : Instant) (milestone : Option Text) (attributes : Json) (t t' : Tables) where
  Persisted-view :
      Persisted env raw_event_id vendor ref state event_at milestone attributes t t'
      → view vendor ref t' ≡ some (absorb state event_at attributes (view vendor ref t))
  unfolding view
  Persisted-view p =
      let f = Upserted-Found env vendor ref state event_at attributes p.upserted in
      rw (p.updated, ← f.has_id)
        (update_state-found env vendor ref state event_at attributes p.entities f.entity f.found
          ∙ ap some (sym f.same))

  Persisted-view_other :
      (v r : Text)
      → (text_eq v vendor && text_eq r ref) ≡ false
      → IsLedger t
      → Persisted env raw_event_id vendor ref state event_at milestone attributes t t'
      → view v r t' ≡ view v r t
  unfolding view
  Persisted-view_other v r ne inv p =
      let f = Upserted-Found env vendor ref state event_at attributes p.upserted in
      rw (p.updated, ← f.has_id)
        (update_state-other env vendor ref state event_at attributes p.entities f.entity v r ne
            (Upserted-ids env vendor ref attributes p.upserted inv.entity_ids) f.found
          ∙ Upserted-other env vendor ref state event_at attributes v r ne p.upserted)

  -- Persisting an event refines the specification: its entity holds the event's state, time and
  -- attributes if the event is strictly later than the last one, and else what it held; every
  -- other entity holds what it held.
  pub persist_event-view :
      (v r : Text)
      → IsLedger t
      → persist_event env raw_event_id vendor ref state event_at milestone attributes t ≡ ok t'
      → view v r t' ≡ (
          if text_eq v vendor && text_eq r ref
          then some (absorb state event_at attributes (view v r t))
          else view v r t)
  persist_event-view v r inv h =
      let p =
        persist_event-Persisted env raw_event_id vendor ref state event_at milestone attributes t t'
          h in
      elim (Bool-cases (text_eq v vendor && text_eq r ref)) [
        | inl one ↦ rw one (
            rw (text_eq_sound v vendor (ground arith), text_eq_sound r ref (ground arith))
              (Persisted-view p))
        | inr other ↦ rw other (Persisted-view_other v r other inv p)
      ]
