-- ===== src/Services/Normalization/History.antt =====
-- The history of an entity: what persisting an event does to the rows of the events.
use glacis.Base.{
  text_eq_refl, List, Bool, ◌≡◌, refl, ◌∙◌, ap, true, false, Option, some, arith, Text, first_row,
  first_row-update, any_row, ◌∷◌, ◌==◌, if◌then◌else◌,
}
use glacis.Core.Json.{Json}
use glacis.Core.Events.{CanonicalState}
use glacis.Core.Models.{Uuid, Instant, Entity, EntityEvent, Tables, has_ref}
use glacis.Core.Errors.{ok}
use glacis.Services.Normalization.{Env, overtakes, set_state, update_state, persist_event}
use glacis.Services.Normalization.Steps.{
  Recorded, known, added, event_row, Persisted, persist_event-Persisted,
}
use glacis.Services.Normalization.Latest.{Upserted-Found, view, absorb, persist_event-view}
use glacis.Services.Normalization.Ledger.{IsLedger}

abbrev pub is_of_raw : Uuid → EntityEvent → Bool
is_of_raw raw_event_id e = raw_event_id == e.raw_event_id

module _ (env : Env) (raw_event_id : Uuid) (vendor ref : Text) (state : CanonicalState)
    (event_at : Instant) (milestone : Option Text) (attributes : Json) where
  -- the raw event was recorded before, or it is recorded now, for the entity of its key
  pub data History (t t' : Tables) : Type 0 where
    again : any_row (is_of_raw raw_event_id) t.events ≡ true → t'.events ≡ t.events → History t t'
    once :
        (e : Entity)
        → any_row (is_of_raw raw_event_id) t.events ≡ false
        → first_row (has_ref vendor ref) t'.entities ≡ some e
        → t'.events
          ≡ record {
            id = env.event_uuid;
            entity_id = e.id;
            raw_event_id = raw_event_id;
            canonical_state = state;
            event_at = event_at;
            vendor_milestone = milestone;
            attributes = attributes;
            created_at = env.db_now;
          }
            ∷ t.events
        → History t t'

  found_after :
      (id : Uuid) (rows : List Entity) (e : Entity)
      → first_row (has_ref vendor ref) rows ≡ some e
      → (x : Entity) × (first_row
            (has_ref vendor ref)
            (update_state env id state event_at attributes rows)
          ≡ some x)
        × (x.id ≡ e.id)
  unfolding update_state
  found_after id rows e h = (
    (if overtakes id event_at e then set_state env state event_at attributes e else e),
    first_row-update (overtakes id event_at) (set_state env state event_at attributes)
        (has_ref vendor ref) rows e (λ x. refl) h,
    same_id (overtakes id event_at e),
  )
    where
      same_id : (b : Bool) → (if b then set_state env state event_at attributes e else e).id ≡ e.id
      same_id true = refl
      same_id false = refl

  Recorded-History :
      {t t' : Tables}
      (p : Persisted env raw_event_id vendor ref state event_at milestone attributes t t')
      → Recorded
          (event_row env raw_event_id vendor ref state event_at milestone attributes p.entity_id)
          t.events
          t'.events
      → History t t'
  unfolding event_row
  Recorded-History p (known old e) = again old e
  Recorded-History {t} {t'} p (added new fresh e) =
      let f = Upserted-Found env vendor ref state event_at attributes p.upserted in
      let (x, hit, same) = found_after p.entity_id p.entities f.entity f.found in
      once x new (ap (first_row (has_ref vendor ref)) p.updated ∙ hit) (rw (same ∙ f.has_id) e)

  -- The history only grows, and a raw event is recorded in it exactly once: persisting an event
  -- whose raw event is in the history already leaves the history as it was, and else adds one row,
  -- the event's, for the entity that the vendor and the external reference name.
  pub persist_event-History :
      (t t' : Tables)
      → persist_event env raw_event_id vendor ref state event_at milestone attributes t ≡ ok t'
      → History t t'
  persist_event-History t t' h =
      let p =
        persist_event-Persisted env raw_event_id vendor ref state event_at milestone attributes t t'
          h in
      Recorded-History p p.recorded

  -- A raw event that is in the history already, and is persisted again with another
  -- classification, leaves the history as it was, and yet its entity takes the state of the new
  -- classification if that is strictly later: the state then has no row in the history.
  pub persist_event-reprocessed :
      (t t' : Tables)
      → IsLedger t
      → any_row (is_of_raw raw_event_id) t.events ≡ true
      → persist_event env raw_event_id vendor ref state event_at milestone attributes t ≡ ok t'
      → (t'.events ≡ t.events)
        × (view vendor ref t' ≡ some (absorb state event_at attributes (view vendor ref t)))
  persist_event-reprocessed t t' inv old h = (
    same_history (persist_event-History t t' h),
    persist_event-view env raw_event_id vendor ref state event_at milestone attributes t t' vendor
          ref inv h
        ∙ rw (text_eq_refl vendor, text_eq_refl ref) refl,
  )
    where
      same_history : History t t' → t'.events ≡ t.events
      same_history (again seen e) = e
      same_history (once e new found added_row) = absurd (ground arith)
