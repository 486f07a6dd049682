-- ===== src/Services/Normalization/Backed.antt =====
-- Where the state of an entity comes from: the rows of its history.
use glacis.Base.{◌≡◌, Option, none, some, Text, List, Bool, ◌⊎◌, All, Member}
use glacis.Core.Json.{Json}
use glacis.Core.Events.{CanonicalState}
use glacis.Core.Models.{Uuid, Instant, Entity, EntityEvent, Tables}
use glacis.Services.Normalization.{Env}

-- a row of the entity's history with the time, the state and the attributes that the entity holds
pub record Source (events : List EntityEvent) (e : Entity) : Type 0 where
  pub event : EntityEvent
  pub stored : Member event events
  pub owner : event.entity_id ≡ e.id
  pub event_at : e.last_event_at ≡ some event.event_at
  pub state : e.current_state ≡ some event.canonical_state
  pub attributes : e.attributes ≡ event.attributes

-- no event has reached the entity, or its state comes from its history
abbrev pub IsBacked : List EntityEvent → Entity → Type 0
IsBacked events e = (e.last_event_at ≡ none) ⊎ Source events e

module _ (env : Env) (raw_event_id : Uuid) (vendor ref : Text) (state : CanonicalState)
    (event_at : Instant) (milestone : Option Text) (attributes : Json) where
  -- the event row of the raw event, and the state of its entity
  pub record Reached (t' : Tables) : Type 0 where
    pub row : EntityEvent
    pub stored : Member row t'.events
    pub source : row.raw_event_id ≡ raw_event_id
    pub entity : All (λ (e : Entity). e.id ≡ row.entity_id → Source t'.events e) t'.entities
