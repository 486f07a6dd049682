-- ===== src/Llm/Attributes.antt =====
-- What the tables keep of a classification: the attributes are a valid payload of the row's state.
use glacis.Base.{◌≡◌, some, All}
use glacis.Core.Json.{Json}
use glacis.Core.Events.{EventPayload, canonical_state, vendor_milestone}
use glacis.Core.Models.{EntityEvent, Tables}
use glacis.Core.Validation.Fields.{Coercions}
use glacis.Core.Validation.Read.{read_payload}
use glacis.Utils.Hashing.{Hashing}
use glacis.Services.Normalization.History.{History}

module _ (c : Coercions) where
  -- the attributes of an event row validate as a payload with its state and milestone
  pub record IsReadable (e : EntityEvent) : Type 0 where
    pub payload : EventPayload
    pub validated : read_payload c e.attributes ≡ some payload
    pub state : canonical_state payload ≡ e.canonical_state
    pub milestone : vendor_milestone payload ≡ e.vendor_milestone

  abbrev pub AllReadable : Tables → Type 0
  AllReadable t = All IsReadable t.events
