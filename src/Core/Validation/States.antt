-- ===== src/Core/Validation/States.antt =====
-- app/core/events.py: the discriminator of the union.
use glacis.Base.{Option, none, some, List, [], ◌∷◌, Text, codes, text_eq, if◌then◌else◌}
use glacis.Core.Json.{Json, string}
use glacis.Core.Events.{CanonicalState}

-- the literals of `canonical_state`
abbrev pub state_name : CanonicalState → Text
state_name CanonicalState.picked_up = codes "PICKED_UP"
state_name CanonicalState.in_transit = codes "IN_TRANSIT"
state_name CanonicalState.out_for_delivery = codes "OUT_FOR_DELIVERY"
state_name CanonicalState.delivered = codes "DELIVERED"
state_name CanonicalState.issued = codes "ISSUED"
state_name CanonicalState.paid = codes "PAID"
state_name CanonicalState.voided = codes "VOIDED"
state_name CanonicalState.refunded = codes "REFUNDED"
state_name CanonicalState.unclassified = codes "UNCLASSIFIED"

abbrev pub states : List CanonicalState
states =
    CanonicalState.picked_up ∷ CanonicalState.in_transit ∷ CanonicalState.out_for_delivery
    ∷ CanonicalState.delivered ∷ CanonicalState.issued ∷ CanonicalState.paid ∷ CanonicalState.voided
    ∷ CanonicalState.refunded ∷ CanonicalState.unclassified ∷ []

abbrev pub find_state : Text → List CanonicalState → Option CanonicalState
find_state t [] = none
find_state t (s ∷ rest) = if text_eq t (state_name s) then some s else find_state t rest

-- the variant of the union that a tag selects
unfoldable pub state_of : Text → Option CanonicalState
unfolding text_eq
state_of t = find_state t states

unfoldable pub read_tag : Option Json → Option CanonicalState
unfolding state_of
read_tag (some (string t)) = state_of t
read_tag _ = none
