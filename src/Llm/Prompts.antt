-- ===== src/Llm/Prompts.antt =====
-- app/llm/prompts.py: what the system prompt says of the fields of each state.
pub mod Shared
pub mod Required
use glacis.Base.{
  ◌≡◌, Bool, true, false, Option, none, List, [], ◌∷◌, Text, codes, text_eq, is_none, if◌then◌else◌,
}
use glacis.Core.Events.{CanonicalState}
use glacis.Core.Validation.Fields.{Source}
use glacis.Core.Validation.Read.{is_one_of}

abbrev pub shipment_fields : List Text
shipment_fields = codes "vendor_milestone" ∷ codes "transport_doc_number" ∷ []

-- what every invoice has, and what its state adds
abbrev pub invoice_and : List Text → List Text
invoice_and names = codes "vendor_milestone" ∷ codes "document_reference" ∷ codes "currency" ∷ names

-- "MUST also set …"
abbrev pub must_set : CanonicalState → List Text
must_set CanonicalState.picked_up = shipment_fields
must_set CanonicalState.in_transit = shipment_fields
must_set CanonicalState.out_for_delivery = shipment_fields
must_set CanonicalState.delivered = shipment_fields
must_set CanonicalState.issued = invoice_and (codes "amount" ∷ codes "issued_at" ∷ [])
must_set CanonicalState.paid = invoice_and (codes "amount_paid" ∷ codes "settled_at" ∷ [])
must_set CanonicalState.voided = invoice_and (codes "voided_at" ∷ [])
must_set CanonicalState.refunded = invoice_and (codes "refund_amount" ∷ codes "refunded_at" ∷ [])
must_set CanonicalState.unclassified = codes "reason" ∷ []

-- "The required fields you must always provide", besides `canonical_state`
abbrev pub must_always : List Text
must_always = codes "vendor" ∷ codes "event_at" ∷ []

-- a dict with these keys only
abbrev pub only : List Text → Source → Source
only names field key = if is_one_of names key then field key else none

abbrev pub IsGiven : Source → Text → Type 0
IsGiven field key = is_none (field key) ≡ false
