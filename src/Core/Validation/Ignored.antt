-- ===== src/Core/Validation/Ignored.antt =====
-- What a validation does not look at: the order of the keys, and keys that the schema does not name.
use mathlib.Core.Path.{fun_ext}
use glacis.Base.{
  ◌≡◌, refl, sym, ap, ◌∙◌, true, Option, none, List, [], ◌∷◌, Text, codes, text_eq, Bool-cases, inl,
  inr, if◌then◌else◌,
}
use glacis.Core.Json.{object, Members}
use glacis.Core.Events.{CanonicalState, EventPayload}
use glacis.Core.Validation.Fields.{Coercions, get, Source, ◌>>=◌}
use glacis.Core.Validation.Read.{is_one_of, read_variant, read_fields, read_payload}
use glacis.Core.Validation.States.{read_tag}

-- every name of a payload's schema
abbrev pub field_names : List Text
field_names =
    codes "canonical_state"
    ∷ codes "entity_type"
    ∷ codes "extras"
    ∷ codes "vendor_milestone"
    ∷ codes "transport_doc_number"
    ∷ codes "container_id"
    ∷ codes "document_reference"
    ∷ codes "currency"
    ∷ codes "payer"
    ∷ codes "payee"
    ∷ codes "origin_port_code"
    ∷ codes "origin_port_name"
    ∷ codes "shipper_reference"
    ∷ codes "vessel_name"
    ∷ codes "vessel_imo"
    ∷ codes "voyage_number"
    ∷ codes "departure_port_code"
    ∷ codes "departure_port_name"
    ∷ codes "destination_port_code"
    ∷ codes "destination_port_name"
    ∷ codes "consignee"
    ∷ codes "delivery_port_code"
    ∷ codes "delivery_order_number"
    ∷ codes "amount"
    ∷ codes "issued_at"
    ∷ codes "due_at"
    ∷ codes "line_items"
    ∷ codes "amount_paid"
    ∷ codes "settled_at"
    ∷ codes "remitter"
    ∷ codes "memo"
    ∷ codes "voided_at"
    ∷ codes "void_reason"
    ∷ codes "refund_amount"
    ∷ codes "refunded_at"
    ∷ codes "refund_reason"
    ∷ codes "reason"
    ∷ []

abbrev restricted : Source → Source
restricted field key = if is_one_of field_names key then field key else none

module _ (c : Coercions) where
  read_variant-restricted :
      (s : CanonicalState) (field : Source)
      → read_variant c s (restricted field) ≡ read_variant c s field
  unfolding read_variant text_eq
  read_variant-restricted CanonicalState.picked_up field = refl
  read_variant-restricted CanonicalState.in_transit field = refl
  read_variant-restricted CanonicalState.out_for_delivery field = refl
  read_variant-restricted CanonicalState.delivered field = refl
  read_variant-restricted CanonicalState.issued field = refl
  read_variant-restricted CanonicalState.paid field = refl
  read_variant-restricted CanonicalState.voided field = refl
  read_variant-restricted CanonicalState.refunded field = refl
  read_variant-restricted CanonicalState.unclassified field = refl

  read_fields-restricted : (field : Source) → read_fields c (restricted field) ≡ read_fields c field
  unfolding read_fields text_eq
  read_fields-restricted field =
      ap
        (λ (next : CanonicalState → Option EventPayload).
          read_tag (field (codes "canonical_state")) >>= next)
        (fun_ext (λ s. read_variant-restricted s field))

  restricted-agree :
      (m m' : Members)
      → ((key : Text) → is_one_of field_names key ≡ true → get m key ≡ get m' key)
      → (key : Text) → restricted (get m) key ≡ restricted (get m') key
  restricted-agree m m' same key = elim (Bool-cases (is_one_of field_names key)) [
    | inl known ↦ rw known (same key known)
    | inr unknown ↦ rw unknown refl
  ]

  -- Two dicts that agree on the names of the schema validate alike, whatever the order of their
  -- keys and whatever other keys they have.
  pub read_payload-agree :
      (m m' : Members)
      → ((key : Text) → is_one_of field_names key ≡ true → get m key ≡ get m' key)
      → read_payload c (object m) ≡ read_payload c (object m')
  unfolding read_payload
  read_payload-agree m m' same =
      sym (read_fields-restricted (get m))
      ∙ ap (read_fields c) (fun_ext (restricted-agree m m' same))
      ∙ read_fields-restricted (get m')
