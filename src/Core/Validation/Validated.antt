-- ===== src/Core/Validation/Validated.antt =====
-- What was validated satisfies the constraints of the schema.
use glacis.Base.{
  ℕ, ◌≡◌, refl, subst, ◌∙◌, Option, none, some, List, [], ◌∷◌, arith, Text, codes, All,
}
use glacis.Core.Json.{Json, object, array, Items, nil, item}
use glacis.Core.Events.{
  CanonicalState, EventPayload, NormalizedEvent, ShipmentPayloadBase, InvoicePayloadBase,
  InvoiceLineItem, UnclassifiedPayload,
}
use glacis.Core.Validation.Fields.{
  ◌>>=◌, Coercions, get, Source, read_text, not_empty, read_optional, read_datetime,
  read_optional_datetime, read_amount, read_text-IsNotEmpty, read_text-IsCurrency, IsNotEmpty,
  read_datetime-IsDatetime, read_amount-IsAmount, read_optional_datetime-IsOptionalDatetime,
}
use glacis.Core.Validation.Read.{
  read_shipment, read_invoice, read_unclassified, read_line_item, read_items, read_line_items,
  read_variant, read_fields, read_payload, read_payload_field, read_confidence, model_validate,
}
use glacis.Core.Validation.States.{read_tag}
use glacis.Core.Validation.Valid.{IsShipment, IsInvoice, IsLineItem, IsValid, IsUnit, IsEvent}

-- every step of a validation has passed
pub >>=-eq-some {ℓ κ} :
    {A : Type ℓ} {B : Type κ} (o : Option A) (rest : A → Option B) {b : B}
    → (o >>= rest) ≡ some b
    → (a : A) × (o ≡ some a) × (rest a ≡ some b)
>>=-eq-some none rest h = cc
>>=-eq-some (some a) rest h = (a, refl, h)

read_shipment-IsShipment :
    (field : Source) (p : ShipmentPayloadBase) → read_shipment field ≡ some p → IsShipment p
unfolding read_shipment
read_shipment-IsShipment field p h = ground (
  arith,
  read_text-IsNotEmpty (field (codes "vendor_milestone")) p.vendor_milestone,
  read_text-IsNotEmpty (field (codes "transport_doc_number")) p.transport_doc_number,
)

read_invoice-IsInvoice :
    (field : Source) (p : InvoicePayloadBase) → read_invoice field ≡ some p → IsInvoice p
unfolding read_invoice
read_invoice-IsInvoice field p h = ground (
  arith,
  read_text-IsNotEmpty (field (codes "vendor_milestone")) p.vendor_milestone,
  read_text-IsNotEmpty (field (codes "document_reference")) p.document_reference,
  read_text-IsCurrency (field (codes "currency")) p.currency,
)

reason_kept :
    (field : Source) (p : UnclassifiedPayload)
    → read_unclassified field ≡ some p
    → IsNotEmpty p.reason
unfolding read_unclassified
reason_kept field p h = ground (arith, read_text-IsNotEmpty (field (codes "reason")) p.reason)

module _ (c : Coercions) where
  read_line_item-IsLineItem :
      (j : Json) (x : InvoiceLineItem) → read_line_item c j ≡ some x → IsLineItem c x
  unfolding read_line_item
  read_line_item-IsLineItem (object m) x h = ground (
    arith,
    read_text-IsNotEmpty (get m (codes "description")) x.description,
    read_amount-IsAmount c (get m (codes "amount")) x.amount,
    read_text-IsCurrency (get m (codes "currency")) x.currency,
  )
  read_line_item-IsLineItem _ x h = cc

  read_items-IsLineItem :
      (items : Items) (xs : List InvoiceLineItem)
      → read_items c items ≡ some xs
      → All (IsLineItem c) xs
  unfolding read_items
  read_items-IsLineItem items [] h = tt
  read_items-IsLineItem nil (x ∷ xs) h = cc
  read_items-IsLineItem (item j rest) (x ∷ xs) h =
      let (y, e, h₁) = >>=-eq-some (read_line_item c j) _ h in
      let (ys, f, h₂) = >>=-eq-some (read_items c rest) _ h₁ in
      (
        read_line_item-IsLineItem j x (e ∙ ground arith),
        read_items-IsLineItem rest xs (f ∙ ground arith),
      )

  read_line_items-IsLineItem :
      (o : Option Json) (xs : List InvoiceLineItem)
      → read_line_items c o ≡ some xs
      → All (IsLineItem c) xs
  unfolding read_line_items
  read_line_items-IsLineItem o [] h = tt
  read_line_items-IsLineItem none (x ∷ xs) h = cc
  read_line_items-IsLineItem (some (array items)) (x ∷ xs) h =
      read_items-IsLineItem items (x ∷ xs) h
  read_line_items-IsLineItem (some _) (x ∷ xs) h = cc

  -- an optional text, which the constraints do not depend on
  optional :
      (field : Source) (key : Text) {rest : Option Text → Option EventPayload} {p : EventPayload}
      → (read_optional (field key) >>= rest) ≡ some p
      → ((a : Option Text) → rest a ≡ some p → IsValid c p)
      → IsValid c p
  optional field key {rest} h next =
      let (a, e, h') = >>=-eq-some (read_optional (field key)) rest h in next a h'

  result : {q p : EventPayload} → IsValid c q → some q ≡ some p → IsValid c p
  result {q} {p} v h = let same : q ≡ p = cc in subst (IsValid c) same v

  read_variant-IsValid :
      (s : CanonicalState) (field : Source) (p : EventPayload)
      → read_variant c s field ≡ some p
      → IsValid c p
  unfolding read_variant
  read_variant-IsValid CanonicalState.picked_up field p h =
      let (s, e, h₀) = >>=-eq-some (read_shipment field) _ h in
      optional field (codes "origin_port_code") h₀ λ a0 h₁.
        optional field (codes "origin_port_name") h₁ λ a1 h₂.
          optional field (codes "shipper_reference") h₂
            λ a2 h₃. result (read_shipment-IsShipment field s e) h₃
  read_variant-IsValid CanonicalState.in_transit field p h =
      let (s, e, h₀) = >>=-eq-some (read_shipment field) _ h in
      optional field (codes "vessel_name") h₀ λ a0 h₁.
        optional field (codes "vessel_imo") h₁ λ a1 h₂.
          optional field (codes "voyage_number") h₂ λ a2 h₃.
            optional field (codes "departure_port_code") h₃ λ a3 h₄.
              optional field (codes "departure_port_name") h₄
                λ a4 h₅. result (read_shipment-IsShipment field s e) h₅
  read_variant-IsValid CanonicalState.out_for_delivery field p h =
      let (s, e, h₀) = >>=-eq-some (read_shipment field) _ h in
      optional field (codes "destination_port_code") h₀ λ a0 h₁.
        optional field (codes "destination_port_name") h₁
          λ a1 h₂. result (read_shipment-IsShipment field s e) h₂
  read_variant-IsValid CanonicalState.delivered field p h =
      let (s, e, h₀) = >>=-eq-some (read_shipment field) _ h in
      optional field (codes "consignee") h₀ λ a0 h₁.
        optional field (codes "delivery_port_code") h₁ λ a1 h₂.
          optional field (codes "delivery_order_number") h₂
            λ a2 h₃. result (read_shipment-IsShipment field s e) h₃
  read_variant-IsValid CanonicalState.issued field p h =
      let (s, e, h₀) = >>=-eq-some (read_invoice field) _ h in
      let (x0, e0, h₁) = >>=-eq-some (read_amount c (field (codes "amount"))) _ h₀ in
      let (x1, e1, h₂) = >>=-eq-some (read_datetime c (field (codes "issued_at"))) _ h₁ in
      let (x2, e2, h₃) = >>=-eq-some (read_optional_datetime c (field (codes "due_at"))) _ h₂ in
      let (x3, e3, h₄) = >>=-eq-some (read_line_items c (field (codes "line_items"))) _ h₃ in
      result
        (
          read_invoice-IsInvoice field s e,
          read_amount-IsAmount c (field (codes "amount")) x0 e0,
          read_datetime-IsDatetime c (field (codes "issued_at")) x1 e1,
          read_optional_datetime-IsOptionalDatetime c (field (codes "due_at")) x2 e2,
          read_line_items-IsLineItem (field (codes "line_items")) x3 e3,
        )
        h₄
  read_variant-IsValid CanonicalState.paid field p h =
      let (s, e, h₀) = >>=-eq-some (read_invoice field) _ h in
      let (x0, e0, h₁) = >>=-eq-some (read_amount c (field (codes "amount_paid"))) _ h₀ in
      let (x1, e1, h₂) = >>=-eq-some (read_datetime c (field (codes "settled_at"))) _ h₁ in
      optional field (codes "remitter") h₂ λ x2 h₃. optional field (codes "memo") h₃ λ x3 h₄.
        result
          (
            read_invoice-IsInvoice field s e,
            read_amount-IsAmount c (field (codes "amount_paid")) x0 e0,
            read_datetime-IsDatetime c (field (codes "settled_at")) x1 e1,
          )
          h₄
  read_variant-IsValid CanonicalState.voided field p h =
      let (s, e, h₀) = >>=-eq-some (read_invoice field) _ h in
      let (x0, e0, h₁) = >>=-eq-some (read_datetime c (field (codes "voided_at"))) _ h₀ in
      optional field (codes "void_reason") h₁ λ x1 h₂.
        result
          (
            read_invoice-IsInvoice field s e,
            read_datetime-IsDatetime c (field (codes "voided_at")) x0 e0,
          )
          h₂
  read_variant-IsValid CanonicalState.refunded field p h =
      let (s, e, h₀) = >>=-eq-some (read_invoice field) _ h in
      let (x0, e0, h₁) = >>=-eq-some (read_amount c (field (codes "refund_amount"))) _ h₀ in
      let (x1, e1, h₂) = >>=-eq-some (read_datetime c (field (codes "refunded_at"))) _ h₁ in
      optional field (codes "refund_reason") h₂ λ x2 h₃.
        result
          (
            read_invoice-IsInvoice field s e,
            read_amount-IsAmount c (field (codes "refund_amount")) x0 e0,
            read_datetime-IsDatetime c (field (codes "refunded_at")) x1 e1,
          )
          h₃
  read_variant-IsValid CanonicalState.unclassified field p h =
      let (q, e, h₁) = >>=-eq-some (read_unclassified field) _ h in
      result (reason_kept field q e) h₁

  read_fields-IsValid :
      (field : Source) (p : EventPayload) → read_fields c field ≡ some p → IsValid c p
  unfolding read_fields
  read_fields-IsValid field p h =
      let (s, e, h₁) = >>=-eq-some (read_tag (field (codes "canonical_state"))) _ h in
      read_variant-IsValid s field p h₁

  pub read_payload-IsValid : (j : Json) (p : EventPayload) → read_payload c j ≡ some p → IsValid c p
  unfolding read_payload
  read_payload-IsValid (object m) p h = read_fields-IsValid (get m) p h
  read_payload-IsValid _ p h = cc

  read_confidence-IsUnit :
      (o : Option Json) (bits : ℕ) → read_confidence c o ≡ some bits → IsUnit bits
  unfolding read_confidence
  read_confidence-IsUnit none bits h = ground arith
  read_confidence-IsUnit (some j) bits h = ground arith

  read_payload_field-IsValid :
      (o : Option Json) (p : EventPayload) → read_payload_field c o ≡ some p → IsValid c p
  unfolding read_payload_field
  read_payload_field-IsValid none p h = cc
  read_payload_field-IsValid (some j) p h = read_payload-IsValid j p h

  -- A validated event satisfies the constraints of the schema: its vendor is not empty, its
  -- confidence is between 0 and 1, its payload has the texts of its state that must not be empty,
  -- currencies of three characters and amounts that are not negative, and its datetimes and amounts
  -- are values that are read back from what is written of them.
  pub model_validate-IsEvent :
      (j : Json) (e : NormalizedEvent) → model_validate c j ≡ some e → IsEvent c e
  unfolding model_validate
  model_validate-IsEvent (object m) e h =
      let (vendor, e₁, h₁) = >>=-eq-some (read_text not_empty (get m (codes "vendor"))) _ h in
      let (event_at, e₂, h₂) = >>=-eq-some (read_datetime c (get m (codes "event_at"))) _ h₁ in
      let (bits, e₃, h₃) = >>=-eq-some (read_confidence c (get m (codes "confidence"))) _ h₂ in
      let (p, e₄, h₄) = >>=-eq-some (read_payload_field c (get m (codes "payload"))) _ h₃ in
      let q : NormalizedEvent = record {
        vendor = vendor;
        event_at = event_at;
        confidence = bits;
        payload = p;
      } in
      let same : q ≡ e = cc in
      subst (IsEvent c) same (record {
        vendor = read_text-IsNotEmpty (get m (codes "vendor")) vendor e₁;
        event_at = read_datetime-IsDatetime c (get m (codes "event_at")) event_at e₂;
        confidence = read_confidence-IsUnit (get m (codes "confidence")) bits e₃;
        payload = read_payload_field-IsValid (get m (codes "payload")) p e₄;
      })
  model_validate-IsEvent _ e h = cc
