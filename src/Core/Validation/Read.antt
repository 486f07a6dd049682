-- ===== src/Core/Validation/Read.antt =====
-- app/core/events.py: `model_validate` of a payload and of the envelope. Unknown keys are dropped,
-- except in a line item, where they are refused.
use glacis.Base.{
  ℕ, Bool, true, false, ◌&&◌, ◌||◌, Option, none, some, List, [], ◌∷◌, Text, codes, text_eq, leb,
  ◌==◌,
}
use glacis.Core.Json.{Json, object, array, Members, end, member, Items, nil, item}
use glacis.Core.Events.{
  CanonicalState, EventPayload, NormalizedEvent, ShipmentPayloadBase, InvoicePayloadBase,
  InvoiceLineItem, UnclassifiedPayload,
}
use glacis.Core.Validation.Fields.{
  ◌>>=◌, ◌>>◌, ensure, Coercions, get, Source, read_text, not_empty, is_currency, read_optional,
  read_literal, read_extras, read_datetime, read_optional_datetime, read_amount,
}
use glacis.Core.Validation.States.{read_tag}

unfoldable pub read_shipment : Source → Option ShipmentPayloadBase
read_shipment field = do
  extras ← read_extras (field (codes "extras"))
  read_literal (codes "shipment") (field (codes "entity_type"))
  vendor_milestone ← read_text not_empty (field (codes "vendor_milestone"))
  transport_doc_number ← read_text not_empty (field (codes "transport_doc_number"))
  container_id ← read_optional (field (codes "container_id"))
  some (record {
    base = record { extras = extras };
    vendor_milestone = vendor_milestone;
    transport_doc_number = transport_doc_number;
    container_id = container_id;
  })

unfoldable pub read_invoice : Source → Option InvoicePayloadBase
read_invoice field = do
  extras ← read_extras (field (codes "extras"))
  read_literal (codes "invoice") (field (codes "entity_type"))
  vendor_milestone ← read_text not_empty (field (codes "vendor_milestone"))
  document_reference ← read_text not_empty (field (codes "document_reference"))
  currency ← read_text is_currency (field (codes "currency"))
  payer ← read_optional (field (codes "payer"))
  payee ← read_optional (field (codes "payee"))
  some (record {
    base = record { extras = extras };
    vendor_milestone = vendor_milestone;
    document_reference = document_reference;
    currency = currency;
    payer = payer;
    payee = payee;
  })

unfoldable pub read_unclassified : Source → Option UnclassifiedPayload
read_unclassified field = do
  extras ← read_extras (field (codes "extras"))
  read_literal (codes "unclassified") (field (codes "entity_type"))
  reason ← read_text not_empty (field (codes "reason"))
  some (record { base = record { extras = extras }; reason = reason })

abbrev pub line_item_names : List Text
line_item_names = codes "description" ∷ codes "amount" ∷ codes "currency" ∷ []

abbrev pub is_one_of : List Text → Text → Bool
is_one_of [] key = false
is_one_of (name ∷ names) key = text_eq key name || is_one_of names key

-- extra="forbid"
abbrev pub has_only : List Text → Members → Bool
has_only names end = true
has_only names (member k v rest) = is_one_of names k && has_only names rest

-- ge=0.0 and le=1.0, on the bits of the float: the positive floats are in the order of their bits,
-- and negative zero is not less than zero
abbrev pub is_unit : ℕ → Bool
is_unit bits = leb bits 4607182418800017408 || (bits == 9223372036854775808)

module _ (c : Coercions) where
  unfoldable pub read_line_item : Json → Option InvoiceLineItem
  unfolding text_eq
  read_line_item (object m) = do
    ensure (has_only line_item_names m)
    description ← read_text not_empty (get m (codes "description"))
    amount ← read_amount c (get m (codes "amount"))
    currency ← read_text is_currency (get m (codes "currency"))
    some (record { description = description; amount = amount; currency = currency })
  read_line_item _ = none

  unfoldable pub read_items : Items → Option (List InvoiceLineItem)
  unfolding read_line_item
  read_items nil = some []
  read_items (item j rest) = do x ← read_line_item j; xs ← read_items rest; some (x ∷ xs)

  -- `list[InvoiceLineItem] = Field(default_factory=list)`
  unfoldable pub read_line_items : Option Json → Option (List InvoiceLineItem)
  unfolding read_items
  read_line_items none = some []
  read_line_items (some (array items)) = read_items items
  read_line_items (some _) = none

  -- the payload of a state
  unfoldable pub read_variant : CanonicalState → Source → Option EventPayload
  unfolding read_shipment read_invoice read_unclassified read_line_items
  read_variant CanonicalState.picked_up field = do
    shipment ← read_shipment field
    origin_port_code ← read_optional (field (codes "origin_port_code"))
    origin_port_name ← read_optional (field (codes "origin_port_name"))
    shipper_reference ← read_optional (field (codes "shipper_reference"))
    some (
        EventPayload.picked_up (record {
          shipment = shipment;
          origin_port_code = origin_port_code;
          origin_port_name = origin_port_name;
          shipper_reference = shipper_reference;
        }))
  read_variant CanonicalState.in_transit field = do
    shipment ← read_shipment field
    vessel_name ← read_optional (field (codes "vessel_name"))
    vessel_imo ← read_optional (field (codes "vessel_imo"))
    voyage_number ← read_optional (field (codes "voyage_number"))
    departure_port_code ← read_optional (field (codes "departure_port_code"))
    departure_port_name ← read_optional (field (codes "departure_port_name"))
    some (
        EventPayload.in_transit (record {
          shipment = shipment;
          vessel_name = vessel_name;
          vessel_imo = vessel_imo;
          voyage_number = voyage_number;
          departure_port_code = departure_port_code;
          departure_port_name = departure_port_name;
        }))
  read_variant CanonicalState.out_for_delivery field = do
    shipment ← read_shipment field
    destination_port_code ← read_optional (field (codes "destination_port_code"))
    destination_port_name ← read_optional (field (codes "destination_port_name"))
    some (
        EventPayload.out_for_delivery (record {
          shipment = shipment;
          destination_port_code = destination_port_code;
          destination_port_name = destination_port_name;
        }))
  read_variant CanonicalState.delivered field = do
    shipment ← read_shipment field
    consignee ← read_optional (field (codes "consignee"))
    delivery_port_code ← read_optional (field (codes "delivery_port_code"))
    delivery_order_number ← read_optional (field (codes "delivery_order_number"))
    some (
        EventPayload.delivered (record {
          shipment = shipment;
          consignee = consignee;
          delivery_port_code = delivery_port_code;
          delivery_order_number = delivery_order_number;
        }))
  read_variant CanonicalState.issued field = do
    invoice ← read_invoice field
    amount ← read_amount c (field (codes "amount"))
    issued_at ← read_datetime c (field (codes "issued_at"))
    due_at ← read_optional_datetime c (field (codes "due_at"))
    line_items ← read_line_items (field (codes "line_items"))
    some (
        EventPayload.issued (record {
          invoice = invoice;
          amount = amount;
          issued_at = issued_at;
          due_at = due_at;
          line_items = line_items;
        }))
  read_variant CanonicalState.paid field = do
    invoice ← read_invoice field
    amount_paid ← read_amount c (field (codes "amount_paid"))
    settled_at ← read_datetime c (field (codes "settled_at"))
    remitter ← read_optional (field (codes "remitter"))
    memo ← read_optional (field (codes "memo"))
    some (
        EventPayload.paid (record {
          invoice = invoice;
          amount_paid = amount_paid;
          settled_at = settled_at;
          remitter = remitter;
          memo = memo;
        }))
  read_variant CanonicalState.voided field = do
    invoice ← read_invoice field
    voided_at ← read_datetime c (field (codes "voided_at"))
    void_reason ← read_optional (field (codes "void_reason"))
    some (
        EventPayload.voided
          (record { invoice = invoice; voided_at = voided_at; void_reason = void_reason }))
  read_variant CanonicalState.refunded field = do
    invoice ← read_invoice field
    refund_amount ← read_amount c (field (codes "refund_amount"))
    refunded_at ← read_datetime c (field (codes "refunded_at"))
    refund_reason ← read_optional (field (codes "refund_reason"))
    some (
        EventPayload.refunded (record {
          invoice = invoice;
          refund_amount = refund_amount;
          refunded_at = refunded_at;
          refund_reason = refund_reason;
        }))
  read_variant CanonicalState.unclassified field = do
    p ← read_unclassified field
    some (EventPayload.unclassified p)

  -- the union, by its discriminator
  unfoldable pub read_fields : Source → Option EventPayload
  unfolding read_tag read_variant
  read_fields field = do
    state ← read_tag (field (codes "canonical_state"))
    read_variant state field

  unfoldable pub read_payload : Json → Option EventPayload
  unfolding read_fields text_eq
  read_payload (object m) = read_fields (get m)
  read_payload _ = none

  unfoldable pub read_payload_field : Option Json → Option EventPayload
  unfolding read_payload
  read_payload_field none = none
  read_payload_field (some j) = read_payload j

  -- `float = Field(default=1.0, ge=0.0, le=1.0)`
  unfoldable pub read_confidence : Option Json → Option ℕ
  read_confidence none = some 4607182418800017408
  read_confidence (some j) = do bits ← c.parse_float j; ensure (is_unit bits); some bits

  -- the envelope
  unfoldable pub model_validate : Json → Option NormalizedEvent
  unfolding read_payload_field read_confidence text_eq
  model_validate (object m) = do
    vendor ← read_text not_empty (get m (codes "vendor"))
    event_at ← read_datetime c (get m (codes "event_at"))
    confidence ← read_confidence (get m (codes "confidence"))
    payload ← read_payload_field (get m (codes "payload"))
    some (record {
      vendor = vendor;
      event_at = event_at;
      confidence = confidence;
      payload = payload;
    })
  model_validate _ = none
