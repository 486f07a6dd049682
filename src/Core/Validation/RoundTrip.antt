-- ===== src/Core/Validation/RoundTrip.antt =====
-- The dump of a payload, read back.
use glacis.Base.{◌≡◌, refl, some, List, [], ◌∷◌, codes, All, text_eq}
use glacis.Core.Json.{Json, object, string}
use glacis.Core.Events.{
  CanonicalState, EventPayload, ShipmentPayloadBase, InvoicePayloadBase, InvoiceLineItem,
  canonical_state,
}
use glacis.Core.Validation.Fields.{
  Coercions, get, Source, read_literal, read_extras, read_text-not_empty, read_text-is_currency,
  dump_optional, read_optional-dump, read_datetime-dump, read_amount-dump,
  read_optional_datetime-dump,
}
use glacis.Core.Validation.Read.{
  read_shipment, read_invoice, read_line_item, read_items, read_variant, read_payload,
}
use glacis.Core.Validation.States.{state_name, read_tag}
use glacis.Core.Validation.Dump.{dump_line_item, dump_line_items, dump_fields, model_dump}
use glacis.Core.Validation.Valid.{IsShipment, IsInvoice, IsLineItem, IsValid}

read_shipment-of :
    (field : Source) (p : ShipmentPayloadBase)
    → IsShipment p
    → field (codes "extras") ≡ some (object p.extras)
    → field (codes "entity_type") ≡ some (string (codes "shipment"))
    → field (codes "vendor_milestone") ≡ some (string p.vendor_milestone)
    → field (codes "transport_doc_number") ≡ some (string p.transport_doc_number)
    → field (codes "container_id") ≡ some (dump_optional p.container_id)
    → read_shipment field ≡ some p
unfolding read_shipment read_extras read_literal
read_shipment-of field p v extras kind milestone number container =
    rw
      (
        extras,
        kind,
        milestone,
        read_text-not_empty p.vendor_milestone v.0,
        number,
        read_text-not_empty p.transport_doc_number v.1,
        container,
        read_optional-dump p.container_id,
      )
      refl

read_invoice-of :
    (field : Source) (p : InvoicePayloadBase)
    → IsInvoice p
    → field (codes "extras") ≡ some (object p.extras)
    → field (codes "entity_type") ≡ some (string (codes "invoice"))
    → field (codes "vendor_milestone") ≡ some (string p.vendor_milestone)
    → field (codes "document_reference") ≡ some (string p.document_reference)
    → field (codes "currency") ≡ some (string p.currency)
    → field (codes "payer") ≡ some (dump_optional p.payer)
    → field (codes "payee") ≡ some (dump_optional p.payee)
    → read_invoice field ≡ some p
unfolding read_invoice read_extras read_literal
read_invoice-of field p v extras kind milestone reference currency payer payee =
    rw
      (
        extras,
        kind,
        milestone,
        read_text-not_empty p.vendor_milestone v.0,
        reference,
        read_text-not_empty p.document_reference v.1,
        currency,
        read_text-is_currency p.currency v.2,
        payer,
        read_optional-dump p.payer,
        payee,
        read_optional-dump p.payee,
      )
      refl

module _ (c : Coercions) where
  read_line_item-dump :
      (x : InvoiceLineItem) → IsLineItem c x → read_line_item c (dump_line_item c x) ≡ some x
  unfolding read_line_item
  read_line_item-dump x v =
      rw
        (
          read_text-not_empty x.description v.0,
          read_amount-dump c x.amount v.1,
          read_text-is_currency x.currency v.2,
        )
        refl

  read_items-dump :
      (xs : List InvoiceLineItem)
      → All (IsLineItem c) xs
      → read_items c (dump_line_items c xs) ≡ some xs
  unfolding read_items dump_line_items
  read_items-dump [] v = refl
  read_items-dump (x ∷ xs) v = rw (read_line_item-dump x v.0, read_items-dump xs v.1) refl

  -- the fields of a dump, without the discriminator
  read_variant-dump :
      (p : EventPayload)
      → IsValid c p
      → read_variant c (canonical_state p) (get (dump_fields c p)) ≡ some p
  unfolding read_variant dump_fields canonical_state text_eq read_extras read_literal
  read_variant-dump (EventPayload.picked_up p) v =
      let base =
        read_shipment-of (get (dump_fields c (EventPayload.picked_up p))) p.shipment v refl refl
          refl refl refl in
      rw
        (
          base,
          read_optional-dump p.origin_port_code,
          read_optional-dump p.origin_port_name,
          read_optional-dump p.shipper_reference,
        )
        refl
  read_variant-dump (EventPayload.in_transit p) v =
      let base =
        read_shipment-of (get (dump_fields c (EventPayload.in_transit p))) p.shipment v refl refl
          refl refl refl in
      rw
        (
          base,
          read_optional-dump p.vessel_name,
          read_optional-dump p.vessel_imo,
          read_optional-dump p.voyage_number,
          read_optional-dump p.departure_port_code,
          read_optional-dump p.departure_port_name,
        )
        refl
  read_variant-dump (EventPayload.out_for_delivery p) v =
      let base =
        read_shipment-of (get (dump_fields c (EventPayload.out_for_delivery p))) p.shipment v refl
          refl refl refl refl in
      rw
        (
          base,
          read_optional-dump p.destination_port_code,
          read_optional-dump p.destination_port_name,
        )
        refl
  read_variant-dump (EventPayload.delivered p) v =
      let base =
        read_shipment-of (get (dump_fields c (EventPayload.delivered p))) p.shipment v refl refl
          refl refl refl in
      rw
        (
          base,
          read_optional-dump p.consignee,
          read_optional-dump p.delivery_port_code,
          read_optional-dump p.delivery_order_number,
        )
        refl
  read_variant-dump (EventPayload.issued p) v =
      let base =
        read_invoice-of (get (dump_fields c (EventPayload.issued p))) p.invoice v.0 refl refl refl
          refl refl refl refl in
      rw
        (
          base,
          read_amount-dump c p.amount v.1,
          read_datetime-dump c p.issued_at v.2,
          read_optional_datetime-dump c p.due_at v.3,
          read_items-dump p.line_items v.4,
        )
        refl
  read_variant-dump (EventPayload.paid p) v =
      let base =
        read_invoice-of (get (dump_fields c (EventPayload.paid p))) p.invoice v.0 refl refl refl
          refl refl refl refl in
      rw
        (
          base,
          read_amount-dump c p.amount_paid v.1,
          read_datetime-dump c p.settled_at v.2,
          read_optional-dump p.remitter,
          read_optional-dump p.memo,
        )
        refl
  read_variant-dump (EventPayload.voided p) v =
      let base =
        read_invoice-of (get (dump_fields c (EventPayload.voided p))) p.invoice v.0 refl refl refl
          refl refl refl refl in
      rw (base, read_datetime-dump c p.voided_at v.1, read_optional-dump p.void_reason) refl
  read_variant-dump (EventPayload.refunded p) v =
      let base =
        read_invoice-of (get (dump_fields c (EventPayload.refunded p))) p.invoice v.0 refl refl refl
          refl refl refl refl in
      rw
        (
          base,
          read_amount-dump c p.refund_amount v.1,
          read_datetime-dump c p.refunded_at v.2,
          read_optional-dump p.refund_reason,
        )
        refl
  read_variant-dump (EventPayload.unclassified p) v = rw (read_text-not_empty p.reason v) refl

  state_of-name : (s : CanonicalState) → read_tag (some (string (state_name s))) ≡ some s
  unfolding read_tag
  state_of-name CanonicalState.picked_up = refl
  state_of-name CanonicalState.in_transit = refl
  state_of-name CanonicalState.out_for_delivery = refl
  state_of-name CanonicalState.delivered = refl
  state_of-name CanonicalState.issued = refl
  state_of-name CanonicalState.paid = refl
  state_of-name CanonicalState.voided = refl
  state_of-name CanonicalState.refunded = refl
  state_of-name CanonicalState.unclassified = refl

  -- the discriminator of a dump
  dump-tag :
      (p : EventPayload)
      → get (dump_fields c p) (codes "canonical_state")
        ≡ some (string (state_name (canonical_state p)))
  unfolding dump_fields canonical_state text_eq
  dump-tag (EventPayload.picked_up p) = refl
  dump-tag (EventPayload.in_transit p) = refl
  dump-tag (EventPayload.out_for_delivery p) = refl
  dump-tag (EventPayload.delivered p) = refl
  dump-tag (EventPayload.issued p) = refl
  dump-tag (EventPayload.paid p) = refl
  dump-tag (EventPayload.voided p) = refl
  dump-tag (EventPayload.refunded p) = refl
  dump-tag (EventPayload.unclassified p) = refl

  -- A payload that satisfies the constraints of the schema is read back from its dump.
  pub read_payload-model_dump :
      (p : EventPayload) → IsValid c p → read_payload c (model_dump c p) ≡ some p
  unfolding read_payload model_dump
  read_payload-model_dump p v =
      rw (dump-tag p, state_of-name (canonical_state p)) (read_variant-dump p v)
