-- ===== src/Core/Validation/Dump.antt =====
-- `model_dump(mode="json")` of a payload: every field, in the order of the classes, with the absent
-- ones as null.
use glacis.Base.{List, [], ◌∷◌, codes}
use glacis.Core.Json.{Json, object, array, string, Members, end, member, Items, nil, item}
use glacis.Core.Events.{
  CanonicalState, EventPayload, ShipmentPayloadBase, InvoicePayloadBase, InvoiceLineItem,
  UnclassifiedPayload,
}
use glacis.Core.Validation.Fields.{Coercions, dump_optional, dump_optional_datetime}
use glacis.Core.Validation.States.{state_name}

-- the fields of the base class, and then the others
abbrev pub dump_shipment : ShipmentPayloadBase → CanonicalState → Members → Members
dump_shipment p state rest = member (codes "extras") (object p.extras) (
    member (codes "entity_type") (string (codes "shipment")) (
      member (codes "vendor_milestone") (string p.vendor_milestone) (
        member (codes "transport_doc_number") (string p.transport_doc_number) (
          member (codes "container_id") (dump_optional p.container_id)
            (member (codes "canonical_state") (string (state_name state)) rest)))))

abbrev pub dump_invoice : InvoicePayloadBase → CanonicalState → Members → Members
dump_invoice p state rest = member (codes "extras") (object p.extras) (
    member (codes "entity_type") (string (codes "invoice")) (
      member (codes "vendor_milestone") (string p.vendor_milestone) (
        member (codes "document_reference") (string p.document_reference) (
          member (codes "currency") (string p.currency) (
            member (codes "payer") (dump_optional p.payer) (
              member (codes "payee") (dump_optional p.payee)
                (member (codes "canonical_state") (string (state_name state)) rest)))))))

abbrev pub dump_unclassified : UnclassifiedPayload → Members
dump_unclassified p = member (codes "extras") (object p.extras) (
    member (codes "entity_type") (string (codes "unclassified")) (
      member (codes "canonical_state") (string (state_name CanonicalState.unclassified))
        (member (codes "reason") (string p.reason) end)))

module _ (c : Coercions) where
  abbrev pub dump_line_item : InvoiceLineItem → Json
  dump_line_item x = object (
      member (codes "description") (string x.description) (
        member (codes "amount") (c.dump_decimal x.amount)
          (member (codes "currency") (string x.currency) end)))

  unfoldable pub dump_line_items : List InvoiceLineItem → Items
  dump_line_items [] = nil
  dump_line_items (x ∷ xs) = item (dump_line_item x) (dump_line_items xs)

  unfoldable pub dump_fields : EventPayload → Members
  unfolding dump_optional dump_optional_datetime dump_line_items
  dump_fields (EventPayload.picked_up p) = dump_shipment p.shipment CanonicalState.picked_up (
      member (codes "origin_port_code") (dump_optional p.origin_port_code) (
        member (codes "origin_port_name") (dump_optional p.origin_port_name)
          (member (codes "shipper_reference") (dump_optional p.shipper_reference) end)))
  dump_fields (EventPayload.in_transit p) = dump_shipment p.shipment CanonicalState.in_transit (
      member (codes "vessel_name") (dump_optional p.vessel_name) (
        member (codes "vessel_imo") (dump_optional p.vessel_imo) (
          member (codes "voyage_number") (dump_optional p.voyage_number) (
            member (codes "departure_port_code") (dump_optional p.departure_port_code)
              (member (codes "departure_port_name") (dump_optional p.departure_port_name) end)))))
  dump_fields (EventPayload.out_for_delivery p) =
      dump_shipment p.shipment CanonicalState.out_for_delivery (
        member (codes "destination_port_code") (dump_optional p.destination_port_code)
          (member (codes "destination_port_name") (dump_optional p.destination_port_name) end))
  dump_fields (EventPayload.delivered p) = dump_shipment p.shipment CanonicalState.delivered (
      member (codes "consignee") (dump_optional p.consignee) (
        member (codes "delivery_port_code") (dump_optional p.delivery_port_code)
          (member (codes "delivery_order_number") (dump_optional p.delivery_order_number) end)))
  dump_fields (EventPayload.issued p) = dump_invoice p.invoice CanonicalState.issued (
      member (codes "amount") (c.dump_decimal p.amount) (
        member (codes "issued_at") (c.dump_datetime p.issued_at) (
          member (codes "due_at") (dump_optional_datetime c p.due_at)
            (member (codes "line_items") (array (dump_line_items p.line_items)) end))))
  dump_fields (EventPayload.paid p) = dump_invoice p.invoice CanonicalState.paid (
      member (codes "amount_paid") (c.dump_decimal p.amount_paid) (
        member (codes "settled_at") (c.dump_datetime p.settled_at) (
          member (codes "remitter") (dump_optional p.remitter)
            (member (codes "memo") (dump_optional p.memo) end))))
  dump_fields (EventPayload.voided p) = dump_invoice p.invoice CanonicalState.voided (
      member (codes "voided_at") (c.dump_datetime p.voided_at)
        (member (codes "void_reason") (dump_optional p.void_reason) end))
  dump_fields (EventPayload.refunded p) = dump_invoice p.invoice CanonicalState.refunded (
      member (codes "refund_amount") (c.dump_decimal p.refund_amount) (
        member (codes "refunded_at") (c.dump_datetime p.refunded_at)
          (member (codes "refund_reason") (dump_optional p.refund_reason) end)))
  dump_fields (EventPayload.unclassified p) = dump_unclassified p

  unfoldable pub model_dump : EventPayload → Json
  unfolding dump_fields
  model_dump p = object (dump_fields p)
