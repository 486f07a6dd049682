-- ===== src/Core/Events.antt =====
-- app/core/events.py: the typed events that the classifier returns.
-- A pydantic field `x: T` is a record field, `x: T | None` an `Option`; a subclass opens its base.
-- `canonical_state` and `entity_type`, which are literals, are computed from the variant.
use glacis.Base.{ℕ, Bool, Option, none, some, List, Text}
use glacis.Core.Json.{ℤ, Members}

pub data CanonicalState : Type 0 where
  picked_up in_transit out_for_delivery delivered : CanonicalState
  issued paid voided refunded : CanonicalState
  unclassified : CanonicalState

pub data EntityType : Type 0 where
  shipment invoice unclassified : EntityType

-- The offset of an aware datetime from UTC, in microseconds.
pub data Offset : Type 0 where
  east west : ℕ → Offset

-- `wall` counts the microseconds from `datetime.min` on the datetime's own clock.
pub record DateTime : Type 0 where
  pub wall : ℕ
  pub tzinfo : Option Offset

-- (-1)^negative * digits * 10^exponent
pub record Decimal : Type 0 where
  pub negative : Bool
  pub digits : ℕ
  pub exponent : ℤ

pub record PayloadBase : Type 0 where
  pub extras : Members

pub record ShipmentPayloadBase : Type 0 where
  pub base : PayloadBase
  pub open base use *
  pub vendor_milestone : Text
  pub transport_doc_number : Text
  pub container_id : Option Text

pub record InvoicePayloadBase : Type 0 where
  pub base : PayloadBase
  pub open base use *
  pub vendor_milestone : Text
  pub document_reference : Text
  pub currency : Text
  pub payer : Option Text
  pub payee : Option Text

pub record ShipmentPickedUpPayload : Type 0 where
  pub shipment : ShipmentPayloadBase
  pub open shipment use *
  pub origin_port_code : Option Text
  pub origin_port_name : Option Text
  pub shipper_reference : Option Text

pub record ShipmentInTransitPayload : Type 0 where
  pub shipment : ShipmentPayloadBase
  pub open shipment use *
  pub vessel_name : Option Text
  pub vessel_imo : Option Text
  pub voyage_number : Option Text
  pub departure_port_code : Option Text
  pub departure_port_name : Option Text

pub record ShipmentOutForDeliveryPayload : Type 0 where
  pub shipment : ShipmentPayloadBase
  pub open shipment use *
  pub destination_port_code : Option Text
  pub destination_port_name : Option Text

pub record ShipmentDeliveredPayload : Type 0 where
  pub shipment : ShipmentPayloadBase
  pub open shipment use *
  pub consignee : Option Text
  pub delivery_port_code : Option Text
  pub delivery_order_number : Option Text

pub record InvoiceLineItem : Type 0 where
  pub description : Text
  pub amount : Decimal
  pub currency : Text

pub record InvoiceIssuedPayload : Type 0 where
  pub invoice : InvoicePayloadBase
  pub open invoice use *
  pub amount : Decimal
  pub issued_at : DateTime
  pub due_at : Option DateTime
  pub line_items : List InvoiceLineItem

pub record InvoicePaidPayload : Type 0 where
  pub invoice : InvoicePayloadBase
  pub open invoice use *
  pub amount_paid : Decimal
  pub settled_at : DateTime
  pub remitter : Option Text
  pub memo : Option Text

pub record InvoiceVoidedPayload : Type 0 where
  pub invoice : InvoicePayloadBase
  pub open invoice use *
  pub voided_at : DateTime
  pub void_reason : Option Text

pub record InvoiceRefundedPayload : Type 0 where
  pub invoice : InvoicePayloadBase
  pub open invoice use *
  pub refund_amount : Decimal
  pub refunded_at : DateTime
  pub refund_reason : Option Text

pub record UnclassifiedPayload : Type 0 where
  pub base : PayloadBase
  pub open base use *
  pub reason : Text

pub data EventPayload : Type 0 where
  picked_up : ShipmentPickedUpPayload → EventPayload
  in_transit : ShipmentInTransitPayload → EventPayload
  out_for_delivery : ShipmentOutForDeliveryPayload → EventPayload
  delivered : ShipmentDeliveredPayload → EventPayload
  issued : InvoiceIssuedPayload → EventPayload
  paid : InvoicePaidPayload → EventPayload
  voided : InvoiceVoidedPayload → EventPayload
  refunded : InvoiceRefundedPayload → EventPayload
  unclassified : UnclassifiedPayload → EventPayload

-- `confidence` is the pattern of the float's 64 bits.
pub record NormalizedEvent : Type 0 where
  pub vendor : Text
  pub event_at : DateTime
  pub confidence : ℕ
  pub payload : EventPayload

unfoldable pub canonical_state : EventPayload → CanonicalState
canonical_state (EventPayload.picked_up p) = CanonicalState.picked_up
canonical_state (EventPayload.in_transit p) = CanonicalState.in_transit
canonical_state (EventPayload.out_for_delivery p) = CanonicalState.out_for_delivery
canonical_state (EventPayload.delivered p) = CanonicalState.delivered
canonical_state (EventPayload.issued p) = CanonicalState.issued
canonical_state (EventPayload.paid p) = CanonicalState.paid
canonical_state (EventPayload.voided p) = CanonicalState.voided
canonical_state (EventPayload.refunded p) = CanonicalState.refunded
canonical_state (EventPayload.unclassified p) = CanonicalState.unclassified

unfoldable pub entity_type : EventPayload → EntityType
entity_type (EventPayload.picked_up p) = EntityType.shipment
entity_type (EventPayload.in_transit p) = EntityType.shipment
entity_type (EventPayload.out_for_delivery p) = EntityType.shipment
entity_type (EventPayload.delivered p) = EntityType.shipment
entity_type (EventPayload.issued p) = EntityType.invoice
entity_type (EventPayload.paid p) = EntityType.invoice
entity_type (EventPayload.voided p) = EntityType.invoice
entity_type (EventPayload.refunded p) = EntityType.invoice
entity_type (EventPayload.unclassified p) = EntityType.unclassified

-- `getattr(self.payload, "vendor_milestone", None)`
unfoldable pub vendor_milestone : EventPayload → Option Text
vendor_milestone (EventPayload.picked_up p) = some p.vendor_milestone
vendor_milestone (EventPayload.in_transit p) = some p.vendor_milestone
vendor_milestone (EventPayload.out_for_delivery p) = some p.vendor_milestone
vendor_milestone (EventPayload.delivered p) = some p.vendor_milestone
vendor_milestone (EventPayload.issued p) = some p.vendor_milestone
vendor_milestone (EventPayload.paid p) = some p.vendor_milestone
vendor_milestone (EventPayload.voided p) = some p.vendor_milestone
vendor_milestone (EventPayload.refunded p) = some p.vendor_milestone
vendor_milestone (EventPayload.unclassified p) = none

-- the natural key of the entity
unfoldable pub external_ref : EventPayload → Option Text
external_ref (EventPayload.picked_up p) = some p.transport_doc_number
external_ref (EventPayload.in_transit p) = some p.transport_doc_number
external_ref (EventPayload.out_for_delivery p) = some p.transport_doc_number
external_ref (EventPayload.delivered p) = some p.transport_doc_number
external_ref (EventPayload.issued p) = some p.document_reference
external_ref (EventPayload.paid p) = some p.document_reference
external_ref (EventPayload.voided p) = some p.document_reference
external_ref (EventPayload.refunded p) = some p.document_reference
external_ref (EventPayload.unclassified p) = none
