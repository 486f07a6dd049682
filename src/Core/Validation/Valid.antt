-- ===== src/Core/Validation/Valid.antt =====
-- The constraints of the schema, as a predicate on a typed payload.
use glacis.Base.{ℕ, ◌≤◌, ◌⊎◌, ◌≡◌, All}
use glacis.Core.Events.{
  EventPayload, NormalizedEvent, ShipmentPayloadBase, InvoicePayloadBase, InvoiceLineItem,
}
use glacis.Core.Validation.Fields.{
  Coercions, IsNotEmpty, IsCurrency, IsDatetime, IsOptionalDatetime, IsAmount,
}

abbrev pub IsShipment : ShipmentPayloadBase → Type 0
IsShipment p = IsNotEmpty p.vendor_milestone × IsNotEmpty p.transport_doc_number

abbrev pub IsInvoice : InvoicePayloadBase → Type 0
IsInvoice p =
    IsNotEmpty p.vendor_milestone × IsNotEmpty p.document_reference × IsCurrency p.currency

-- from 0 to 1, as the bits of a float: the positive ones in order, and negative zero
abbrev pub IsUnit : ℕ → Type 0
IsUnit bits = (bits ≤ 4607182418800017408) ⊎ (bits ≡ 9223372036854775808)

module _ (c : Coercions) where
  abbrev pub IsLineItem : InvoiceLineItem → Type 0
  IsLineItem x = IsNotEmpty x.description × IsAmount c x.amount × IsCurrency x.currency

  abbrev pub IsValid : EventPayload → Type 0
  IsValid (EventPayload.picked_up p) = IsShipment p.shipment
  IsValid (EventPayload.in_transit p) = IsShipment p.shipment
  IsValid (EventPayload.out_for_delivery p) = IsShipment p.shipment
  IsValid (EventPayload.delivered p) = IsShipment p.shipment
  IsValid (EventPayload.issued p) =
      IsInvoice p.invoice
      × IsAmount c p.amount
      × IsDatetime c p.issued_at
      × IsOptionalDatetime c p.due_at
      × All IsLineItem p.line_items
  IsValid (EventPayload.paid p) =
      IsInvoice p.invoice × IsAmount c p.amount_paid × IsDatetime c p.settled_at
  IsValid (EventPayload.voided p) = IsInvoice p.invoice × IsDatetime c p.voided_at
  IsValid (EventPayload.refunded p) =
      IsInvoice p.invoice × IsAmount c p.refund_amount × IsDatetime c p.refunded_at
  IsValid (EventPayload.unclassified p) = IsNotEmpty p.reason

  -- the constraints of the envelope
  pub record IsEvent (e : NormalizedEvent) : Type 0 where
    pub vendor : IsNotEmpty e.vendor
    pub event_at : IsDatetime c e.event_at
    pub confidence : IsUnit e.confidence
    pub payload : IsValid e.payload
