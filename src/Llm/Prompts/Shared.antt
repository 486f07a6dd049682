-- ===== src/Llm/Prompts/Shared.antt =====
-- The fields that the kinds of payload share, and those that the prompt requires of them.
use glacis.Base.{
  ◌≡◌, refl, Bool, false, Option, none, some, List, arith, Text, codes, text_eq, is_none,
}
use glacis.Core.Json.{Json, end}
use glacis.Core.Events.{ShipmentPayloadBase, InvoicePayloadBase, UnclassifiedPayload}
use glacis.Core.Validation.Fields.{
  Source, read_text, not_empty, is_currency, read_optional, read_literal, read_extras,
}
use glacis.Core.Validation.Read.{is_one_of, read_shipment, read_invoice, read_unclassified}
use glacis.Llm.Prompts.{shipment_fields, invoice_and, only, IsGiven}

-- the other fields of an invoice, which are optional
abbrev pub HasNoOptional : List Text → Type 0
HasNoOptional names =
    (is_one_of names (codes "extras") ≡ false)
    × (is_one_of names (codes "entity_type") ≡ false)
    × (is_one_of names (codes "payer") ≡ false)
    × (is_one_of names (codes "payee") ≡ false)

pub read_text-given :
    (bounds : Text → Bool) (o : Option Json) (t : Text)
    → read_text bounds o ≡ some t
    → is_none o ≡ false
unfolding read_text
read_text-given bounds none t h = cc
read_text-given bounds (some j) t h = refl

read_shipment-texts :
    (field : Source) (p : ShipmentPayloadBase)
    → read_shipment field ≡ some p
    → (read_text not_empty (field (codes "vendor_milestone")) ≡ some p.vendor_milestone)
      × (read_text not_empty (field (codes "transport_doc_number")) ≡ some p.transport_doc_number)
unfolding read_shipment
read_shipment-texts field p h = ground arith

read_invoice-texts :
    (field : Source) (p : InvoicePayloadBase)
    → read_invoice field ≡ some p
    → (read_text not_empty (field (codes "vendor_milestone")) ≡ some p.vendor_milestone)
      × (read_text not_empty (field (codes "document_reference")) ≡ some p.document_reference)
      × (read_text is_currency (field (codes "currency")) ≡ some p.currency)
unfolding read_invoice
read_invoice-texts field p h = ground arith

pub read_unclassified-text :
    (field : Source) (p : UnclassifiedPayload)
    → read_unclassified field ≡ some p
    → read_text not_empty (field (codes "reason")) ≡ some p.reason
unfolding read_unclassified
read_unclassified-text field p h = ground arith

-- a dict of a shipment, and one with the required keys only
pub read_shipment-required :
    (field : Source) (p : ShipmentPayloadBase)
    → read_shipment field ≡ some p
    → IsGiven field (codes "vendor_milestone")
      × IsGiven field (codes "transport_doc_number")
      × (q : ShipmentPayloadBase) × (read_shipment (only shipment_fields field) ≡ some q)
unfolding read_shipment read_optional read_literal read_extras text_eq
read_shipment-required field p h =
    let (milestone, number) = read_shipment-texts field p h in
    (
      read_text-given not_empty _ _ milestone,
      read_text-given not_empty _ _ number,
      record {
        base = record { extras = end };
        vendor_milestone = p.vendor_milestone;
        transport_doc_number = p.transport_doc_number;
        container_id = none;
      },
      ground (arith, milestone, number),
    )

pub read_invoice-required :
    (field : Source) (names : List Text) (p : InvoicePayloadBase)
    → HasNoOptional names
    → read_invoice field ≡ some p
    → IsGiven field (codes "vendor_milestone")
      × IsGiven field (codes "document_reference")
      × IsGiven field (codes "currency")
      × (q : InvoicePayloadBase) × (read_invoice (only (invoice_and names) field) ≡ some q)
unfolding read_invoice read_optional read_literal read_extras text_eq
read_invoice-required field names p (e, t, r, y) h =
    let (milestone, reference, currency) = read_invoice-texts field p h in
    (
      read_text-given not_empty _ _ milestone,
      read_text-given not_empty _ _ reference,
      read_text-given is_currency _ _ currency,
      record {
        base = record { extras = end };
        vendor_milestone = p.vendor_milestone;
        document_reference = p.document_reference;
        currency = p.currency;
        payer = none;
        payee = none;
      },
      ground (arith, e, t, r, y, milestone, reference, currency),
    )
