-- ===== src/Llm/Prompts/Required.antt =====
-- The fields that the prompt requires are those that the schema requires.
use glacis.Base.{
  ◌≡◌, refl, sym, ap, subst, ◌∙◌, false, Option, none, some, [], ◌∷◌, arith, codes, text_eq,
  is_none, All,
}
use glacis.Core.Json.{Json, object, string, Members, end}
use glacis.Core.Events.{
  DateTime, Decimal, CanonicalState, EventPayload, NormalizedEvent, canonical_state,
}
use glacis.Core.Validation.Fields.{
  Coercions, get, Source, read_text, not_empty, read_optional, read_literal, read_extras,
  read_datetime, read_optional_datetime, read_amount,
}
use glacis.Core.Validation.Read.{
  read_shipment, read_invoice, read_unclassified, read_line_items, read_variant, read_fields,
  read_payload, read_payload_field, read_confidence, model_validate,
}
use glacis.Core.Validation.States.{read_tag, state_name}
use glacis.Core.Validation.Tags.{read_variant-state, read_payload-canonical_state}
use glacis.Core.Validation.Validated.{>>=-eq-some}
use glacis.Llm.Prompts.{must_set, must_always, only, IsGiven}
use glacis.Llm.Prompts.Shared.{
  read_text-given, read_unclassified-text, read_shipment-required, read_invoice-required,
}

module _ (c : Coercions) where
  read_amount-given : (o : Option Json) (d : Decimal) → read_amount c o ≡ some d → is_none o ≡ false
  unfolding read_amount
  read_amount-given none d h = cc
  read_amount-given (some j) d h = refl

  read_datetime-given :
      (o : Option Json) (d : DateTime) → read_datetime c o ≡ some d → is_none o ≡ false
  unfolding read_datetime
  read_datetime-given none d h = cc
  read_datetime-given (some j) d h = refl

  -- what the prompt requires of the state is given, and is enough
  abbrev pub IsRequired : CanonicalState → Source → Type 0
  IsRequired s field =
      All (IsGiven field) (must_set s)
      × (q : EventPayload) × (read_variant c s (only (must_set s) field) ≡ some q)

  read_variant-IsRequired :
      (s : CanonicalState) (field : Source) (p : EventPayload)
      → read_variant c s field ≡ some p
      → IsRequired s field
  unfolding read_variant read_unclassified read_optional read_optional_datetime read_literal
      read_extras read_line_items text_eq
  read_variant-IsRequired CanonicalState.picked_up field p h =
      let (s, e, _) = >>=-eq-some (read_shipment field) _ h in
      let (m, n, q, f) = read_shipment-required field s e in
      (
        (m, (n, tt)),
        EventPayload.picked_up (record {
          shipment = q;
          origin_port_code = none;
          origin_port_name = none;
          shipper_reference = none;
        }),
        ground (arith, f),
      )
  read_variant-IsRequired CanonicalState.in_transit field p h =
      let (s, e, _) = >>=-eq-some (read_shipment field) _ h in
      let (m, n, q, f) = read_shipment-required field s e in
      (
        (m, (n, tt)),
        EventPayload.in_transit (record {
          shipment = q;
          vessel_name = none;
          vessel_imo = none;
          voyage_number = none;
          departure_port_code = none;
          departure_port_name = none;
        }),
        ground (arith, f),
      )
  read_variant-IsRequired CanonicalState.out_for_delivery field p h =
      let (s, e, _) = >>=-eq-some (read_shipment field) _ h in
      let (m, n, q, f) = read_shipment-required field s e in
      (
        (m, (n, tt)),
        EventPayload.out_for_delivery
            (record { shipment = q; destination_port_code = none; destination_port_name = none }),
        ground (arith, f),
      )
  read_variant-IsRequired CanonicalState.delivered field p h =
      let (s, e, _) = >>=-eq-some (read_shipment field) _ h in
      let (m, n, q, f) = read_shipment-required field s e in
      (
        (m, (n, tt)),
        EventPayload.delivered (record {
          shipment = q;
          consignee = none;
          delivery_port_code = none;
          delivery_order_number = none;
        }),
        ground (arith, f),
      )
  read_variant-IsRequired CanonicalState.issued field p h =
      let (s, e, h₀) = >>=-eq-some (read_invoice field) _ h in
      let (x0, e0, h₁) = >>=-eq-some (read_amount c (field (codes "amount"))) _ h₀ in
      let (x1, e1, _) = >>=-eq-some (read_datetime c (field (codes "issued_at"))) _ h₁ in
      let (m, r, u, q, f) =
        read_invoice-required field (codes "amount" ∷ codes "issued_at" ∷ []) s
          (refl, refl, refl, refl) e in
      (
        (m, (r, (u, (read_amount-given _ x0 e0, (read_datetime-given _ x1 e1, tt))))),
        EventPayload.issued
            (record { invoice = q; amount = x0; issued_at = x1; due_at = none; line_items = [] }),
        ground (arith, f, e0, e1),
      )
  read_variant-IsRequired CanonicalState.paid field p h =
      let (s, e, h₀) = >>=-eq-some (read_invoice field) _ h in
      let (x0, e0, h₁) = >>=-eq-some (read_amount c (field (codes "amount_paid"))) _ h₀ in
      let (x1, e1, _) = >>=-eq-some (read_datetime c (field (codes "settled_at"))) _ h₁ in
      let (m, r, u, q, f) =
        read_invoice-required field (codes "amount_paid" ∷ codes "settled_at" ∷ []) s
          (refl, refl, refl, refl) e in
      (
        (m, (r, (u, (read_amount-given _ x0 e0, (read_datetime-given _ x1 e1, tt))))),
        EventPayload.paid (record {
          invoice = q;
          amount_paid = x0;
          settled_at = x1;
          remitter = none;
          memo = none;
        }),
        ground (arith, f, e0, e1),
      )
  read_variant-IsRequired CanonicalState.voided field p h =
      let (s, e, h₀) = >>=-eq-some (read_invoice field) _ h in
      let (x0, e0, _) = >>=-eq-some (read_datetime c (field (codes "voided_at"))) _ h₀ in
      let (m, r, u, q, f) =
        read_invoice-required field (codes "voided_at" ∷ []) s (refl, refl, refl, refl) e in
      (
        (m, (r, (u, (read_datetime-given _ x0 e0, tt)))),
        EventPayload.voided (record { invoice = q; voided_at = x0; void_reason = none }),
        ground (arith, f, e0),
      )
  read_variant-IsRequired CanonicalState.refunded field p h =
      let (s, e, h₀) = >>=-eq-some (read_invoice field) _ h in
      let (x0, e0, h₁) = >>=-eq-some (read_amount c (field (codes "refund_amount"))) _ h₀ in
      let (x1, e1, _) = >>=-eq-some (read_datetime c (field (codes "refunded_at"))) _ h₁ in
      let (m, r, u, q, f) =
        read_invoice-required field (codes "refund_amount" ∷ codes "refunded_at" ∷ []) s
          (refl, refl, refl, refl) e in
      (
        (m, (r, (u, (read_amount-given _ x0 e0, (read_datetime-given _ x1 e1, tt))))),
        EventPayload.refunded
            (record { invoice = q; refund_amount = x0; refunded_at = x1; refund_reason = none }),
        ground (arith, f, e0, e1),
      )
  read_variant-IsRequired CanonicalState.unclassified field p h =
      let (u, e, _) = >>=-eq-some (read_unclassified field) _ h in
      let reason = read_unclassified-text field u e in
      (
        (read_text-given not_empty _ _ reason, tt),
        EventPayload.unclassified (record { base = record { extras = end }; reason = u.reason }),
        ground (arith, reason),
      )

  -- what the prompt asks for, in the dict that an event was read from
  pub record IsPrompted (m : Members) (e : NormalizedEvent) : Type 0 where
    pub always : All (IsGiven (get m)) must_always
    pub members : Members
    pub nested : get m (codes "payload") ≡ some (object members)
    pub state :
        get members (codes "canonical_state")
        ≡ some (string (state_name (canonical_state e.payload)))
    pub required : IsRequired (canonical_state e.payload) (get members)

  payload-IsRequired :
      (o : Option Json) (p : EventPayload)
      → read_payload_field c o ≡ some p
      → (d : Members) × (o ≡ some (object d))
        × (get d (codes "canonical_state") ≡ some (string (state_name (canonical_state p))))
        × IsRequired (canonical_state p) (get d)
  unfolding read_payload_field read_payload read_fields
  payload-IsRequired none p h = cc
  payload-IsRequired (some (object d)) p h =
      let (s, tag, h₁) = >>=-eq-some (read_tag (get d (codes "canonical_state"))) _ h in
      (
        d,
        refl,
        read_payload-canonical_state c d p h,
        subst (λ x. IsRequired x (get d)) (sym (read_variant-state c s (get d) p h₁))
            (read_variant-IsRequired s (get d) p h₁),
      )
  payload-IsRequired (some _) p h = cc

  -- An answer of the model that validates has `vendor` and `event_at`, and nests the rest under
  -- `payload`, with the text of its state under `canonical_state` and every field that the prompt
  -- says must be set for this state; and these fields are enough, since the payload validates with
  -- them alone.
  pub model_validate-IsPrompted :
      (m : Members) (e : NormalizedEvent) → model_validate c (object m) ≡ some e → IsPrompted m e
  unfolding model_validate
  model_validate-IsPrompted m e h =
      let (vendor, h₀, k₀) = >>=-eq-some (read_text not_empty (get m (codes "vendor"))) _ h in
      let (event_at, h₁, k₁) = >>=-eq-some (read_datetime c (get m (codes "event_at"))) _ k₀ in
      let (confidence, h₂, k₂) =
        >>=-eq-some (read_confidence c (get m (codes "confidence"))) _ k₁ in
      let (payload, h₃, k₃) = >>=-eq-some (read_payload_field c (get m (codes "payload"))) _ k₂ in
      let same : payload ≡ e.payload = ground (arith, k₃) in
      let (d, nested, tag, required) =
        payload-IsRequired (get m (codes "payload")) e.payload (h₃ ∙ ap some same) in
      record {
        always = (read_text-given not_empty _ _ h₀, (read_datetime-given _ _ h₁, tt));
        members = d;
        nested = nested;
        state = tag;
        required = required;
      }
