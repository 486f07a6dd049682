-- ===== src/Core/Validation/Tags.antt =====
-- The discriminator of the union: which variant a dict becomes.
use glacis.Base.{
  ◌≡◌, sym, ap, ◌∙◌, Option, none, some, List, [], ◌∷◌, arith, Text, codes, text_eq, text_eq_sound,
  Bool-cases, inl, inr,
}
use glacis.Core.Json.{Json, object, string, Members}
use glacis.Core.Events.{CanonicalState, EventPayload, canonical_state}
use glacis.Core.Validation.Fields.{Coercions, get, Source}
use glacis.Core.Validation.Read.{read_variant, read_fields, read_payload}
use glacis.Core.Validation.States.{state_name, states, find_state, read_tag}
use glacis.Core.Validation.Validated.{>>=-eq-some}

find_state-name :
    (t : Text) (candidates : List CanonicalState) (s : CanonicalState)
    → find_state t candidates ≡ some s
    → t ≡ state_name s
find_state-name t [] s h = cc
find_state-name t (x ∷ rest) s h = elim (Bool-cases (text_eq t (state_name x))) [
  | inl hit ↦
      let found : some x ≡ some s = rw hit at h in
      text_eq_sound t (state_name x) hit ∙ ap state_name (cc)
  | inr miss ↦ find_state-name t rest s (rw miss at h)
]

read_tag-name :
    (o : Option Json) (s : CanonicalState) → read_tag o ≡ some s → o ≡ some (string (state_name s))
unfolding read_tag
read_tag-name none s h = cc
read_tag-name (some (string t)) s h = ap (λ x. some (string x)) (find_state-name t states s h)
read_tag-name (some _) s h = cc

module _ (c : Coercions) where
  -- a variant is that of its state
  pub read_variant-state :
      (s : CanonicalState) (field : Source) (p : EventPayload)
      → read_variant c s field ≡ some p
      → canonical_state p ≡ s
  unfolding read_variant canonical_state
  read_variant-state CanonicalState.picked_up field p h = ground arith
  read_variant-state CanonicalState.in_transit field p h = ground arith
  read_variant-state CanonicalState.out_for_delivery field p h = ground arith
  read_variant-state CanonicalState.delivered field p h = ground arith
  read_variant-state CanonicalState.issued field p h = ground arith
  read_variant-state CanonicalState.paid field p h = ground arith
  read_variant-state CanonicalState.voided field p h = ground arith
  read_variant-state CanonicalState.refunded field p h = ground arith
  read_variant-state CanonicalState.unclassified field p h = ground arith

  -- A dict that validates as a payload has the `canonical_state` of the payload's variant, as the
  -- text that the schema gives this state: no other text, and no missing key, selects a variant.
  pub read_payload-canonical_state :
      (m : Members) (p : EventPayload)
      → read_payload c (object m) ≡ some p
      → get m (codes "canonical_state") ≡ some (string (state_name (canonical_state p)))
  unfolding read_payload read_fields
  read_payload-canonical_state m p h =
      let (s, e, h₁) = >>=-eq-some (read_tag (get m (codes "canonical_state"))) _ h in
      read_tag-name (get m (codes "canonical_state")) s e
      ∙ ap (λ x. some (string (state_name x))) (sym (read_variant-state s (get m) p h₁))
