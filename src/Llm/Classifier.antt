-- ===== src/Llm/Classifier.antt =====
-- app/llm/classifier.py: the classification of a payload. The call of the model is LangChain's.
use glacis.Base.{ℕ, ◌≡◌, ap, ◌∙◌, ◌⊎◌, inl, inr, none, some, List, arith, Text, Option-cases}
use glacis.Core.Json.{Json}
use glacis.Core.Events.{NormalizedEvent}
use glacis.Core.Errors.{validation_error, encode_error, Result, ok, raise}
use glacis.Core.Session.{◌>>=◌, ◌>>◌, ensure, >>=-eq-ok}
use glacis.Core.Validation.Fields.{Coercions}
use glacis.Core.Validation.Read.{model_validate}
use glacis.Core.Validation.Valid.{IsEvent}
use glacis.Core.Validation.Validated.{model_validate-IsEvent}
use glacis.Utils.Hashing.{Hashing}

-- `ainvoke` is the structured model's answer to the user message: it raises, or returns an event that
-- LangChain has built from the schema, or a dict. `message` is the text of a validation error.
pub record Model : Type 0 where
  pub ainvoke : List ℕ → Result (NormalizedEvent ⊎ Json)
  pub message : Json → Text

module _ (c : Coercions) (hashing : Hashing) (model : Model) where
  unfoldable pub validated : Json → Result NormalizedEvent
  validated j = elim (model_validate c j) [
    | none ↦ raise (validation_error (model.message j))
    | some e ↦ ok e
  ]

  -- `isinstance(result, NormalizedEvent)`
  unfoldable pub event_of : NormalizedEvent ⊎ Json → Result NormalizedEvent
  unfolding validated
  event_of (inl e) = ok e
  event_of (inr j) = validated j

  -- the serializer, with its option, is that of the hash
  unfoldable pub classify : Json → Result NormalizedEvent
  unfolding event_of
  classify payload = do
    ensure (hashing.serializes payload) encode_error
    result ← model.ainvoke (hashing.dumps payload)
    event_of result

  validated-IsEvent : (j : Json) (e : NormalizedEvent) → validated j ≡ ok e → IsEvent c e
  unfolding validated
  validated-IsEvent j e h = elim (Option-cases (model_validate c j)) [
    | inl bad ↦ absurd (ground arith)
    | inr (x, good) ↦ model_validate-IsEvent c j e (ground arith)
  ]

  event_of-IsEvent :
      (r : NormalizedEvent ⊎ Json) (e : NormalizedEvent)
      → ((x : NormalizedEvent) → r ≡ inl x → IsEvent c x)
      → event_of r ≡ ok e
      → IsEvent c e
  unfolding event_of
  event_of-IsEvent (inl x) e built h = built e (ground arith)
  event_of-IsEvent (inr j) e built h = validated-IsEvent j e h

  -- If the events that LangChain builds satisfy the schema, so does every event that a
  -- classification returns, also where the model has answered with a dict.
  pub classify-IsEvent :
      (payload : Json) (e : NormalizedEvent)
      → ((x : NormalizedEvent) → model.ainvoke (hashing.dumps payload) ≡ ok (inl x) → IsEvent c x)
      → classify payload ≡ ok e
      → IsEvent c e
  unfolding classify
  classify-IsEvent payload e built h =
      let (_, _, answered) =
        >>=-eq-ok (ensure (hashing.serializes payload) encode_error)
          (λ done. model.ainvoke (hashing.dumps payload) >>= event_of) h in
      let (r, f, h₁) = >>=-eq-ok (model.ainvoke (hashing.dumps payload)) event_of answered in
      event_of-IsEvent r e (λ x same. built x (f ∙ ap ok same)) h₁
