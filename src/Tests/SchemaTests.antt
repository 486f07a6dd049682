-- ===== src/Tests/SchemaTests.antt =====
-- Validation, dump and classification at concrete inputs.
use glacis.Base.{
  ℕ, ◌≡◌, refl, true, false, Option, none, some, List, [], ◌∷◌, arith, Text, codes, inl, inr,
  text_eq, text_eq_sound, Bool-cases, All,
}
use glacis.Core.Json.{
  pos, Json, null, integer, float, string, object, array, Members, end, member, nil, item,
}
use glacis.Core.Events.{DateTime, Decimal, east, EventPayload, NormalizedEvent}
use glacis.Core.Errors.{ok}
use glacis.Core.Validation.Fields.{
  Coercions, get, read_text, read_optional, read_literal, read_extras, read_datetime,
  read_optional_datetime, read_amount,
}
use glacis.Core.Validation.Read.{
  read_invoice, read_line_item, read_items, read_line_items, read_variant, read_fields,
  read_payload, read_payload_field, read_confidence, model_validate, is_one_of,
}
use glacis.Core.Validation.States.{state_of, read_tag}
use glacis.Core.Validation.Valid.{IsEvent}
use glacis.Core.Validation.Validated.{model_validate-IsEvent}
use glacis.Llm.Prompts.Required.{IsPrompted, model_validate-IsPrompted}
use glacis.Core.Validation.Ignored.{field_names, read_payload-agree}
use glacis.Llm.Classifier.{Model, validated, event_of, classify}
use glacis.Tests.Fixtures.{hashing}

-- times and amounts as natural numbers
abbrev pub parse_datetime : Json → Option DateTime
parse_datetime (integer (pos n)) = some (record { wall = n; tzinfo = some (east 0) })
parse_datetime _ = none

abbrev pub parse_decimal : Json → Option Decimal
parse_decimal (integer (pos n)) = some (record { negative = false; digits = n; exponent = pos 0 })
parse_decimal _ = none

abbrev pub parse_float : Json → Option ℕ
parse_float (float bits) = some bits
parse_float _ = none

abbrev pub dump_datetime : DateTime → Json
dump_datetime d = integer (pos d.wall)

abbrev pub dump_decimal : Decimal → Json
dump_decimal d = integer (pos d.digits)

pub parse-dump_datetime :
    (j : Json) (d : DateTime)
    → parse_datetime j ≡ some d
    → parse_datetime (dump_datetime d) ≡ some d
parse-dump_datetime (integer (pos n)) d h = ground arith
parse-dump_datetime _ d h = cc

pub parse-dump_decimal :
    (j : Json) (d : Decimal) → parse_decimal j ≡ some d → parse_decimal (dump_decimal d) ≡ some d
parse-dump_decimal (integer (pos n)) d h = ground arith
parse-dump_decimal _ d h = cc

pub dump_datetime-not_null : (d : DateTime) → dump_datetime d ≡ null → ⊥
dump_datetime-not_null d h = cc

abbrev pub coercions : Coercions
coercions = record {
  parse_datetime = parse_datetime;
  parse_decimal = parse_decimal;
  parse_float = parse_float;
  dump_datetime = dump_datetime;
  dump_decimal = dump_decimal;
  parse-dump_datetime = parse-dump_datetime;
  parse-dump_decimal = parse-dump_decimal;
  dump_datetime-not_null = dump_datetime-not_null;
}

-- an invoice with a line item, and a key that the schema does not know
abbrev pub line_item : Json
line_item = object (
    member (codes "description") (string (codes "freight")) (
      member (codes "amount") (integer (pos 70))
        (member (codes "currency") (string (codes "EUR")) end)))

abbrev pub fields : Members → Members
fields rest = member (codes "vendor_milestone") (string (codes "issued")) (
    member (codes "document_reference") (string (codes "INV7")) (
      member (codes "currency") (string (codes "EUR")) (
        member (codes "amount") (integer (pos 70)) (
          member (codes "issued_at") (integer (pos 5))
            (member (codes "line_items") (array (item line_item nil)) rest)))))

abbrev pub tag : Members → Members
tag rest = member (codes "canonical_state") (string (codes "ISSUED")) rest

abbrev pub invoice_dict : Members
invoice_dict = tag (fields (member (codes "issuer") null end))

abbrev reordered_dict : Members
reordered_dict = fields (tag end)

abbrev pub issued : EventPayload
issued = EventPayload.issued (record {
  invoice = record {
    base = record { extras = end };
    vendor_milestone = codes "issued";
    document_reference = codes "INV7";
    currency = codes "EUR";
    payer = none;
    payee = none;
  };
  amount = record { negative = false; digits = 70; exponent = pos 0 };
  issued_at = record { wall = 5; tzinfo = some (east 0) };
  due_at = none;
  line_items =
      record {
        description = codes "freight";
        amount = record { negative = false; digits = 70; exponent = pos 0 };
        currency = codes "EUR";
      }
      ∷ [];
})

-- two dicts agree on a list of keys, by each of them
agree-each :
    (m m' : Members) (names : List Text)
    → All (λ name. get m name ≡ get m' name) names
    → (key : Text) → is_one_of names key ≡ true
    → get m key ≡ get m' key
agree-each m m' [] each key known = cc
agree-each m m' (name ∷ names) each key known = elim (Bool-cases (text_eq key name)) [
  | inl this ↦ rw (text_eq_sound key name this) each.0
  | inr other ↦ agree-each m m' names each.1 key (ground arith)
]

agree-invoice : All (λ name. get invoice_dict name ≡ get reordered_dict name) field_names
unfolding text_eq
agree-invoice = ground arith

read_payload-agree_example :
    read_payload coercions (object invoice_dict) ≡ read_payload coercions (object reordered_dict)
read_payload-agree_example =
    read_payload-agree coercions invoice_dict reordered_dict
      (agree-each invoice_dict reordered_dict field_names agree-invoice)

-- the envelope
abbrev pub envelope_members : Members → Members
envelope_members payload =
    member (codes "vendor") (string (codes "ACME"))
      (member (codes "event_at") (integer (pos 9)) (member (codes "payload") (object payload) end))

abbrev pub envelope : Members → Json
envelope payload = object (envelope_members payload)

abbrev pub invoice_event : NormalizedEvent
invoice_event = record {
  vendor = codes "ACME";
  event_at = record { wall = 9; tzinfo = some (east 0) };
  confidence = 4607182418800017408;
  payload = issued;
}

validate_envelope : model_validate coercions (envelope invoice_dict) ≡ some invoice_event
unfolding model_validate read_payload_field read_payload read_fields read_tag read_variant
    read_invoice read_amount read_datetime read_optional_datetime read_line_items read_line_item
    read_items read_text read_optional read_literal read_extras read_confidence state_of text_eq
validate_envelope = refl

model_validate-IsEvent_example : IsEvent coercions invoice_event
model_validate-IsEvent_example =
    model_validate-IsEvent coercions (envelope invoice_dict) invoice_event validate_envelope

model_validate-IsPrompted_example :
    IsPrompted coercions (envelope_members invoice_dict) invoice_event
model_validate-IsPrompted_example =
    model_validate-IsPrompted coercions (envelope_members invoice_dict) invoice_event
      validate_envelope

-- a model that answers with a dict
abbrev pub model : Model
model = record {
  ainvoke = λ prompt. ok (inr (envelope invoice_dict));
  message = λ j. codes "error";
}

pub classify_dict : classify coercions hashing model (object invoice_dict) ≡ ok invoice_event
unfolding classify event_of validated
classify_dict = ground (arith, validate_envelope)

pub never_built :
    (x : NormalizedEvent)
    → model.ainvoke (hashing.dumps (object invoice_dict)) ≡ ok (inl x)
    → IsEvent coercions x
never_built x h = absurd (cc)
