-- ===== src/Core/Validation/Fields.antt =====
-- One field of a pydantic model, by its annotation. Text is strict: only a string is one.
use glacis.Base.{
  ◌≤◌, ◌∙◌, ℕ, ◌≡◌, refl, Bool, true, false, not, ◌&&◌, ◌||◌, Option, none, some, arith, Text,
  text_eq, length, leb, ◌==◌, if◌then◌else◌, ◌⊎◌, inl, inr, Bool-cases,
}
use glacis.Core.Json.{Json, null, string, object, Members, end, member}
use glacis.Core.Events.{DateTime, Decimal}

-- a validation error ends the sequence
infixl 5 ◌>>=◌ ◌>>◌
abbrev pub ◌>>=◌ {ℓ κ} : {A : Type ℓ} {B : Type κ} → Option A → (A → Option B) → Option B
none >>= rest = none
some a >>= rest = rest a

abbrev pub ◌>>◌ {κ} : {B : Type κ} → Option (Unit {0}) → Option B → Option B
first >> rest = first >>= (λ done. rest)

abbrev pub ensure : Bool → Option (Unit {0})
ensure false = none
ensure true = some tt

-- What pydantic makes of a JSON value where the annotation is `datetime`, `Decimal` or `float`, and
-- how it writes the first two. A value that it has made is read back from what it writes.
pub record Coercions : Type 0 where
  pub parse_datetime : Json → Option DateTime
  pub parse_decimal : Json → Option Decimal
  pub parse_float : Json → Option ℕ
  pub dump_datetime : DateTime → Json
  pub dump_decimal : Decimal → Json
  pub parse-dump_datetime :
      (j : Json) (d : DateTime)
      → parse_datetime j ≡ some d
      → parse_datetime (dump_datetime d) ≡ some d
  pub parse-dump_decimal :
      (j : Json) (d : Decimal) → parse_decimal j ≡ some d → parse_decimal (dump_decimal d) ≡ some d
  pub dump_datetime-not_null : (d : DateTime) → dump_datetime d ≡ null → ⊥

-- the value of a key of a dict
abbrev pub get : Members → Text → Option Json
get end key = none
get (member k v rest) key = if text_eq key k then some v else get rest key

-- the keyword arguments of a model
abbrev pub Source : Type 0
Source = Text → Option Json

-- `str`, with `min_length` and perhaps `max_length`
unfoldable pub read_text : (Text → Bool) → Option Json → Option Text
read_text bounds (some (string t)) = if bounds t then some t else none
read_text bounds _ = none

abbrev pub not_empty : Text → Bool
not_empty t = leb 1 (length t)

-- min_length=3, max_length=3
abbrev pub is_currency : Text → Bool
is_currency t = leb 3 (length t) && leb (length t) 3

-- `str | None = None`
unfoldable pub read_optional : Option Json → Option (Option Text)
read_optional none = some none
read_optional (some null) = some none
read_optional (some (string t)) = some (some t)
read_optional (some _) = none

-- `Literal[t] = t`
unfoldable pub read_literal : Text → Option Json → Option (Unit {0})
unfolding text_eq
read_literal expected none = some tt
read_literal expected (some (string t)) = ensure (text_eq t expected)
read_literal expected (some _) = none

-- `dict[str, Any] = Field(default_factory=dict)`
unfoldable pub read_extras : Option Json → Option Members
read_extras none = some end
read_extras (some (object m)) = some m
read_extras (some _) = none

-- `ge=0`, which a negative zero passes
abbrev pub is_not_negative : Decimal → Bool
is_not_negative d = not d.negative || (d.digits == 0)

module _ (c : Coercions) where
  unfoldable pub read_datetime : Option Json → Option DateTime
  read_datetime none = none
  read_datetime (some j) = c.parse_datetime j

  -- `datetime | None = None`
  unfoldable pub read_optional_datetime : Option Json → Option (Option DateTime)
  read_optional_datetime none = some none
  read_optional_datetime (some null) = some none
  read_optional_datetime (some j) = do d ← c.parse_datetime j; some (some d)

  -- `Decimal = Field(ge=0)`
  unfoldable pub read_amount : Option Json → Option Decimal
  read_amount none = none
  read_amount (some j) = do d ← c.parse_decimal j; ensure (is_not_negative d); some d

-- how `model_dump(mode="json")` writes an optional text
unfoldable pub dump_optional : Option Text → Json
dump_optional none = null
dump_optional (some t) = string t

pub read_optional-dump : (o : Option Text) → read_optional (some (dump_optional o)) ≡ some o
unfolding read_optional dump_optional
read_optional-dump none = refl
read_optional-dump (some t) = refl

-- what the bounds of a text and of an amount say
abbrev pub IsNotEmpty : Text → Type 0
IsNotEmpty t = 1 ≤ length t

abbrev pub IsCurrency : Text → Type 0
IsCurrency t = length t ≡ 3

abbrev pub IsNotNegative : Decimal → Type 0
IsNotNegative d = (d.negative ≡ false) ⊎ (d.digits ≡ 0)

pub read_text-not_empty : (t : Text) → IsNotEmpty t → read_text not_empty (some (string t)) ≡ some t
unfolding read_text
read_text-not_empty t h = ground arith

pub read_text-is_currency :
    (t : Text) → IsCurrency t → read_text is_currency (some (string t)) ≡ some t
unfolding read_text
read_text-is_currency t h = ground arith

-- a text that was read keeps the bounds
read_text-bounds :
    (bounds : Text → Bool) (o : Option Json) (t : Text)
    → read_text bounds o ≡ some t
    → bounds t ≡ true
unfolding read_text
read_text-bounds bounds none t h = cc
read_text-bounds bounds (some (string s)) t h = ground arith
read_text-bounds bounds (some _) t h = cc

pub read_text-IsNotEmpty :
    (o : Option Json) (t : Text) → read_text not_empty o ≡ some t → IsNotEmpty t
read_text-IsNotEmpty o t h = ground (arith, read_text-bounds not_empty o t h)

pub read_text-IsCurrency :
    (o : Option Json) (t : Text) → read_text is_currency o ≡ some t → IsCurrency t
read_text-IsCurrency o t h = ground (arith, read_text-bounds is_currency o t h)

is_not_negative-of : (d : Decimal) → IsNotNegative d → is_not_negative d ≡ true
is_not_negative-of d (inl positive) = rw positive refl
is_not_negative-of d (inr nil) = ground arith

is_not_negative-IsNotNegative : (d : Decimal) → is_not_negative d ≡ true → IsNotNegative d
is_not_negative-IsNotNegative d h = elim (Bool-cases d.negative) [
  | inl minus ↦ inr (ground arith)
  | inr plus ↦ inl plus
]

module _ (c : Coercions) where
  unfoldable pub dump_optional_datetime : Option DateTime → Json
  dump_optional_datetime none = null
  dump_optional_datetime (some d) = c.dump_datetime d

  -- a datetime that pydantic has made, an amount that the schema admits
  abbrev pub IsDatetime : DateTime → Type 0
  IsDatetime d = c.parse_datetime (c.dump_datetime d) ≡ some d

  abbrev pub IsOptionalDatetime : Option DateTime → Type 0
  IsOptionalDatetime none = Unit
  IsOptionalDatetime (some d) = IsDatetime d

  abbrev pub IsAmount : Decimal → Type 0
  IsAmount d = (c.parse_decimal (c.dump_decimal d) ≡ some d) × IsNotNegative d

  pub read_datetime-dump :
      (d : DateTime) → IsDatetime d → read_datetime c (some (c.dump_datetime d)) ≡ some d
  unfolding read_datetime
  read_datetime-dump d h = h

  pub read_amount-dump :
      (d : Decimal) → IsAmount d → read_amount c (some (c.dump_decimal d)) ≡ some d
  unfolding read_amount
  read_amount-dump d h = rw (h.0, is_not_negative-of d h.1) refl

  pub read_optional_datetime-some :
      (j : Json)
      → (j ≡ null → ⊥)
      → read_optional_datetime c (some j) ≡ (do d ← c.parse_datetime j; some (some d))
  unfolding read_optional_datetime
  read_optional_datetime-some null ne = absurd (ne refl)
  read_optional_datetime-some _ ne = refl

  pub read_optional_datetime-dump :
      (o : Option DateTime)
      → IsOptionalDatetime o
      → read_optional_datetime c (some (dump_optional_datetime o)) ≡ some o
  unfolding dump_optional_datetime read_optional_datetime
  read_optional_datetime-dump none h = refl
  read_optional_datetime-dump (some d) h =
      read_optional_datetime-some (c.dump_datetime d) (c.dump_datetime-not_null d) ∙ rw h refl

  pub read_datetime-IsDatetime :
      (o : Option Json) (d : DateTime) → read_datetime c o ≡ some d → IsDatetime d
  unfolding read_datetime
  read_datetime-IsDatetime none d h = cc
  read_datetime-IsDatetime (some j) d h = c.parse-dump_datetime j d h

  pub read_amount-IsAmount : (o : Option Json) (d : Decimal) → read_amount c o ≡ some d → IsAmount d
  unfolding read_amount
  read_amount-IsAmount none d h = cc
  read_amount-IsAmount (some j) d h =
      let parsed : c.parse_decimal j ≡ some d = ground arith in
      (c.parse-dump_decimal j d parsed, is_not_negative-IsNotNegative d (ground arith))

  pub read_optional_datetime-IsOptionalDatetime :
      (o : Option Json) (d : Option DateTime)
      → read_optional_datetime c o ≡ some d
      → IsOptionalDatetime d
  unfolding read_optional_datetime
  read_optional_datetime-IsOptionalDatetime o none h = tt
  read_optional_datetime-IsOptionalDatetime none (some d) h = cc
  read_optional_datetime-IsOptionalDatetime (some null) (some d) h = cc
  read_optional_datetime-IsOptionalDatetime (some j) (some d) h =
      let parsed : c.parse_datetime j ≡ some d = ground arith in c.parse-dump_datetime j d parsed
