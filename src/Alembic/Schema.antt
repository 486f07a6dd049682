-- ===== src/Alembic/Schema.antt =====
-- What a migration changes: the tables, with their columns, constraints, indexes and rows.
use glacis.Base.{
  ℕ, Bool, true, false, ◌&&◌, ◌||◌, Option, none, some, List, [], ◌∷◌, Text, text_eq, ◌==◌, any_row,
  if◌then◌else◌,
}
use glacis.Core.Json.{Json}

pub data ColumnType : Type 0 where
  uuid jsonb integer timestamptz : ColumnType
  string : ℕ → ColumnType

pub data OnDelete : Type 0 where
  no_action cascade set_null : OnDelete

-- `ForeignKey("table.id", ondelete=…)`
pub record ForeignKey : Type 0 where
  pub table : Text
  pub column : Text
  pub ondelete : OnDelete

pub record Column : Type 0 where
  pub name : Text
  pub column_type : ColumnType
  pub nullable : Bool
  pub primary_key : Bool
  pub server_default : Option Text
  pub foreign_key : Option ForeignKey

-- without a name of its own, the database gives it one
pub record UniqueConstraint : Type 0 where
  pub name : Option Text
  pub columns : List Text

-- `postgresql_where`
pub data Condition : Type 0 where
  always : Condition
  is_null : Text → Condition
  equals : Text → Text → Condition

pub record Index : Type 0 where
  pub name : Text
  pub columns : List Text
  pub unique : Bool
  pub condition : Condition

pub data Value : Type 0 where
  text : Text → Value
  number : ℕ → Value
  document : Json → Value

-- the value of each column, `none` for NULL
abbrev pub Row : Type 0
Row = List (Text × Option Value)

pub record Table : Type 0 where
  pub name : Text
  pub columns : List Column
  pub uniques : List UniqueConstraint
  pub indexes : List Index
  pub rows : List Row

abbrev pub Catalog : Type 0
Catalog = List Table

-- why a statement fails
pub data Refusal : Type 0 where
  duplicate_object undefined_object dependent_objects : Refusal
  not_null_violation unique_violation : Refusal

pub data Outcome (A : Type 0) : Type 0 where
  done : A → Outcome A
  refused : Refusal → Outcome A

-- one statement after the other
infixl 5 ◌>>◌
abbrev pub ◌>>◌ :
    (Catalog → Outcome Catalog) → (Catalog → Outcome Catalog) → Catalog → Outcome Catalog
(first >> second) catalog = elim (first catalog) [ done next ↦ second next | refused r ↦ refused r ]

abbrev pub is_named : Text → Option Text → Bool
is_named name none = false
is_named name (some other) = text_eq name other

-- the names of tables, indexes and constraints with an index are in one namespace
abbrev pub has_relation : Text → Table → Bool
has_relation name t =
    text_eq name t.name
    || (any_row (λ (u : UniqueConstraint). is_named name u.name) t.uniques
        || any_row (λ (i : Index). text_eq name i.name) t.indexes)

abbrev pub in_use : Text → Catalog → Bool
in_use name catalog = any_row (has_relation name) catalog

abbrev pub has_table : Text → Catalog → Bool
has_table name catalog = any_row (λ (t : Table). text_eq name t.name) catalog

abbrev pub targets : Text → Option ForeignKey → Bool
targets name none = false
targets name (some k) = text_eq name k.table

-- a table with a foreign key to the table of this name
abbrev pub refers_to : Text → Table → Bool
refers_to name t = any_row (λ (c : Column). targets name c.foreign_key) t.columns

abbrev pub has_column : Text → Table → Bool
has_column name t = any_row (λ (c : Column). text_eq name c.name) t.columns

abbrev pub is_among : Text → List Text → Bool
is_among name names = any_row (text_eq name) names

abbrev pub mentions : Text → Condition → Bool
mentions name always = false
mentions name (is_null column) = text_eq name column
mentions name (equals column literal) = text_eq name column

-- the value of a column in a row
abbrev pub cell : Text → Row → Option Value
cell name [] = none
cell name ((column, value) ∷ rest) = if text_eq name column then value else cell name rest

abbrev pub is_text : Text → Option Value → Bool
is_text t (some (text s)) = text_eq t s
is_text t _ = false

abbrev pub is_absent : Option Value → Bool
is_absent none = true
is_absent (some v) = false

-- the rows of a partial index
abbrev pub holds : Condition → Row → Bool
holds always r = true
holds (is_null column) r = is_absent (cell column r)
holds (equals column literal) r = is_text literal (cell column r)

-- `jsonb_eq` is the database's equality of two documents
module _ (jsonb_eq : Json → Json → Bool) where
  abbrev pub same_value : Value → Value → Bool
  same_value (text s) (text t) = text_eq s t
  same_value (number m) (number n) = m == n
  same_value (document i) (document j) = jsonb_eq i j
  same_value _ _ = false

  -- NULL is equal to nothing
  abbrev pub same_cell : Option Value → Option Value → Bool
  same_cell (some v) (some w) = same_value v w
  same_cell _ _ = false

  abbrev pub same_cells : List Text → Row → Row → Bool
  same_cells [] r s = true
  same_cells (c ∷ cs) r s = same_cell (cell c r) (cell c s) && same_cells cs r s

  -- two rows that a unique index on these columns does not admit together
  abbrev pub conflict : Condition → List Text → Row → Row → Bool
  conflict condition columns r s =
      holds condition r && (holds condition s && same_cells columns r s)

-- some two rows clash
abbrev pub has_clash {ℓ} : {A : Type ℓ} → (A → A → Bool) → List A → Bool
has_clash clash [] = false
has_clash clash (x ∷ xs) = any_row (clash x) xs || has_clash clash xs
