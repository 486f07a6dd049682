-- ===== src/Alembic/Op.antt =====
-- The operations of `alembic.op` that the migrations call, as PostgreSQL runs them.
use glacis.Base.{
  Bool, true, false, not, ◌&&◌, ◌||◌, Option, none, some, List, [], ◌∷◌, ◌++◌, Text, text_eq,
  any_row, rows_where, map, if◌then◌else◌,
}
use glacis.Core.Json.{Json}
use glacis.Alembic.Schema.{
  ForeignKey, Column, UniqueConstraint, Index, Value, Row, Table, Catalog, duplicate_object,
  undefined_object, dependent_objects, not_null_violation, unique_violation, Outcome, done, refused,
  is_named, in_use, has_table, refers_to, has_column, is_among, mentions, conflict, has_clash,
  always,
}

-- the name of a constraint is free, or it has none of its own
abbrev pub clashes_with : Catalog → Option Text → Bool
clashes_with catalog none = false
clashes_with catalog (some name) = in_use name catalog

-- the target of a foreign key exists
abbrev pub resolves : Catalog → Option ForeignKey → Bool
resolves catalog none = true
resolves catalog (some k) = has_table k.table catalog

abbrev pub all_resolve : Catalog → List Column → Bool
all_resolve catalog [] = true
all_resolve catalog (c ∷ cs) = resolves catalog c.foreign_key && all_resolve catalog cs

unfoldable pub create_table : Table → Catalog → Outcome Catalog
unfolding text_eq
create_table t catalog =
    if in_use t.name catalog
      || any_row (λ (u : UniqueConstraint). clashes_with catalog u.name) t.uniques
    then refused duplicate_object
    else (if all_resolve catalog t.columns then done (t ∷ catalog) else refused undefined_object)

abbrev pub keep : Table → Outcome Catalog → Outcome Catalog
keep t (done rest) = done (t ∷ rest)
keep t (refused r) = refused r

abbrev pub put : Outcome Table → Catalog → Outcome Catalog
put (done t) rest = done (t ∷ rest)
put (refused r) rest = refused r

-- ALTER TABLE: the table of this name is changed
unfoldable pub alter : Text → (Table → Outcome Table) → Catalog → Outcome Catalog
unfolding text_eq
alter name f [] = refused undefined_object
alter name f (t ∷ rest) =
    let others = alter name f rest in if text_eq name t.name then put (f t) rest else keep t others

-- the table of this name is removed
unfoldable pub remove : Text → Catalog → Outcome Catalog
unfolding text_eq
remove name [] = refused undefined_object
remove name (t ∷ rest) =
    let others = remove name rest in if text_eq name t.name then done rest else keep t others

-- another table than the one of this name has a foreign key to it
abbrev pub is_referenced : Text → Catalog → Bool
is_referenced name catalog =
    any_row (λ (t : Table). not (text_eq name t.name) && refers_to name t) catalog

unfoldable pub drop_table : Text → Catalog → Outcome Catalog
unfolding remove text_eq
drop_table name catalog =
    if is_referenced name catalog then refused dependent_objects else remove name catalog

abbrev pub has_columns : List Text → Table → Bool
has_columns [] t = true
has_columns (c ∷ cs) t = has_column c t && has_columns cs t

module _ (jsonb_eq : Json → Json → Bool) where
  unfoldable pub add_index : Index → Table → Outcome Table
  unfolding text_eq
  add_index i t =
      if has_columns i.columns t
      then (if i.unique && has_clash (conflict jsonb_eq i.condition i.columns) t.rows
          then refused unique_violation
          else done (record t { indexes = i ∷ t.indexes }))
      else refused undefined_object

  unfoldable pub create_index : Text → Index → Catalog → Outcome Catalog
  unfolding alter add_index text_eq
  create_index table i catalog =
      if in_use i.name catalog then refused duplicate_object else alter table (add_index i) catalog

  unfoldable pub add_unique : UniqueConstraint → Table → Outcome Table
  unfolding text_eq
  add_unique u t =
      if has_columns u.columns t
      then (if has_clash (conflict jsonb_eq always u.columns) t.rows
          then refused unique_violation
          else done (record t { uniques = u ∷ t.uniques }))
      else refused undefined_object

  unfoldable pub create_unique_constraint : Text → UniqueConstraint → Catalog → Outcome Catalog
  unfolding alter add_unique text_eq
  create_unique_constraint table u catalog =
      if clashes_with catalog u.name
      then refused duplicate_object
      else alter table (add_unique u) catalog

abbrev pub has_index : Text → Table → Bool
has_index name t = any_row (λ (i : Index). text_eq name i.name) t.indexes

abbrev pub without_index : Text → Table → Table
without_index name t = record t {
  indexes = rows_where (λ (i : Index). not (text_eq name i.name)) t.indexes;
}

-- The index is found by its name: the statement does not name the table.
unfoldable pub drop_index : Text → Catalog → Outcome Catalog
unfolding text_eq
drop_index name [] = refused undefined_object
drop_index name (t ∷ rest) =
    let others = drop_index name rest in
    if has_index name t then done (without_index name t ∷ rest) else keep t others

unfoldable pub remove_unique : Text → Table → Outcome Table
unfolding text_eq
remove_unique name t =
    if any_row (λ (u : UniqueConstraint). is_named name u.name) t.uniques
    then done (record t {
      uniques = rows_where (λ (u : UniqueConstraint). not (is_named name u.name)) t.uniques;
    })
    else refused undefined_object

unfoldable pub drop_constraint : Text → Text → Catalog → Outcome Catalog
unfolding alter remove_unique
drop_constraint name table catalog = alter table (remove_unique name) catalog

abbrev pub append_cell : Text → Row → Row
append_cell name r = r ++ ((name, none) ∷ [])

abbrev pub is_empty {ℓ} : {A : Type ℓ} → List A → Bool
is_empty [] = true
is_empty (x ∷ xs) = false

-- A new column comes last. It is NULL in the rows that are there: one that is NOT NULL, and has no
-- default, is refused if there are any. No migration adds a column with a default.
unfoldable pub append_column : Column → Table → Outcome Table
unfolding text_eq
append_column c t =
    if has_column c.name t
    then refused duplicate_object
    else (if is_empty t.rows || c.nullable
        then done
            (record t { columns = t.columns ++ (c ∷ []); rows = map (append_cell c.name) t.rows })
        else refused not_null_violation)

unfoldable pub add_column : Text → Column → Catalog → Outcome Catalog
unfolding alter append_column text_eq
add_column table c catalog =
    if resolves catalog c.foreign_key
    then alter table (append_column c) catalog
    else refused undefined_object

-- the constraints and the indexes of a column go with it
unfoldable pub remove_column : Text → Table → Outcome Table
unfolding text_eq
remove_column name t =
    if has_column name t
    then done (record t {
      columns = rows_where (λ (c : Column). not (text_eq name c.name)) t.columns;
      uniques = rows_where (λ (u : UniqueConstraint). not (is_among name u.columns)) t.uniques;
      indexes =
          rows_where (λ (i : Index). not (is_among name i.columns || mentions name i.condition))
            t.indexes;
      rows = map (rows_where (λ (entry : Text × Option Value). not (text_eq name entry.0))) t.rows;
    })
    else refused undefined_object

unfoldable pub drop_column : Text → Text → Catalog → Outcome Catalog
unfolding alter remove_column
drop_column table name catalog = alter table (remove_column name) catalog
