-- ===== src/Alembic/Downgrades.antt =====
-- What each downgrade makes of the tables after its revision.
use glacis.Base.{
  ◌≡◌, refl, Bool, true, false, Option, none, some, List, [], ◌∷◌, arith, Text, codes, text_eq,
  text_eq_sound, All, any_row, if◌then◌else◌, Bool-cases, inl, inr,
}
use glacis.Core.Json.{Json}
use glacis.Alembic.Schema.{
  jsonb, integer, timestamptz, string, ForeignKey, Column, Row, Table, Catalog, done, refused,
  in_use, has_table, targets, not_null_violation,
}
use glacis.Alembic.Op.{
  create_index, alter, add_index, remove, drop_index, drop_table, drop_column, remove_column,
  add_column, append_column, create_unique_constraint, add_unique, is_empty, resolves, all_resolve,
  is_referenced,
}
use glacis.Alembic.Versions.Columns.{column, default_column, id_column, now_column}
use glacis.Alembic.Versions.Initial.{ix_raw_events_pending}
use glacis.Alembic.Versions.Initial
use glacis.Alembic.Versions.TwoTierDedupe.{dedupe_key}
use glacis.Alembic.Versions.TwoTierDedupe
use glacis.Alembic.Versions.UniquePrimary
use glacis.Alembic.Stages.{
  Contents, entity_tables, two_tier, current, initial_names, helper_names, IsFree,
}

-- every foreign key of the tables has its target
abbrev pub IsClosed : Catalog → Type 0
IsClosed catalog = All (λ (t : Table). all_resolve catalog t.columns ≡ true) catalog

-- a table that is not there is not the target of a foreign key
targets-resolves :
    (name : Text) (catalog : Catalog) (k : Option ForeignKey)
    → resolves catalog k ≡ true
    → has_table name catalog ≡ false
    → targets name k ≡ false
targets-resolves name catalog none r h = refl
targets-resolves name catalog (some k) r h = elim (Bool-cases (text_eq name k.table)) [
  | inl same ↦ let e = text_eq_sound name k.table same in absurd (ground (arith, r, rw e at h))
  | inr other ↦ other
]

not_referring :
    (name : Text) (catalog : Catalog) (cs : List Column)
    → all_resolve catalog cs ≡ true
    → has_table name catalog ≡ false
    → any_row (λ (c : Column). targets name c.foreign_key) cs ≡ false
not_referring name catalog [] r h = refl
not_referring name catalog (c ∷ cs) r h =
    let here = targets-resolves name catalog c.foreign_key (ground arith) h in
    let rest = not_referring name catalog cs (ground arith) h in rw (here, rest) refl

not_referenced :
    (name : Text) (catalog ts : Catalog)
    → All (λ (t : Table). all_resolve catalog t.columns ≡ true) ts
    → has_table name catalog ≡ false
    → is_referenced name ts ≡ false
not_referenced name catalog [] r h = refl
not_referenced name catalog (t ∷ ts) r h =
    let here = not_referring name catalog t.columns r.0 h in
    let rest = not_referenced name catalog ts r.1 h in ground (arith, here, rest)

has_table-in_use :
    (name : Text) (catalog : Catalog) → in_use name catalog ≡ false → has_table name catalog ≡ false
has_table-in_use name [] h = refl
has_table-in_use name (t ∷ ts) h = ground (arith, has_table-in_use name ts)

-- `raw_events` after the downgrade of 0002, where `dedupe_key` is the last column
abbrev pub reverted : Contents → Catalog → Catalog
reverted c rest = entity_tables c (
    record Initial.raw_events {
      columns =
          id_column
          ∷ column (codes "vendor_hint") (string 64) false
          ∷ column (codes "payload") jsonb false
          ∷ now_column (codes "received_at")
          ∷ default_column (codes "status") (string 16) (codes "'pending'")
          ∷ default_column (codes "attempts") integer (codes "0")
          ∷ column (codes "last_error") (string 2048) true
          ∷ column (codes "locked_at") timestamptz true
          ∷ column (codes "processed_at") timestamptz true
          ∷ dedupe_key
          ∷ [];
      indexes = ix_raw_events_pending ∷ [];
      rows = c.raw_events;
    }
    ∷ rest)

module _ (jsonb_eq : Json → Json → Bool) where
  pub downgrade-unique_primary :
      (c : Contents) (catalog : Catalog)
      → IsFree helper_names catalog
      → UniquePrimary.downgrade jsonb_eq (current c catalog) ≡ done (two_tier c catalog)
  unfolding UniquePrimary.downgrade create_index alter add_index drop_index text_eq
  downgrade-unique_primary c catalog free = ground arith

  downgrade-two_tier_empty :
      (c : Contents) (catalog : Catalog)
      → IsFree helper_names catalog
      → TwoTierDedupe.downgrade jsonb_eq (two_tier (record c { raw_events = [] }) catalog)
        ≡ done (reverted (record c { raw_events = [] }) catalog)
  unfolding TwoTierDedupe.downgrade create_index alter add_index drop_index drop_column
      remove_column add_column append_column create_unique_constraint add_unique text_eq
  downgrade-two_tier_empty c catalog free = ground arith

  downgrade-two_tier_refused :
      (c : Contents) (r : Row) (rows : List Row) (catalog : Catalog)
      → TwoTierDedupe.downgrade jsonb_eq (two_tier (record c { raw_events = r ∷ rows }) catalog)
        ≡ refused not_null_violation
  unfolding TwoTierDedupe.downgrade create_index alter add_index drop_index drop_column
      remove_column add_column append_column create_unique_constraint add_unique text_eq
  downgrade-two_tier_refused c r rows catalog = ground arith

  two_tier_by :
      (c : Contents) (rows : List Row) (catalog : Catalog)
      → IsFree helper_names catalog
      → TwoTierDedupe.downgrade jsonb_eq (two_tier (record c { raw_events = rows }) catalog) ≡ (
          if is_empty rows
          then done (reverted (record c { raw_events = rows }) catalog)
          else refused not_null_violation)
  two_tier_by c [] catalog free = downgrade-two_tier_empty c catalog free
  two_tier_by c (r ∷ rows) catalog free = downgrade-two_tier_refused c r rows catalog

  pub downgrade-two_tier :
      (c : Contents) (catalog : Catalog)
      → IsFree helper_names catalog
      → TwoTierDedupe.downgrade jsonb_eq (two_tier c catalog)
        ≡ (if is_empty c.raw_events then done (reverted c catalog) else refused not_null_violation)
  downgrade-two_tier c catalog free = two_tier_by c c.raw_events catalog free

-- Five tables whose names are free in the other tables are dropped, with their rows.
pub downgrade-initial :
    (c : Contents) (catalog : Catalog)
    → IsFree initial_names catalog
    → IsClosed catalog
    → Initial.downgrade (reverted c catalog) ≡ done catalog
unfolding Initial.downgrade drop_index drop_table remove text_eq
downgrade-initial c catalog free closed =
    let gone = λ (name : Text) (h : in_use name catalog ≡ false).
      not_referenced name catalog catalog closed (has_table-in_use name catalog h) in
    ground (
      arith,
      gone (codes "raw_events"),
      gone (codes "shipments"),
      gone (codes "shipment_events"),
      gone (codes "invoices"),
      gone (codes "invoice_events"),
    )
