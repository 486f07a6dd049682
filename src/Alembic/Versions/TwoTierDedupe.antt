-- ===== src/Alembic/Versions/TwoTierDedupe.antt =====
-- alembic/versions/0002_two_tier_dedupe.py
use glacis.Base.{Bool, true, false, some, [], ◌∷◌, codes}
use glacis.Core.Json.{Json}
use glacis.Alembic.Schema.{string, set_null, Column, always, Index, Catalog, Outcome, ◌>>◌}
use glacis.Alembic.Op.{
  create_index, drop_index, drop_constraint, drop_column, add_column, create_unique_constraint,
}
use glacis.Alembic.Versions.Columns.{column, reference}
use glacis.Alembic.Versions.Initial.{ix_raw_events_pending}

abbrev pub ix_raw_events_hash_exact_vendor : Index
ix_raw_events_hash_exact_vendor = record {
  name = codes "ix_raw_events_hash_exact_vendor";
  columns = codes "vendor_hint" ∷ codes "hash_exact" ∷ [];
  unique = false;
  condition = always;
}

abbrev pub hash_exact : Column
hash_exact = column (codes "hash_exact") (string 64) false

abbrev pub duplicate_of_id : Column
duplicate_of_id = reference (codes "duplicate_of_id") (codes "raw_events") set_null true

abbrev pub dedupe_key : Column
dedupe_key = column (codes "dedupe_key") (string 128) false

module _ (jsonb_eq : Json → Json → Bool) where
  unfoldable pub upgrade : Catalog → Outcome Catalog
  unfolding drop_index drop_constraint drop_column add_column create_index
  upgrade = do
    drop_index (codes "ix_raw_events_pending")
    drop_constraint (codes "uq_raw_events_dedupe_key") (codes "raw_events")
    drop_column (codes "raw_events") (codes "dedupe_key")
    add_column (codes "raw_events") hash_exact
    add_column (codes "raw_events") duplicate_of_id
    create_index jsonb_eq (codes "raw_events") ix_raw_events_pending
    create_index jsonb_eq (codes "raw_events") ix_raw_events_hash_exact_vendor

  unfoldable pub downgrade : Catalog → Outcome Catalog
  unfolding drop_index drop_column add_column create_unique_constraint create_index
  downgrade = do
    drop_index (codes "ix_raw_events_hash_exact_vendor")
    drop_index (codes "ix_raw_events_pending")
    drop_column (codes "raw_events") (codes "duplicate_of_id")
    drop_column (codes "raw_events") (codes "hash_exact")
    add_column (codes "raw_events") dedupe_key
    create_unique_constraint jsonb_eq (codes "raw_events") (record {
      name = some (codes "uq_raw_events_dedupe_key");
      columns = codes "dedupe_key" ∷ [];
    })
    create_index jsonb_eq (codes "raw_events") ix_raw_events_pending
