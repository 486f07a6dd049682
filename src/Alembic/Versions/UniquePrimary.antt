-- ===== src/Alembic/Versions/UniquePrimary.antt =====
-- alembic/versions/0003_unique_primary_per_hash.py
use glacis.Base.{Bool, true, [], ◌∷◌, codes}
use glacis.Core.Json.{Json}
use glacis.Alembic.Schema.{is_null, Index, Catalog, Outcome, ◌>>◌}
use glacis.Alembic.Op.{create_index, drop_index}
use glacis.Alembic.Versions.TwoTierDedupe.{ix_raw_events_hash_exact_vendor}

abbrev pub uq_raw_events_primary_per_hash : Index
uq_raw_events_primary_per_hash = record {
  name = codes "uq_raw_events_primary_per_hash";
  columns = codes "vendor_hint" ∷ codes "hash_exact" ∷ [];
  unique = true;
  condition = is_null (codes "duplicate_of_id");
}

module _ (jsonb_eq : Json → Json → Bool) where
  unfoldable pub upgrade : Catalog → Outcome Catalog
  unfolding drop_index create_index
  upgrade = do
    drop_index (codes "ix_raw_events_hash_exact_vendor")
    create_index jsonb_eq (codes "raw_events") uq_raw_events_primary_per_hash

  unfoldable pub downgrade : Catalog → Outcome Catalog
  unfolding drop_index create_index
  downgrade = do
    drop_index (codes "uq_raw_events_primary_per_hash")
    create_index jsonb_eq (codes "raw_events") ix_raw_events_hash_exact_vendor
