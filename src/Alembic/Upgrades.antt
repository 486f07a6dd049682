-- ===== src/Alembic/Upgrades.antt =====
-- What each upgrade makes of the tables before it.
use glacis.Base.{◌≡◌, Bool, List, [], ◌∷◌, arith, codes, text_eq, if◌then◌else◌}
use glacis.Core.Json.{Json}
use glacis.Alembic.Schema.{
  Row, Catalog, done, refused, not_null_violation, unique_violation, has_clash, conflict, is_null,
}
use glacis.Alembic.Op.{
  create_table, create_index, alter, add_index, drop_index, drop_constraint, remove_unique,
  drop_column, remove_column, add_column, append_column, is_empty,
}
use glacis.Alembic.Versions.Initial
use glacis.Alembic.Versions.TwoTierDedupe
use glacis.Alembic.Versions.UniquePrimary
use glacis.Alembic.Stages.{
  Contents, nothing, initial, two_tier, current, initial_names, helper_names, IsFree,
}

module _ (jsonb_eq : Json → Json → Bool) where
  -- From any database in which the names are free, the first revision makes the five tables.
  pub upgrade-initial :
      (catalog : Catalog)
      → IsFree initial_names catalog
      → Initial.upgrade jsonb_eq catalog ≡ done (initial nothing catalog)
  unfolding Initial.upgrade create_table create_index alter add_index text_eq
  upgrade-initial catalog free = ground arith

  upgrade-two_tier_empty :
      (c : Contents) (catalog : Catalog)
      → IsFree helper_names catalog
      → TwoTierDedupe.upgrade jsonb_eq (initial (record c { raw_events = [] }) catalog)
        ≡ done (two_tier (record c { raw_events = [] }) catalog)
  unfolding TwoTierDedupe.upgrade create_index alter add_index drop_index drop_constraint
      remove_unique drop_column remove_column add_column append_column text_eq
  upgrade-two_tier_empty c catalog free = ground arith

  upgrade-two_tier_refused :
      (c : Contents) (r : Row) (rows : List Row) (catalog : Catalog)
      → TwoTierDedupe.upgrade jsonb_eq (initial (record c { raw_events = r ∷ rows }) catalog)
        ≡ refused not_null_violation
  unfolding TwoTierDedupe.upgrade create_index alter add_index drop_index drop_constraint
      remove_unique drop_column remove_column add_column append_column text_eq
  upgrade-two_tier_refused c r rows catalog = ground arith

  two_tier_by :
      (c : Contents) (rows : List Row) (catalog : Catalog)
      → IsFree helper_names catalog
      → TwoTierDedupe.upgrade jsonb_eq (initial (record c { raw_events = rows }) catalog) ≡ (
          if is_empty rows
          then done (two_tier (record c { raw_events = rows }) catalog)
          else refused not_null_violation)
  two_tier_by c [] catalog free = upgrade-two_tier_empty c catalog free
  two_tier_by c (r ∷ rows) catalog free = upgrade-two_tier_refused c r rows catalog

  pub upgrade-two_tier :
      (c : Contents) (catalog : Catalog)
      → IsFree helper_names catalog
      → TwoTierDedupe.upgrade jsonb_eq (initial c catalog)
        ≡ (if is_empty c.raw_events then done (two_tier c catalog) else refused not_null_violation)
  upgrade-two_tier c catalog free = two_tier_by c c.raw_events catalog free

  pub upgrade-unique_primary :
      (c : Contents) (catalog : Catalog)
      → IsFree helper_names catalog
      → UniquePrimary.upgrade jsonb_eq (two_tier c catalog) ≡ (
          if has_clash
            (conflict jsonb_eq
              (is_null (codes "duplicate_of_id"))
              (codes "vendor_hint" ∷ codes "hash_exact" ∷ []))
            c.raw_events
          then refused unique_violation
          else done (current c catalog))
  unfolding UniquePrimary.upgrade create_index alter add_index drop_index text_eq
  upgrade-unique_primary c catalog free = ground arith
