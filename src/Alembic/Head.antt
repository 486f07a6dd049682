-- ===== src/Alembic/Head.antt =====
-- Whole commands: the upgrade to the tables of the models, and the way back.
use mathlib.Core.List.{Permᴰ}
use mathlib.Core.List.Permᴰ
use glacis.Base.{◌≡◌, refl, Bool, none, some, [], ◌∷◌, ◌++◌, arith, map, text_eq, if◌then◌else◌}
use glacis.Core.Json.{Json}
use glacis.Alembic.Schema.{Column, UniqueConstraint, Table, Catalog, done, not_null_violation}
use glacis.Alembic.Op.{is_empty}
use glacis.Alembic.Versions.Initial.{ix_raw_events_pending}
use glacis.Alembic.Versions.UniquePrimary.{uq_raw_events_primary_per_hash}
use glacis.Alembic.Metadata.{raw_events, metadata}
use glacis.Alembic.Env.{
  Stamp, program_tables, do_run_migrations, upgrade_head, upgrade_from_initial, downgrade_base,
}
use glacis.Alembic.Stages.{
  Contents, nothing, initial, current, initial_names, helper_names, IsFree, deduplicated,
}
use glacis.Alembic.Upgrades.{upgrade-initial, upgrade-two_tier, upgrade-unique_primary}
use glacis.Alembic.Downgrades.{
  IsClosed, downgrade-unique_primary, downgrade-two_tier, downgrade-initial,
}

-- Two tables are declared alike: the order of the columns and of the indexes, and the names of the
-- unique constraints, may differ.
pub record Agree (t u : Table) : Type 0 where
  pub name : t.name ≡ u.name
  pub columns : Permᴰ t.columns u.columns
  pub uniques :
      map (λ (c : UniqueConstraint). c.columns) t.uniques
      ≡ map (λ (c : UniqueConstraint). c.columns) u.uniques
  pub indexes : Permᴰ t.indexes u.indexes

abbrev pub AgreeAll : Catalog → Catalog → Type 0
AgreeAll [] [] = Unit
AgreeAll (t ∷ ts) (u ∷ us) = Agree t u × AgreeAll ts us
AgreeAll _ _ = ⊥

Agree-refl :
    (t u : Table)
    → t.name ≡ u.name
    → t.columns ≡ u.columns
    → map (λ (c : UniqueConstraint). c.columns) t.uniques
      ≡ map (λ (c : UniqueConstraint). c.columns) u.uniques
    → t.indexes ≡ u.indexes
    → Agree t u
Agree-refl t u n c k i = record {
  name = n;
  columns = rw c (Permᴰ.refl u.columns);
  uniques = k;
  indexes = rw i (Permᴰ.refl u.indexes);
}

-- the seven columns whose order differs
raw_events-columns :
    (a b c d e f g : Column)
    → Permᴰ (a ∷ b ∷ c ∷ d ∷ e ∷ f ∷ g ∷ []) (f ∷ g ∷ a ∷ b ∷ c ∷ d ∷ e ∷ [])
raw_events-columns a b c d e f g =
    Permᴰ.trans (Permᴰ.middle f (a ∷ b ∷ c ∷ d ∷ e ∷ []) (g ∷ []))
      (Permᴰ.cons refl (Permᴰ.middle g (a ∷ b ∷ c ∷ d ∷ e ∷ []) []))

abbrev raw_events_now : Table
raw_events_now = deduplicated (uq_raw_events_primary_per_hash ∷ ix_raw_events_pending ∷ []) []

current-metadata : AgreeAll (current nothing []) metadata
current-metadata =
    let raw : Agree raw_events_now raw_events = record {
      name = refl;
      columns = Permᴰ.append_left (_ ∷ _ ∷ _ ∷ _ ∷ []) (raw_events-columns _ _ _ _ _ _ _);
      uniques = refl;
      indexes = Permᴰ.swap refl refl;
    } in
    (
      Agree-refl _ _ refl refl refl refl,
      (
        Agree-refl _ _ refl refl refl refl,
        (Agree-refl _ _ refl refl refl refl, (Agree-refl _ _ refl refl refl refl, (raw, tt))),
      ),
    )

module _ (alembic : Stamp) (jsonb_eq : Json → Json → Bool) (catalog : Catalog) where
  upgrade_head-current :
      IsFree initial_names catalog
      → IsFree helper_names catalog
      → upgrade_head jsonb_eq catalog ≡ done (current nothing catalog)
  unfolding upgrade_head
  upgrade_head-current free helpers = ground (
    arith,
    upgrade-initial jsonb_eq catalog free,
    upgrade-two_tier jsonb_eq nothing catalog helpers,
    upgrade-unique_primary jsonb_eq nothing catalog helpers,
  )

  -- From any database in which the names of the schema are free, the three upgrades succeed, leave
  -- every other table as it was but that of alembic itself, alembic_version, and make the tables that
  -- the models declare, up to the order of the columns and of the indexes and the names of the unique
  -- constraints.
  pub upgrade_head-metadata :
      IsFree initial_names catalog
      → IsFree helper_names catalog
      → (tables after : Catalog) × (do_run_migrations alembic (upgrade_head jsonb_eq) catalog
          ≡ (none, after))
        × (program_tables after ≡ tables ++ program_tables catalog)
        × AgreeAll tables metadata
  unfolding do_run_migrations text_eq
  upgrade_head-metadata free helpers = (
    current nothing [],
    alembic.stamp (current nothing catalog),
    rw (upgrade_head-current free helpers, do_run_migrations) refl,
    alembic.program_tables-stamp (current nothing catalog),
    current-metadata,
  )

  -- The upgrade of a database at the first revision succeeds exactly if `raw_events` is empty. Else
  -- the column `hash_exact`, which is NOT NULL and has no default, is refused, and the database is as
  -- it was.
  pub upgrade_from_initial-rows :
      (c : Contents)
      → IsFree helper_names catalog
      → do_run_migrations alembic (upgrade_from_initial jsonb_eq) (initial c catalog) ≡ (
          if is_empty c.raw_events
          then (none, alembic.stamp (current c catalog))
          else (some not_null_violation, initial c catalog))
  unfolding do_run_migrations upgrade_from_initial
  upgrade_from_initial-rows c helpers = ground (
    arith,
    upgrade-two_tier jsonb_eq c catalog helpers,
    upgrade-unique_primary jsonb_eq c catalog helpers,
  )

  -- The downgrade to nothing succeeds exactly if `raw_events` is empty, and then leaves, but for the
  -- table alembic_version of alembic itself, the tables that there were beside those of the program.
  -- Else it is refused, since `dedupe_key` is NOT NULL and has no default, and the database is as it
  -- was.
  pub downgrade_base-rows :
      (c : Contents)
      → IsFree initial_names catalog
      → IsFree helper_names catalog
      → IsClosed catalog
      → (restored : Catalog) × (program_tables restored ≡ program_tables catalog)
        × (do_run_migrations alembic (downgrade_base jsonb_eq) (current c catalog) ≡ (
            if is_empty c.raw_events
            then (none, restored)
            else (some not_null_violation, current c catalog)))
  unfolding do_run_migrations downgrade_base
  downgrade_base-rows c free helpers closed = (
    alembic.stamp catalog,
    alembic.program_tables-stamp catalog,
    ground (
      arith,
      downgrade-unique_primary jsonb_eq c catalog helpers,
      downgrade-two_tier jsonb_eq c catalog helpers,
      downgrade-initial c catalog free closed,
    ),
  )
