-- ===== src/Alembic/Env.antt =====
-- alembic/env.py: which database is migrated, and the migrations of a command in one transaction.
pub mod Reached
use glacis.Base.{
  not, codes, rows_where, ◌≡◌, Bool, Option, none, some, Text, text_eq, if◌then◌else◌,
}
use glacis.Core.Json.{Json}
use glacis.Alembic.Schema.{Table, Catalog, Refusal, Outcome, done, refused, ◌>>◌}
use glacis.Alembic.Config.{Interpolated, value, missing_option, syntax_error, interpolate}
use glacis.Alembic.Versions.Initial
use glacis.Alembic.Versions.TwoTierDedupe
use glacis.Alembic.Versions.UniquePrimary

-- the tables but that in which alembic keeps the revision of the database
abbrev pub is_program_table : Table → Bool
is_program_table t = not (text_eq (codes "alembic_version") t.name)

abbrev pub program_tables : Catalog → Catalog
program_tables catalog = rows_where is_program_table catalog

-- What alembic writes of the revision, in the transaction of the migrations: it makes, fills and
-- empties its own table, and no other.
pub record Stamp : Type 0 where
  pub stamp : Catalog → Catalog
  pub program_tables-stamp :
      (catalog : Catalog) → program_tables (stamp catalog) ≡ program_tables catalog

-- `run_migrations` are the migrations of the command, which alembic selects. What it raises, and the
-- database then: DDL of PostgreSQL is rolled back with its transaction.
unfoldable pub do_run_migrations :
    Stamp → (Catalog → Outcome Catalog) → Catalog → Option Refusal × Catalog
unfolding text_eq
do_run_migrations alembic run_migrations catalog = elim (run_migrations catalog) [
  | done next ↦ (none, alembic.stamp next)
  | refused r ↦ (some r, catalog)
]

-- the databases, by what tells them apart: host, port and name
abbrev pub Databases : Type 0
Databases = Text → Catalog

abbrev pub set_database : Text → Catalog → Databases → Databases
set_database name catalog databases n = if text_eq name n then catalog else databases n

-- how a run of alembic ends
pub data Ended : Type 0 where
  migrated : Ended
  refused_by : Refusal → Ended
  script : Ended  -- SQL on the standard output
  bad_url : Interpolated → Ended

abbrev pub ended_of : Option Refusal → Ended
ended_of none = migrated
ended_of (some r) = refused_by r

-- `database_of` is the database that a URL names, which several URLs may
module _ (alembic : Stamp) (database_of : Text → Text) where
  -- `async_engine_from_config` takes the URL that the configuration has
  unfoldable pub run_migrations_online :
      (Catalog → Outcome Catalog) → Text → Databases → Ended × Databases
  unfolding do_run_migrations text_eq
  run_migrations_online run_migrations url databases =
      let name = database_of url in
      let (raised, catalog) = do_run_migrations alembic run_migrations (databases name) in
      (ended_of raised, set_database name catalog databases)

  unfoldable pub run_migrations_offline :
      (Catalog → Outcome Catalog) → Text → Databases → Ended × Databases
  run_migrations_offline run_migrations url databases = (script, databases)

  -- The module, for the `database_url` of the settings: `set_main_option`, which refuses what it could
  -- not get back, and then one of the two modes.
  unfoldable pub env : Bool → (Catalog → Outcome Catalog) → Text → Databases → Ended × Databases
  unfolding interpolate run_migrations_online run_migrations_offline
  env is_offline_mode run_migrations database_url databases = elim (interpolate database_url) [
    | value url ↦
        if is_offline_mode
        then run_migrations_offline run_migrations url databases
        else run_migrations_online run_migrations url databases
    | missing_option ↦ (bad_url missing_option, databases)
    | syntax_error ↦ (bad_url syntax_error, databases)
  ]

module _ (jsonb_eq : Json → Json → Bool) where
  -- `alembic upgrade head`, from nothing and from 0001: by `down_revision`, 0003 follows 0002, which
  -- follows 0001
  unfoldable pub upgrade_head : Catalog → Outcome Catalog
  unfolding Initial.upgrade TwoTierDedupe.upgrade UniquePrimary.upgrade
  upgrade_head = do
    Initial.upgrade jsonb_eq
    TwoTierDedupe.upgrade jsonb_eq
    UniquePrimary.upgrade jsonb_eq

  unfoldable pub upgrade_from_initial : Catalog → Outcome Catalog
  unfolding TwoTierDedupe.upgrade UniquePrimary.upgrade
  upgrade_from_initial = do TwoTierDedupe.upgrade jsonb_eq; UniquePrimary.upgrade jsonb_eq

  -- `alembic downgrade base`
  unfoldable pub downgrade_base : Catalog → Outcome Catalog
  unfolding Initial.downgrade TwoTierDedupe.downgrade UniquePrimary.downgrade
  downgrade_base = do
    UniquePrimary.downgrade jsonb_eq
    TwoTierDedupe.downgrade jsonb_eq
    Initial.downgrade
