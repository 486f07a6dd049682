-- ===== src/Tests/MigrationTests.antt =====
-- The migrations of a database that has the table of alembic itself.
use glacis.Base.{
  Text, List, ◌≡◌, ◌↔◌, refl, Bool, true, false, none, some, [], ◌∷◌, ◌++◌, arith, codes, text_eq,
  IsUnique, Bool-cases, inl, inr, map, if◌then◌else◌,
}
use glacis.Core.Json.{Json}
use glacis.Core.Models.{same_primary}
use glacis.Alembic.Schema.{Row, string, text, Table, Catalog, done, not_null_violation}
use glacis.Alembic.Op.{is_empty}
use glacis.Alembic.Versions.Columns.{column}
use glacis.Alembic.Versions.UniquePrimary
use glacis.Alembic.Metadata.{metadata}
use glacis.Alembic.Config.{syntax_error}
use glacis.Alembic.Env.Reached.{env-do_run_migrations}
use glacis.Alembic.Env.{
  Stamp, program_tables, ended_of, set_database, Databases, bad_url, env, do_run_migrations,
  upgrade_head, upgrade_from_initial, downgrade_base,
}
use glacis.Alembic.Stages.{
  Contents, nothing, initial, two_tier, current, initial_names, helper_names, IsFree,
}
use glacis.Alembic.Downgrades.{IsClosed}
use glacis.Alembic.Head.{
  AgreeAll, upgrade_head-metadata, upgrade_from_initial-rows, downgrade_base-rows,
}
use glacis.Alembic.Primaries.{row_of, upgrade-IsUnique}
use glacis.Tests.IngestTests.{first_row}

abbrev jsonb_eq : Json → Json → Bool
jsonb_eq i j = false

-- the rows of alembic_version at a revision
abbrev at_revision : Text → List Row
at_revision revision = ((codes "version_num", some (text revision)) ∷ []) ∷ []

abbrev versioned : List Row → Catalog
versioned rows =
    record {
      name = codes "alembic_version";
      columns = record (column (codes "version_num") (string 32) false) { primary_key = true } ∷ [];
      uniques = [];
      indexes = [];
      rows = rows;
    }
    ∷ []

versioned-IsFree : (rows : List Row) → IsFree initial_names (versioned rows)
unfolding text_eq
versioned-IsFree rows = ground arith

helpers-IsFree : (rows : List Row) → IsFree helper_names (versioned rows)
unfolding text_eq
helpers-IsFree rows = ground arith

versioned-IsClosed : (rows : List Row) → IsClosed (versioned rows)
versioned-IsClosed rows = ground arith

abbrev one_event : Contents
one_event = record nothing { raw_events = map row_of (first_row ∷ []) }

-- alembic_version is given these rows
abbrev stamp_table : List Row → Table → Table
stamp_table rows t = record t {
  rows = if text_eq (codes "alembic_version") t.name then rows else t.rows;
}

stamp-program_tables :
    (rows : List Row) (catalog : Catalog)
    → program_tables (map (stamp_table rows) catalog) ≡ program_tables catalog
stamp-program_tables rows [] = refl
stamp-program_tables rows (t ∷ rest) =
    elim (Bool-cases (text_eq (codes "alembic_version") t.name)) [
      | inl own ↦ rw own (stamp-program_tables rows rest)
      | inr other ↦ rw (other, stamp-program_tables rows rest) refl
    ]

abbrev stamp_with : List Row → Stamp
stamp_with rows = record {
  stamp = map (stamp_table rows);
  program_tables-stamp = stamp-program_tables rows;
}

abbrev to_head : Stamp
to_head = stamp_with (at_revision (codes "0003"))

abbrev to_base : Stamp
to_base = stamp_with []

abbrev at_base : Catalog
at_base = versioned []

abbrev at_initial : Catalog
at_initial = versioned (at_revision (codes "0001"))

abbrev at_two_tier : Catalog
at_two_tier = versioned (at_revision (codes "0002"))

abbrev at_head : Catalog
at_head = versioned (at_revision (codes "0003"))

upgrade_head-metadata_example :
    (tables after : Catalog) × (do_run_migrations to_head (upgrade_head jsonb_eq) at_base
      ≡ (none, after))
    × (program_tables after ≡ tables ++ program_tables at_base)
    × AgreeAll tables metadata
upgrade_head-metadata_example =
    upgrade_head-metadata to_head jsonb_eq at_base (versioned-IsFree []) (helpers-IsFree [])

upgrade_from_initial-rows_example :
    do_run_migrations to_head (upgrade_from_initial jsonb_eq) (initial one_event at_initial) ≡ (
      if is_empty one_event.raw_events
      then (none, to_head.stamp (current one_event at_initial))
      else (some not_null_violation, initial one_event at_initial))
upgrade_from_initial-rows_example =
    upgrade_from_initial-rows to_head jsonb_eq at_initial one_event
      (helpers-IsFree (at_revision (codes "0001")))

downgrade_base-rows_example :
    (restored : Catalog) × (program_tables restored ≡ program_tables at_head)
    × (do_run_migrations to_base (downgrade_base jsonb_eq) (current nothing at_head) ≡ (
        if is_empty nothing.raw_events
        then (none, restored)
        else (some not_null_violation, current nothing at_head)))
downgrade_base-rows_example =
    downgrade_base-rows to_base jsonb_eq at_head nothing
      (versioned-IsFree (at_revision (codes "0003"))) (helpers-IsFree (at_revision (codes "0003")))
      (versioned-IsClosed (at_revision (codes "0003")))

upgrade-IsUnique_example :
    (UniquePrimary.upgrade jsonb_eq (two_tier one_event at_two_tier)
      ≡ done (current one_event at_two_tier))
    ↔ IsUnique same_primary (first_row ∷ [])
upgrade-IsUnique_example =
    upgrade-IsUnique jsonb_eq one_event (first_row ∷ []) at_two_tier refl
      (helpers-IsFree (at_revision (codes "0002")))

abbrev plain_url : Text
plain_url = codes "postgresql+asyncpg://glacis:secret@db/glacis"

-- a password with an at sign, percent-encoded
abbrev encoded_url : Text
encoded_url = codes "postgresql+asyncpg://glacis:p" ++ (37 ∷ 52 ∷ codes "0ss@db/glacis")

-- every URL here is of one host
abbrev database_of : Text → Text
database_of url = codes "db/glacis"

abbrev databases : Databases
databases name = at_base

env-do_run_migrations_example :
    (env to_head database_of false (upgrade_head jsonb_eq) plain_url databases ≡ (
      ended_of (do_run_migrations to_head (upgrade_head jsonb_eq) at_base).0,
      set_database
          (codes "db/glacis")
          (do_run_migrations to_head (upgrade_head jsonb_eq) at_base).1
          databases,
    ))
    × (env to_head database_of false (upgrade_head jsonb_eq) encoded_url databases
        ≡ (bad_url syntax_error, databases))
    × ((env to_head database_of true (upgrade_head jsonb_eq) plain_url databases).1 ≡ databases)
env-do_run_migrations_example =
    env-do_run_migrations to_head database_of (upgrade_head jsonb_eq) databases plain_url
      (codes "postgresql+asyncpg://glacis:p") (codes "0ss@db/glacis") plain_url 52 refl refl refl
      refl
