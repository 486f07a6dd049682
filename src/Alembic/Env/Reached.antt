-- ===== src/Alembic/Env/Reached.antt =====
-- Which database the migrations reach.
use glacis.Base.{◌≡◌, refl, ℕ, true, false, ◌∷◌, ◌++◌, arith, Text, ◌==◌}
use glacis.Alembic.Schema.{Catalog, Outcome}
use glacis.Alembic.Config.{
  Interpolated, value, missing_option, syntax_error, interpolate, has, interpolate-plain,
  interpolate-lone,
}
use glacis.Alembic.Env.{
  Stamp, do_run_migrations, Databases, bad_url, set_database, ended_of, run_migrations_online,
  run_migrations_offline, env,
}

module _ (alembic : Stamp) (database_of : Text → Text) (run_migrations : Catalog → Outcome Catalog)
    (databases : Databases) where
  offline_by :
      (url : Text) (r : Interpolated)
      → interpolate url ≡ r
      → (env alembic database_of true run_migrations url databases).1 ≡ databases
  unfolding env run_migrations_offline
  offline_by url (value v) h = ground (arith, h)
  offline_by url missing_option h = ground (arith, h)
  offline_by url syntax_error h = ground (arith, h)

  -- If the `database_url` of the settings has no `%`, a run of alembic does to the database that it
  -- names what the migrations do, and changes no other. If its first `%` is followed by a character
  -- that is neither `%` nor `(`, as in a percent-encoded password, the run is refused and no database
  -- changes. In the offline mode no database changes, whatever the URL.
  pub env-do_run_migrations :
      (url before rest any_url : Text) (c : ℕ)
      → has 37 url ≡ false
      → has 37 before ≡ false
      → (c == 37) ≡ false
      → (c == 40) ≡ false
      → (env alembic database_of false run_migrations url databases ≡ (
        ended_of (do_run_migrations alembic run_migrations (databases (database_of url))).0,
        set_database
            (database_of url)
            (do_run_migrations alembic run_migrations (databases (database_of url))).1
            databases,
      ))
        × (env alembic database_of false run_migrations (before ++ (37 ∷ c ∷ rest)) databases
            ≡ (bad_url syntax_error, databases))
        × ((env alembic database_of true run_migrations any_url databases).1 ≡ databases)
  unfolding env run_migrations_online
  env-do_run_migrations url before rest any_url c plain clean p q =
      let value_of = interpolate-plain url plain in
      let none_of = interpolate-lone before c rest clean p q in
      (
        rw (value_of, env) refl,
        rw (none_of, env) refl,
        offline_by any_url (interpolate any_url) refl,
      )
