-- ===== src/Tests/EngineTests.antt =====
-- The globals of the engine after some calls, under an environment that changes.
use glacis.Base.{◌≡◌, refl, List, [], ◌∷◌, codes}
use glacis.Core.Errors.{ok, raise, validation_error}
use glacis.Core.Config.{default_settings, Environ, get_settings}
use glacis.Core.Engine.{
  SessionFactory, imported, create_async_engine, get_engine, get_session_factory, dispose_engine,
  lifespan, Call, after_call, after_calls,
}
use glacis.Core.Engine.Managed.{get_session_factory-pools}

abbrev moved : Environ
moved =
    ok (record default_settings { database_url = codes "postgresql+asyncpg://glacis@other/glacis" })

abbrev calls : List (Environ × Call)
calls = (raise (validation_error (codes "log_level")), Call.engine) ∷ []

abbrev more : List (Environ × Call)
more = (moved, Call.dispose) ∷ (moved, Call.engine) ∷ []

abbrev first_factory : SessionFactory
first_factory = record {
  bind = record { serial = 0; database_url = default_settings.database_url };
}

abbrev second_factory : SessionFactory
second_factory = record {
  bind = record { serial = 1; database_url = default_settings.database_url };
}

get_session_factory-pools_example :
    ((get_session_factory (ok default_settings) (after_calls calls imported)).1.pools
      ≡ first_factory.bind ∷ [])
    × (second_factory.bind.database_url ≡ first_factory.bind.database_url)
    × ((lifespan (ok default_settings) calls imported).1.pools ≡ [])
unfolding get_settings create_async_engine get_engine get_session_factory dispose_engine after_call
    after_calls
get_session_factory-pools_example =
    get_session_factory-pools calls more (ok default_settings) moved first_factory second_factory
      refl refl
