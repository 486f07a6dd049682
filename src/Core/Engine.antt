-- ===== src/Core/Engine.antt =====
-- app/core/db.py: the engine and the session factory of the process, which are made at their first
-- use and live in two globals of the module.
pub mod Managed
use glacis.Base.{ℕ, suc, not, Option, none, some, List, [], ◌∷◌, ◌==◌, Text, rows_where}
use glacis.Core.Errors.{Result, ok, raise}
use glacis.Core.Config.{Settings, Environ, get_settings}

-- what `create_async_engine` returns: an object, with a pool for the database of the URL
pub record Engine : Type 0 where
  pub serial : ℕ
  pub database_url : Text

pub record SessionFactory : Type 0 where
  pub bind : Engine

-- `_engine`, `_session_factory` and the cache of `get_settings`; `created` counts the engines that
-- were made, and `pools` are those that were not disposed of
pub record Globals : Type 0 where
  pub engine : Option Engine
  pub session_factory : Option SessionFactory
  pub settings : Option Settings
  pub created : ℕ
  pub pools : List Engine

-- after the import of the modules
abbrev pub imported : Globals
imported = record {
  engine = none;
  session_factory = none;
  settings = none;
  created = 0;
  pools = [];
}

-- an asynchronous engine of its own, and a pool with it
unfoldable pub create_async_engine : Text → Globals → Engine × Globals
create_async_engine url g =
    let e : Engine = record { serial = g.created; database_url = url } in
    (e, record g { created = suc g.created; pools = e ∷ g.pools })

-- the settings were read: an engine for their URL, in the global
abbrev pub engine_from : Result Settings → Globals → Result Engine × Globals
unfolding create_async_engine
engine_from (raise e) g = (raise e, g)
engine_from (ok settings) g =
    let (e, g') = create_async_engine settings.database_url g in
    (ok e, record g' { engine = some e })

unfoldable pub get_engine : Environ → Globals → Result Engine × Globals
unfolding create_async_engine get_settings
get_engine environ g = elim g.engine [
  | some e ↦ (ok e, g)
  | none ↦
      let (settings, cached) = get_settings environ g.settings in
      engine_from settings (record g { settings = cached })
]

-- `async_sessionmaker(bind=get_engine(), …)`, in the other global
abbrev pub factory_from : Result Engine × Globals → Result SessionFactory × Globals
factory_from (raise e, g) = (raise e, g)
factory_from (ok e, g) =
    let f : SessionFactory = record { bind = e } in (ok f, record g { session_factory = some f })

unfoldable pub get_session_factory : Environ → Globals → Result SessionFactory × Globals
unfolding get_engine
get_session_factory environ g = elim g.session_factory [
  | some f ↦ (ok f, g)
  | none ↦ factory_from (get_engine environ g)
]

-- `await _engine.dispose()` closes the pool
abbrev pub close_pool : Engine → List Engine → List Engine
close_pool e pools = rows_where (λ (x : Engine). not (e.serial == x.serial)) pools

unfoldable pub dispose_engine : Globals → Globals
dispose_engine g = elim g.engine [
  | none ↦ g
  | some e ↦ record g { engine = none; session_factory = none; pools = close_pool e g.pools }
]

-- what the program calls, in any order; `session_scope` calls `get_session_factory`
pub data Call : Type 0 where
  settings engine session_factory dispose : Call

unfoldable pub after_call : Environ → Call → Globals → Globals
unfolding get_settings get_engine get_session_factory dispose_engine
after_call environ Call.settings g = record g { settings = (get_settings environ g.settings).1 }
after_call environ Call.engine g = (get_engine environ g).1
after_call environ Call.session_factory g = (get_session_factory environ g).1
after_call environ Call.dispose g = dispose_engine g

-- each call with the environment that it meets
unfoldable pub after_calls : List (Environ × Call) → Globals → Globals
unfolding after_call
after_calls [] g = g
after_calls ((environ, c) ∷ cs) g = after_calls cs (after_call environ c g)

-- `lifespan` of the API: the settings, what the requests call, and then the engine is disposed of.
-- Settings that are refused end it before the first request.
unfoldable pub lifespan : Environ → List (Environ × Call) → Globals → Result (Unit {0}) × Globals
unfolding get_settings after_calls dispose_engine
lifespan environ requests g =
    let (read, cached) = get_settings environ g.settings in
    elim read [
      | raise e ↦ (raise e, record g { settings = cached })
      | ok _ ↦ (ok tt, dispose_engine (after_calls requests (record g { settings = cached })))
    ]
