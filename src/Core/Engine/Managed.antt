-- ===== src/Core/Engine/Managed.antt =====
-- The globals of app/core/db.py after any calls.
use glacis.Base.{
  ◌≡◌, refl, ◌∙◌, sym, subst, Option, none, some, List, [], ◌∷◌, arith, Option-cases, inl, inr,
}
use glacis.Core.Errors.{Error, Result, ok, raise, Result-cases}
use glacis.Core.Config.{Settings, Environ, get_settings}
use glacis.Core.Engine.{
  Engine, SessionFactory, Globals, imported, engine_from, create_async_engine, get_engine,
  factory_from, get_session_factory, dispose_engine, Call, after_call, after_calls, lifespan,
}

abbrev IsBoundTo : Engine → Option SessionFactory → Type 0
IsBoundTo e none = Unit
IsBoundTo e (some f) = f.bind ≡ e

-- the settings that are cached name the database of the engine
abbrev IsConfigured : Engine → Option Settings → Type 0
IsConfigured e none = ⊥
IsConfigured e (some s) = e.database_url ≡ s.database_url

abbrev IsManagedBy : Option Engine → Globals → Type 0
IsManagedBy none g = (g.session_factory ≡ none) × (g.pools ≡ [])
IsManagedBy (some e) g =
    IsBoundTo e g.session_factory × (g.pools ≡ e ∷ []) × IsConfigured e g.settings

-- one pool at most is open, the global's, and the session factory uses it
abbrev IsManaged : Globals → Type 0
IsManaged g = IsManagedBy g.engine g

-- settings that are cached stay
abbrev KeepsSettings : Globals → Globals → Type 0
KeepsSettings g g' = (s : Settings) → g.settings ≡ some s → g'.settings ≡ some s

-- what `get_engine` does
data Got (environ : Environ) (g : Globals) : Type 0 where
  kept : (e : Engine) → g.engine ≡ some e → get_engine environ g ≡ (ok e, g) → Got environ g
  made :
      (s : Settings)
      → g.engine ≡ none
      → get_settings environ g.settings ≡ (ok s, some s)
      → get_engine environ g ≡ engine_from (ok s) (record g { settings = some s })
      → Got environ g
  refused :
      (e : Error)
      → g.engine ≡ none
      → g.settings ≡ none
      → get_engine environ g ≡ (raise e, g)
      → Got environ g

get_engine-Got : (environ : Environ) (g : Globals) → Got environ g
unfolding get_engine create_async_engine get_settings
get_engine-Got environ g = elim (Option-cases g.engine) [
  | inr (e, there) ↦ kept e there (ground (arith, there))
  | inl missing ↦ elim (Option-cases g.settings) [
    | inr (s, cached) ↦ made s missing (ground (arith, cached)) (ground (arith, missing, cached))
    | inl unread ↦ elim (Result-cases environ) [
      | inl (s, fine) ↦
          made s missing (ground (arith, unread, fine)) (ground (arith, missing, unread, fine))
      | inr (e, bad) ↦ refused e missing unread (ground (arith, missing, unread, bad))
    ]
  ]
]

-- What the calls keep: the globals are managed, and settings that are cached stay.
record Safe (g g' : Globals) : Type 0 where
  managed : IsManaged g'
  settings : KeepsSettings g g'

module _ (environ : Environ) (g : Globals) (inv : IsManaged g) where
  cached_stays :
      (s t : Settings)
      → get_settings environ g.settings ≡ (ok s, some s)
      → g.settings ≡ some t
      → some s ≡ some t
  unfolding get_settings
  cached_stays s t read h = ground (arith, h, read)

  Got-Safe :
      Got environ g
      → Safe g (get_engine environ g).1
        × ((e : Engine)
            → (get_engine environ g).0 ≡ ok e
            → (get_engine environ g).1.engine ≡ some e)
  unfolding create_async_engine
  Got-Safe (kept e there h) =
      rw h (record { managed = inv; settings = λ s c. c }, λ x same. ground (arith, there, same))
  Got-Safe (refused e missing unread h) =
      rw h (record { managed = inv; settings = λ s c. c }, λ x same. cc)
  Got-Safe (made s missing read h) = rw h (
    record { managed = ground (arith, missing, inv); settings = λ t c. cached_stays s t read c },
    λ x same. ground (arith, same),
  )

  get_engine-Safe :
      Safe g (get_engine environ g).1
      × ((e : Engine) → (get_engine environ g).0 ≡ ok e → (get_engine environ g).1.engine ≡ some e)
  get_engine-Safe = Got-Safe (get_engine-Got environ g)

  -- a factory that is returned is bound to the open pool
  abbrev IsServed : Result SessionFactory × Globals → Type 0
  IsServed (r, g') =
      Safe g g'
      × ((f : SessionFactory) → r ≡ ok f → (g'.engine ≡ some f.bind) × (g'.pools ≡ f.bind ∷ []))

  factory_by :
      (r : Result Engine × Globals)
      → Safe g r.1
      → ((e : Engine) → r.0 ≡ ok e → r.1.engine ≡ some e)
      → IsServed (factory_from r)
  factory_by (raise e, g') safe engine = (safe, λ f same. cc)
  factory_by (ok e, g') safe engine =
      let held : g'.engine ≡ some e = engine e refl in
      let managed : IsManaged g' = safe.managed in
      (
        record { managed = ground (arith, held, managed); settings = safe.settings },
        λ f same. (ground (arith, held, same), ground (arith, held, managed, same)),
      )

  kept_factory :
      (f x : SessionFactory)
      → g.session_factory ≡ some f
      → ok f ≡ ok x
      → (g.engine ≡ some x.bind) × (g.pools ≡ x.bind ∷ [])
  kept_factory f x there same = elim (Option-cases g.engine) [
    | inl missing ↦ absurd (ground (arith, missing, there, inv))
    | inr (e, held) ↦ ground (arith, held, there, inv, same)
  ]

  get_session_factory-IsServed : IsServed (get_session_factory environ g)
  unfolding get_session_factory
  get_session_factory-IsServed = elim (Option-cases g.session_factory) [
    | inr (f, there) ↦
        let h : get_session_factory environ g ≡ (ok f, g) = ground (arith, there) in
        subst IsServed (sym h)
          (record { managed = inv; settings = λ s c. c }, λ x same. kept_factory f x there same)
    | inl missing ↦
        let h : get_session_factory environ g ≡ factory_from (get_engine environ g) =
          ground (arith, missing) in
        subst IsServed (sym h)
          (factory_by (get_engine environ g) get_engine-Safe.0 get_engine-Safe.1)
  ]

dispose_engine-Safe :
    (g : Globals) → IsManaged g → Safe g (dispose_engine g) × ((dispose_engine g).pools ≡ [])
unfolding dispose_engine
dispose_engine-Safe g inv = elim (Option-cases g.engine) [
  | inl missing ↦ (
    record { managed = ground (arith, missing, inv); settings = λ s c. ground (arith, missing, c) },
    ground (arith, missing, inv),
  )
  | inr (e, there) ↦ (
    record { managed = ground (arith, there, inv); settings = λ s c. ground (arith, there, c) },
    ground (arith, there, inv),
  )
]

get_settings-Safe :
    (environ : Environ) (g : Globals)
    → IsManaged g
    → Safe g (record g { settings = (get_settings environ g.settings).1 })
unfolding get_settings
get_settings-Safe environ g inv = elim (Option-cases g.settings) [
  | inr (s, cached) ↦ record {
    managed = elim (Option-cases g.engine) [
      | inl missing ↦ ground (arith, cached, missing, inv)
      | inr (e, there) ↦ ground (arith, cached, there, inv)
    ];
    settings = λ t c. ground (arith, cached, c);
  }
  | inl unread ↦ record {
    managed = elim (Option-cases g.engine) [
      | inl missing ↦ ground (arith, unread, missing, inv)
      | inr (e, there) ↦ absurd (ground (arith, unread, there, inv))
    ];
    settings = λ t c. absurd (ground (arith, unread, c));
  }
]

Safe-trans : {g h k : Globals} → Safe g h → Safe h k → Safe g k
Safe-trans p q = record { managed = q.managed; settings = λ s c. q.settings s (p.settings s c) }

after_call-Safe :
    (environ : Environ) (c : Call) (g : Globals) → IsManaged g → Safe g (after_call environ c g)
unfolding after_call
after_call-Safe environ Call.settings g inv = get_settings-Safe environ g inv
after_call-Safe environ Call.engine g inv = (get_engine-Safe environ g inv).0
after_call-Safe environ Call.session_factory g inv = (get_session_factory-IsServed environ g inv).0
after_call-Safe environ Call.dispose g inv = (dispose_engine-Safe g inv).0

after_calls-Safe :
    (calls : List (Environ × Call)) (g : Globals) → IsManaged g → Safe g (after_calls calls g)
unfolding after_calls
after_calls-Safe [] g inv = record { managed = inv; settings = λ s c. c }
after_calls-Safe ((environ, c) ∷ cs) g inv =
    let first = after_call-Safe environ c g inv in
    Safe-trans first (after_calls-Safe cs (after_call environ c g) first.managed)

lifespan-pools :
    (environ : Environ) (requests : List (Environ × Call))
    → (lifespan environ requests imported).1.pools ≡ []
unfolding lifespan get_settings
lifespan-pools (raise e) requests = refl
lifespan-pools (ok s) requests =
    let g = record imported { settings = some s } in
    (dispose_engine-Safe (after_calls requests g)
      (after_calls-Safe requests g (refl, refl)).managed).1

-- the settings name the database of the engine that is managed
managed-url :
    (g : Globals) (e : Engine)
    → IsManaged g
    → g.engine ≡ some e
    → (s : Settings) × (g.settings ≡ some s) × (e.database_url ≡ s.database_url)
managed-url g e inv held = elim (Option-cases g.settings) [
  | inl unread ↦ absurd (ground (arith, held, unread, inv))
  | inr (s, cached) ↦ (s, cached, ground (arith, held, cached, inv))
]

-- After any calls of `get_settings`, `get_engine`, `get_session_factory` and `dispose_engine`, in any
-- order, the session factory that a transaction gets uses an engine that is not disposed of, and is
-- the only one; one that a later transaction gets, after any more calls and under whatever
-- environment, is for the same database; and when the API shuts down after these calls, no engine
-- is left open.
pub get_session_factory-pools :
    (calls more : List (Environ × Call)) (environ later : Environ) (f f' : SessionFactory)
    → (get_session_factory environ (after_calls calls imported)).0 ≡ ok f
    → (get_session_factory later
        (after_calls more (get_session_factory environ (after_calls calls imported)).1)).0
      ≡ ok f'
    → ((get_session_factory environ (after_calls calls imported)).1.pools ≡ f.bind ∷ [])
      × (f'.bind.database_url ≡ f.bind.database_url)
      × ((lifespan environ calls imported).1.pools ≡ [])
get_session_factory-pools calls more environ later f f' h h' =
    let g = after_calls calls imported in
    let (safe, bound) =
      get_session_factory-IsServed environ g
        (after_calls-Safe calls imported (refl, refl)).managed in
    let t = (get_session_factory environ g).1 in
    let onwards = after_calls-Safe more t safe.managed in
    let (safe', bound') = get_session_factory-IsServed later (after_calls more t) onwards.managed in
    let (s, cached, own) = managed-url t f.bind safe.managed (bound f h).0 in
    let (s', cached', own') =
      managed-url (get_session_factory later (after_calls more t)).1 f'.bind safe'.managed
        (bound' f' h').0 in
    let same : some s' ≡ some s = sym cached' ∙ safe'.settings s (onwards.settings s cached) in
    ((bound f h).1, ground (arith, own, own', same), lifespan-pools environ calls)
