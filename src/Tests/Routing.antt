-- ===== src/Tests/Routing.antt =====
-- A router that takes the first route that matches.
use glacis.Base.{
  ◌≡◌, ◌∙◌, refl, ap, subst, Bool, true, false, none, some, List, [], ◌∷◌, arith, Text, text_eq,
  text_eq_sound, text_eq_refl, Bool-cases, Option-cases, inl, inr, Member, here, there,
  if◌then◌else◌,
}
use glacis.Api.App.{
  Method, get, post, other, Segment, lit, param, Endpoint, Route, Fills, ended, literal, captured,
  Found, not_found, method_not_allowed, found, Router,
}
use glacis.Api.App.Routes.{match, Fills-match}

abbrev is_method : Method → Method → Bool
is_method get get = true
is_method post post = true
is_method (other m) (other n) = text_eq m n
is_method _ _ = false

-- a path that only other methods have is remembered
unfoldable pub select : Method → List Text → List Route → Bool → Found
unfolding match
select method path [] known = if known then method_not_allowed else not_found
select method path (r ∷ routes) known = elim (match r.path path) [
  | none ↦ select method path routes known
  | some captures ↦
      if is_method r.method method
      then found r.endpoint captures
      else select method path routes true
]

some_inj {ℓ} : {A : Type ℓ} (a b : A) → some a ≡ some b → a ≡ b
some_inj a b h = cc

match-Fills :
    (pattern : List Segment) (path captures : List Text)
    → match pattern path ≡ some captures
    → Fills pattern captures path
unfolding match
match-Fills [] [] captures h = subst (λ cs. Fills [] cs []) (some_inj [] captures h) ended
match-Fills [] (part ∷ parts) captures h = cc
match-Fills (s ∷ more) [] captures h = cc
match-Fills (lit text ∷ more) (part ∷ parts) captures h = elim (Bool-cases (text_eq text part)) [
  | inl same ↦
      rw (← text_eq_sound text part same)
        (literal (match-Fills more parts captures (ground (arith, same, h))))
  | inr differ ↦ absurd (ground (arith, differ))
]
match-Fills (param ∷ more) ([] ∷ parts) captures h = cc
match-Fills (param ∷ more) ((c ∷ text) ∷ parts) captures h =
    elim (Option-cases (match more parts)) [
      | inl miss ↦ absurd (ground (arith, miss))
      | inr (rest, hit) ↦
          let same : ((c ∷ text) ∷ rest) ≡ captures =
            some_inj _ captures (ground (arith, hit, h)) in
          subst (λ cs. Fills (param ∷ more) cs ((c ∷ text) ∷ parts)) same
            (captured (match-Fills more parts rest hit))
    ]

is_method_sound : (m n : Method) → is_method m n ≡ true → m ≡ n
is_method_sound get get h = refl
is_method_sound get post h = cc
is_method_sound get (other n) h = cc
is_method_sound post get h = cc
is_method_sound post post h = refl
is_method_sound post (other n) h = cc
is_method_sound (other m) get h = cc
is_method_sound (other m) post h = cc
is_method_sound (other m) (other n) h = ap other (text_eq_sound m n h)

is_method_refl : (m : Method) → is_method m m ≡ true
is_method_refl get = refl
is_method_refl post = refl
is_method_refl (other m) = text_eq_refl m

pub select_sound :
    (known : Bool) (routes : List Route) (method : Method) (path captures : List Text)
    (e : Endpoint)
    → select method path routes known ≡ found e captures
    → (r : Route) × Member r routes
      × (r.endpoint ≡ e)
      × (r.method ≡ method)
      × Fills r.path captures path
unfolding select
select_sound true [] method path captures e h = cc
select_sound false [] method path captures e h = cc
select_sound known (r ∷ routes) method path captures e h = elim (Option-cases (match r.path path)) [
  | inl miss ↦
      let (q, m, a, b, c) =
        select_sound known routes method path captures e (ground (arith, miss, h)) in
      (q, there m, a, b, c)
  | inr (cs, hit) ↦ elim (Bool-cases (is_method r.method method)) [
    | inl same ↦ (
      r,
      here refl,
      ground (arith, hit, same, h),
      is_method_sound r.method method same,
      match-Fills r.path path captures (hit ∙ ground (arith, hit, same, h)),
    )
    | inr differ ↦
        let (q, m, a, b, c) =
          select_sound true routes method path captures e (ground (arith, hit, differ, h)) in
        (q, there m, a, b, c)
  ]
]

pub select_complete :
    (known : Bool) (routes : List Route) (r : Route) (path captures : List Text)
    → Member r routes
    → Fills r.path captures path
    → (e : Endpoint) × (cs : List Text) × (select r.method path routes known ≡ found e cs)
unfolding select
select_complete known [] r path captures m f = elim m [ ]
select_complete known (q ∷ routes) r path captures (here same) f =
    let hit : match q.path path ≡ some captures = rw same (Fills-match f) in
    let own : is_method q.method r.method ≡ true = rw same (is_method_refl r.method) in
    (q.endpoint, captures, ground (arith, hit, own))
select_complete known (q ∷ routes) r path captures (there m) f =
    elim (Option-cases (match q.path path)) [
      | inl miss ↦
          let (e, cs, h) = select_complete known routes r path captures m f in
          (e, cs, ground (arith, miss, h))
      | inr (taken, hit) ↦ elim (Bool-cases (is_method q.method r.method)) [
        | inl same ↦ (q.endpoint, taken, ground (arith, hit, same))
        | inr differ ↦
            let (e, cs, h) = select_complete true routes r path captures m f in
            (e, cs, ground (arith, hit, differ, h))
      ]
    ]

abbrev pub first_match : Router
first_match = record {
  dispatch = λ routes method path. select method path routes false;
  dispatch_sound = select_sound false;
  dispatch_complete = select_complete false;
}
