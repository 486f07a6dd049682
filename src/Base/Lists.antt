-- ===== src/Base/Lists.antt =====
-- Lists measured by native numbers, membership as data, and predicates on every element.
use mathlib.Core.List.{Permᴰ, List, [], ◌∷◌}
use mathlib.Core.Path.{◌≡◌, refl, sym, ◌∙◌}
use mathlib.Core.Option.{Option, none, some}
use Prim.Native.Nat.{ℕ, zero, suc, ◌≤◌}
use native.Mathlib.Omega.{arith}

pub data Member {ℓ} {A : Type ℓ} (a : A) : List A → Type ℓ where
  here : {x : A} {xs : List A} → x ≡ a → Member a (x ∷ xs)
  there : {x : A} {xs : List A} → Member a xs → Member a (x ∷ xs)

module _ {ℓ} {A : Type ℓ} where
  abbrev pub length : List A → ℕ
  length [] = 0
  length (x ∷ xs) = suc (length xs)

  abbrev pub take : ℕ → List A → List A
  take zero xs = []
  take (suc n) [] = []
  take (suc n) (x ∷ xs) = x ∷ take n xs

  abbrev pub head? : List A → Option A
  head? [] = none
  head? (x ∷ xs) = some x

  pub length-take-le : (n : ℕ) (xs : List A) → length (take n xs) ≤ n
  length-take-le zero xs = omega arith
  length-take-le (suc n) [] = omega arith
  length-take-le (suc n) (x ∷ xs) = omega (arith, length-take-le n xs)

  pub Member-perm : {a : A} {xs ys : List A} → Permᴰ xs ys → Member a xs → Member a ys
  Member-perm Permᴰ.nil m = elim m [ ]
  Member-perm (Permᴰ.cons e p) (here h) = here (sym e ∙ h)
  Member-perm (Permᴰ.cons e p) (there m) = there (Member-perm p m)
  Member-perm (Permᴰ.swap e f) (here h) = there (here (sym e ∙ h))
  Member-perm (Permᴰ.swap e f) (there (here h)) = here (sym f ∙ h)
  Member-perm (Permᴰ.swap e f) (there (there m)) = there (there m)
  Member-perm (Permᴰ.trans p q) m = Member-perm q (Member-perm p m)

  pub head?-Member : (xs : List A) (a : A) → head? xs ≡ some a → Member a xs
  head?-Member [] a h = cc
  head?-Member (x ∷ xs) a h = here (cc)

  pub Member-head? : {a : A} (xs : List A) → Member a xs → (b : A) × (head? xs ≡ some b)
  Member-head? [] m = elim m [ ]
  Member-head? (x ∷ xs) m = (x, refl)

abbrev pub All {ℓ κ} : {A : Type ℓ} → (A → Type κ) → List A → Type κ
All P [] = Unit
All P (x ∷ xs) = P x × All P xs

module _ {ℓ κ} {A : Type ℓ} (P : A → Type κ) where
  pub All-at : {a : A} (xs : List A) → All P xs → Member a xs → P a
  All-at [] h m = elim m [ ]
  All-at (x ∷ xs) h (here e) = rw (← e) h.0
  All-at (x ∷ xs) h (there m) = All-at xs h.1 m

  pub All-of : (xs : List A) → ((a : A) → Member a xs → P a) → All P xs
  All-of [] h = tt
  All-of (x ∷ xs) h = (h x (here refl), All-of xs (λ a m. h a (there m)))

  pub All-perm : {xs ys : List A} → Permᴰ xs ys → All P xs → All P ys
  All-perm Permᴰ.nil h = h
  All-perm (Permᴰ.cons e p) h = (rw e at (h.0), All-perm p h.1)
  All-perm (Permᴰ.swap e f) h = (rw f at (h.1.0), (rw e at (h.0), h.1.1))
  All-perm (Permᴰ.trans p q) h = All-perm q (All-perm p h)
