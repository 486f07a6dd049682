-- ===== src/Base/Rows.antt =====
-- A table as the list of its rows: WHERE, UPDATE and INSERT under unique constraints.
use mathlib.Core.Path.{◌≡◌, refl, sym, ◌∙◌}
use mathlib.Core.Logic.{◌⊎◌, inl, inr}
use mathlib.Core.Bool.{Bool, true, false, ◌||◌, false≢true}
use mathlib.Core.Option.{Option, none, some}
use mathlib.Core.List.{List, [], ◌∷◌}
use Prim.Native.Nat.{ℕ, suc}
use native.Mathlib.Omega.{arith}
use glacis.Base.Tests.{if◌then◌else◌, Bool-cases}
use glacis.Base.Lists.{Member, here, there, All, length}

module _ {ℓ} {A : Type ℓ} where
  -- is there a row that passes the test?
  abbrev pub any_row : (A → Bool) → List A → Bool
  any_row p [] = false
  any_row p (x ∷ xs) = p x || any_row p xs

  abbrev pub first_row : (A → Bool) → List A → Option A
  first_row p [] = none
  first_row p (x ∷ xs) = if p x then some x else first_row p xs

  abbrev pub rows_where : (A → Bool) → List A → List A
  rows_where p [] = []
  rows_where p (x ∷ xs) = let rest = rows_where p xs in if p x then x ∷ rest else rest

  abbrev pub count_where : (A → Bool) → List A → ℕ
  count_where p [] = 0
  count_where p (x ∷ xs) = let rest = count_where p xs in if p x then suc rest else rest

  abbrev pub update_where : (A → Bool) → (A → A) → List A → List A
  update_where p f [] = []
  update_where p f (x ∷ xs) = (if p x then f x else x) ∷ update_where p f xs

  -- no two rows clash: a unique constraint, for a symmetric `clash`
  abbrev pub IsUnique : (A → A → Bool) → List A → Type 0
  IsUnique clash [] = Unit
  IsUnique clash (x ∷ xs) = (any_row (clash x) xs ≡ false) × IsUnique clash xs

module _ {ℓ} {A : Type ℓ} where
  cons_if-Member :
      {a : A} (b : Bool) (x : A) (xs : List A)
      → Member a (if b then x ∷ xs else xs)
      → ((x ≡ a) × (b ≡ true)) ⊎ Member a xs
  cons_if-Member true x xs (here e) = inl (e, refl)
  cons_if-Member true x xs (there m) = inr m
  cons_if-Member false x xs m = inr m

  Member-cons_if :
      {a : A} (b : Bool) (x : A) (xs : List A) → Member a xs → Member a (if b then x ∷ xs else xs)
  Member-cons_if true x xs m = there m
  Member-cons_if false x xs m = m

module _ {ℓ} {A : Type ℓ} (p : A → Bool) where
  -- a selected row is a row of the table that passes the test
  pub rows_where-Member :
      {a : A} (xs : List A) → Member a (rows_where p xs) → Member a xs × (p a ≡ true)
  rows_where-Member [] m = elim m [ ]
  rows_where-Member (x ∷ xs) m = elim (cons_if-Member (p x) x (rows_where p xs) m) [
    | inl h ↦ (here h.0, rw (← h.0) h.1)
    | inr m' ↦ let (k, t) = rows_where-Member xs m' in (there k, t)
  ]

  -- and every such row is selected
  pub Member-rows_where :
      {a : A} (xs : List A) → Member a xs → p a ≡ true → Member a (rows_where p xs)
  Member-rows_where [] m h = elim m [ ]
  Member-rows_where {a} (x ∷ xs) (here e) h = rw (e, h) (here refl)
  Member-rows_where (x ∷ xs) (there m) h =
      Member-cons_if (p x) x (rows_where p xs) (Member-rows_where xs m h)

  pub any_row-of_Member : {a : A} (xs : List A) → Member a xs → p a ≡ true → any_row p xs ≡ true
  any_row-of_Member [] m h = elim m [ ]
  any_row-of_Member (x ∷ xs) (here e) h = rw (e, h) refl
  any_row-of_Member (x ∷ xs) (there m) h = ground (arith, any_row-of_Member xs m h)

  pub first_row-Member :
      (xs : List A) (a : A) → first_row p xs ≡ some a → Member a xs × (p a ≡ true)
  first_row-Member [] a h = cc
  first_row-Member (x ∷ xs) a h = elim (Bool-cases (p x)) [
    | inl t ↦ (here (ground arith), ground arith)
    | inr f ↦ let (m, t) = first_row-Member xs a (ground arith) in (there m, t)
  ]

  pub first_row-none : (xs : List A) → any_row p xs ≡ false → first_row p xs ≡ none
  first_row-none [] h = refl
  first_row-none (x ∷ xs) h = ground (arith, first_row-none xs)

  pub first_row-some : (xs : List A) → any_row p xs ≡ true → (a : A) × (first_row p xs ≡ some a)
  first_row-some [] h = cc
  first_row-some (x ∷ xs) h = elim (Bool-cases (p x)) [
    | inl t ↦ (x, ground arith)
    | inr f ↦ let (a, e) = first_row-some xs (ground arith) in (a, ground arith)
  ]

  module _ (f : A → A) where
    -- a test that the update does not change holds of as many rows
    pub any_row-update :
        (q : A → Bool) (xs : List A)
        → ((x : A) → q (f x) ≡ q x)
        → any_row q (update_where p f xs) ≡ any_row q xs
    any_row-update q [] keep = refl
    any_row-update q (x ∷ xs) keep = ground (arith, keep x, any_row-update q xs keep)

    pub first_row-update :
        (q : A → Bool) (xs : List A) (a : A)
        → ((x : A) → q (f x) ≡ q x)
        → first_row q xs ≡ some a
        → first_row q (update_where p f xs) ≡ some (if p a then f a else a)
    first_row-update q [] a keep h = cc
    first_row-update q (x ∷ xs) a keep h = ground (arith, keep x, first_row-update q xs a keep)

    pub All-update {κ} :
        (P : A → Type κ) (xs : List A)
        → All P xs
        → ((x : A) → P x → p x ≡ true → P (f x))
        → All P (update_where p f xs)
    All-update P [] h step = tt
    All-update P (x ∷ xs) h step = elim (Bool-cases (p x)) [
      | inl t ↦ rw t (step x h.0 t, All-update P xs h.1 step)
      | inr e ↦ rw e (h.0, All-update P xs h.1 step)
    ]

    pub length-update : (xs : List A) → length (update_where p f xs) ≡ length xs
    length-update [] = refl
    length-update (x ∷ xs) = omega (arith, length-update xs)

    -- an update that keeps what the constraint compares keeps the constraint
    pub IsUnique-update :
        (clash : A → A → Bool) (xs : List A)
        → ((x y : A) → clash (f x) y ≡ clash x y)
        → ((x y : A) → clash x (f y) ≡ clash x y)
        → IsUnique clash xs
        → IsUnique clash (update_where p f xs)
    IsUnique-update clash [] left right u = tt
    IsUnique-update clash (x ∷ xs) left right u = elim (Bool-cases (p x)) [
      | inl t ↦ rw t (
        any_row-update (clash (f x)) xs (right (f x)) ∙ any_row-ext left x xs ∙ u.0,
        IsUnique-update clash xs left right u.1,
      )
      | inr e ↦
          rw e
            (any_row-update (clash x) xs (right x) ∙ u.0, IsUnique-update clash xs left right u.1)
    ]
      where
        any_row-ext :
            ((x y : A) → clash (f x) y ≡ clash x y)
            → (x : A) (ys : List A) → any_row (clash (f x)) ys ≡ any_row (clash x) ys
        any_row-ext l x [] = refl
        any_row-ext l x (y ∷ ys) = ground (arith, l x y, any_row-ext l x ys)

    pub update_where-none : (xs : List A) → any_row p xs ≡ false → update_where p f xs ≡ xs
    update_where-none [] h = refl
    update_where-none (x ∷ xs) h = ground (arith, update_where-none xs)

module _ {ℓ} {A : Type ℓ} (clash : A → A → Bool) where
  -- two rows that clash with each other, in a table that the constraint holds of, are one row
  pub IsUnique-eq :
      {a b : A} (xs : List A)
      → IsUnique clash xs
      → Member a xs
      → Member b xs
      → clash a b ≡ true
      → clash b a ≡ true
      → a ≡ b
  IsUnique-eq [] u m n p q = elim m [ ]
  IsUnique-eq (x ∷ xs) u (here e) (here f) p q = sym e ∙ f
  IsUnique-eq {a} {b} (x ∷ xs) u (here e) (there n) p q =
      absurd (false≢true (sym u.0 ∙ any_row-of_Member (clash x) xs n (rw e p)))
  IsUnique-eq {a} {b} (x ∷ xs) u (there m) (here f) p q =
      absurd (false≢true (sym u.0 ∙ any_row-of_Member (clash x) xs m (rw f q)))
  IsUnique-eq (x ∷ xs) u (there m) (there n) p q = IsUnique-eq xs u.1 m n p q

module _ {ℓ} {A : Type ℓ} (p : A → Bool) (f : A → A) where
  pub first_row-update_none :
      (q : A → Bool) (xs : List A)
      → ((x : A) → q (f x) ≡ q x)
      → first_row q xs ≡ none
      → first_row q (update_where p f xs) ≡ none
  first_row-update_none q [] keep h = refl
  first_row-update_none q (x ∷ xs) keep h = ground (arith, keep x, first_row-update_none q xs keep)

module _ {ℓ} {A : Type ℓ} where
  pub any_row-of_first : (p : A → Bool) (xs : List A) → first_row p xs ≡ none → any_row p xs ≡ false
  any_row-of_first p [] h = refl
  any_row-of_first p (x ∷ xs) h = ground (arith, any_row-of_first p xs)

module _ {ℓ} {A : Type ℓ} (p : A → Bool) (f : A → A) where
  -- a row after the update was there before, or is the image of a selected row
  pub update-Member :
      {a : A} (xs : List A)
      → Member a (update_where p f xs)
      → (b : A) × Member b xs × (a ≡ (if p b then f b else b))
  update-Member [] m = elim m [ ]
  update-Member (x ∷ xs) (here e) = (x, here refl, sym e)
  update-Member (x ∷ xs) (there m) = let (b, n, e) = update-Member xs m in (b, there n, e)

  -- and every row is there after it, changed if it is selected
  pub Member-update :
      {a : A} (xs : List A) → Member a xs → Member (if p a then f a else a) (update_where p f xs)
  Member-update [] m = elim m [ ]
  Member-update (x ∷ xs) (here e) = rw e (here refl)
  Member-update (x ∷ xs) (there m) = there (Member-update xs m)

-- two UPDATEs of the same rows are one
pub update-update {ℓ} :
    {A : Type ℓ} (p : A → Bool) (f g : A → A) (xs : List A)
    → ((x : A) → p (f x) ≡ p x)
    → update_where p g (update_where p f xs) ≡ update_where p (λ x. g (f x)) xs
update-update p f g [] same = refl
update-update p f g (x ∷ xs) same = ground (arith, update-update p f g xs, same x)
