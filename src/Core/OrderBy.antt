-- ===== src/Core/OrderBy.antt =====
-- ORDER BY, which Postgres implements: it returns the selected rows in an order that the key
-- sorts. Rows with one key may come in any order.
use mathlib.Core.List.{Permᴰ}
use mathlib.Core.List.Permᴰ
use mathlib.Core.Bool.{false≢true}
use glacis.Base.{
  ℕ, ◌≤◌, ◌≡◌, sym, ◌∙◌, inl, inr, Bool, true, false, Option, none, some, List, [], ◌∷◌, arith,
  Option-cases, head?, Member, here, there, All, All-at, head?-Member, Member-head?, Member-perm,
  any_row, any_row-of_Member, rows_where, rows_where-Member, Member-rows_where, first_row-some,
  first_row-Member,
}

abbrev pub IsSorted {ℓ} : {A : Type ℓ} → (A → ℕ) → List A → Type 0
IsSorted key [] = Unit
IsSorted key (x ∷ xs) = All (λ y. key x ≤ key y) xs × IsSorted key xs

pub record OrderBy {ℓ} {A : Type ℓ} (key : A → ℕ) : Type ℓ where
  pub order_by : List A → List A
  pub order_by-perm : (xs : List A) → Permᴰ (order_by xs) xs
  pub order_by-IsSorted : (xs : List A) → IsSorted key (order_by xs)

head?-le {ℓ} :
    {A : Type ℓ} (key : A → ℕ) (xs : List A) (a b : A)
    → IsSorted key xs
    → head? xs ≡ some a
    → Member b xs
    → key a ≤ key b
head?-le key [] a b s h m = elim m [ ]
head?-le key (x ∷ xs) a b s h (here e) = ground arith
head?-le key (x ∷ xs) a b s h (there m) =
    let f : key x ≤ key b = All-at (λ y. key x ≤ key y) xs s.0 m in ground arith

module _ {ℓ} {A : Type ℓ} {key : A → ℕ} (order : OrderBy key) where
  -- SELECT … WHERE p ORDER BY key LIMIT 1
  unfoldable pub select_first : (A → Bool) → List A → Option A
  select_first p rows = head? (order.order_by (rows_where p rows))

  module _ (p : A → Bool) (rows : List A) where
    pub select_first-Member : (a : A) → select_first p rows ≡ some a → Member a rows × (p a ≡ true)
    unfolding select_first
    select_first-Member a h =
        rows_where-Member p rows (Member-perm (order.order_by-perm _) (head?-Member _ a h))

    -- the first row has the least key of the selected rows
    pub select_first-le :
        (a b : A) → select_first p rows ≡ some a → Member b rows → p b ≡ true → key a ≤ key b
    unfolding select_first
    select_first-le a b h m t =
        head?-le key _ a b (order.order_by-IsSorted _) h
          (Member-perm (Permᴰ.symm (order.order_by-perm _)) (Member-rows_where p rows m t))

    select_first-of_Member :
        {b : A} → Member b (rows_where p rows) → (a : A) × (select_first p rows ≡ some a)
    unfolding select_first
    select_first-of_Member m = Member-head? _ (Member-perm (Permᴰ.symm (order.order_by-perm _)) m)

    -- a row is found exactly when there is one
    pub select_first-some :
        any_row p rows ≡ true
        → (a : A) × (select_first p rows ≡ some a) × Member a rows × (p a ≡ true)
    select_first-some h =
        let (b, e) = first_row-some p rows h in
        let (m, t) = first_row-Member p rows b e in
        let (a, f) = select_first-of_Member (Member-rows_where p rows m t) in
        let (n, u) = select_first-Member a f in (a, f, n, u)

    pub select_first-none : any_row p rows ≡ false → select_first p rows ≡ none
    select_first-none h = elim (Option-cases (select_first p rows)) [
      | inl e ↦ e
      | inr (a, e) ↦
          let (m, t) = select_first-Member a e in
          absurd (false≢true (sym h ∙ any_row-of_Member p rows m t))
    ]
