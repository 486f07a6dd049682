-- ===== src/Tests/Sorting.antt =====
-- An insertion sort, as a concrete ORDER BY.
use mathlib.Core.List.{Permᴰ}
use mathlib.Core.List.Permᴰ
use glacis.Base.{
  ℕ, ◌≤◌, refl, inl, inr, List, [], ◌∷◌, arith, leb, All, All-perm, Bool-cases, if◌then◌else◌,
}
use glacis.Core.OrderBy.{IsSorted, OrderBy}

module _ {ℓ} {A : Type ℓ} (key : A → ℕ) where
  abbrev pub insert_sorted : A → List A → List A
  insert_sorted a [] = a ∷ []
  insert_sorted a (x ∷ xs) = if leb (key a) (key x) then a ∷ x ∷ xs else x ∷ insert_sorted a xs

  abbrev pub sort : List A → List A
  sort [] = []
  sort (x ∷ xs) = insert_sorted x (sort xs)

  insert_sorted-perm : (a : A) (xs : List A) → Permᴰ (insert_sorted a xs) (a ∷ xs)
  insert_sorted-perm a [] = Permᴰ.refl (a ∷ [])
  insert_sorted-perm a (x ∷ xs) = elim (Bool-cases (leb (key a) (key x))) [
    | inl t ↦ rw t (Permᴰ.refl (a ∷ x ∷ xs))
    | inr f ↦ rw f (Permᴰ.trans (Permᴰ.cons refl (insert_sorted-perm a xs)) (Permᴰ.swap refl refl))
  ]

  pub sort-perm : (xs : List A) → Permᴰ (sort xs) xs
  sort-perm [] = Permᴰ.nil
  sort-perm (x ∷ xs) = Permᴰ.trans (insert_sorted-perm x (sort xs)) (Permᴰ.cons refl (sort-perm xs))

  All-le_trans :
      (a x : A) (xs : List A)
      → key a ≤ key x
      → All (λ y. key x ≤ key y) xs
      → All (λ y. key a ≤ key y) xs
  All-le_trans a x [] le h = tt
  All-le_trans a x (y ∷ xs) le h = (omega arith, All-le_trans a x xs le h.1)

  insert_sorted-IsSorted :
      (a : A) (xs : List A) → IsSorted key xs → IsSorted key (insert_sorted a xs)
  insert_sorted-IsSorted a [] h = (tt, tt)
  insert_sorted-IsSorted a (x ∷ xs) h = elim (Bool-cases (leb (key a) (key x))) [
    | inl t ↦ let le : key a ≤ key x = ground arith in rw t ((le, All-le_trans a x xs le h.0), h)
    | inr f ↦
        let le : key x ≤ key a = ground arith in
        rw f (
          All-perm (λ y. key x ≤ key y) (Permᴰ.symm (insert_sorted-perm a xs)) (le, h.0),
          insert_sorted-IsSorted a xs h.1,
        )
  ]

  pub sort-IsSorted : (xs : List A) → IsSorted key (sort xs)
  sort-IsSorted [] = tt
  sort-IsSorted (x ∷ xs) = insert_sorted-IsSorted x (sort xs) (sort-IsSorted xs)

  abbrev pub by_insertion : OrderBy key
  by_insertion = record {
    order_by = sort;
    order_by-perm = sort-perm;
    order_by-IsSorted = sort-IsSorted;
  }
