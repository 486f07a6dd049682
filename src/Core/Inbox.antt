-- ===== src/Core/Inbox.antt =====
-- The invariant of `raw_events`: ids are distinct, a vendor and a hash have one primary at most,
-- and a row is a duplicate exactly if it points at a row, which is the primary of its vendor and
-- hash.
use glacis.Base.{
  ◌≡◌, ◌≢◌, ◌∙◌, Bool, true, false, ◌&&◌, Option, none, some, List, [], ◌∷◌, arith, Text, ◌==◌, All,
  any_row, update_where, IsUnique, IsUnique-update, any_row-update, Bool-cases, inl, inr,
}
use glacis.Core.Models.{Uuid, Status, RawEvent, same_raw_id, same_primary, is_primary_of}

abbrev pub is_parent_of : Uuid → RawEvent → RawEvent → Bool
is_parent_of parent_id r q = parent_id == q.id && is_primary_of r.vendor_hint r.hash_exact q

abbrev pub LinksTo : List RawEvent → RawEvent → Option Uuid → Type 0
LinksTo rows r none = r.status ≢ Status.duplicate
LinksTo rows r (some parent_id) =
    (r.status ≡ Status.duplicate) × (any_row (is_parent_of parent_id r) rows ≡ true)

abbrev pub IsLinked : List RawEvent → RawEvent → Type 0
IsLinked rows r = LinksTo rows r r.duplicate_of_id

pub record IsInbox (rows : List RawEvent) : Type 0 where
  pub ids : IsUnique same_raw_id rows
  pub primaries : IsUnique same_primary rows
  pub linked : All (IsLinked rows) rows

-- the columns that no UPDATE of the code sets
pub record KeepsKeys (f : RawEvent → RawEvent) : Type 0 where
  pub id : (r : RawEvent) → (f r).id ≡ r.id
  pub vendor_hint : (r : RawEvent) → (f r).vendor_hint ≡ r.vendor_hint
  pub hash_exact : (r : RawEvent) → (f r).hash_exact ≡ r.hash_exact
  pub duplicate_of_id : (r : RawEvent) → (f r).duplicate_of_id ≡ r.duplicate_of_id
  pub status : (r : RawEvent) → (f r).status ≢ Status.duplicate

-- every row that the UPDATE selects is a primary
abbrev pub SelectsPrimaries : (RawEvent → Bool) → List RawEvent → Type 0
SelectsPrimaries p rows = All (λ r. p r ≡ true → r.duplicate_of_id ≡ none) rows

module _ (p : RawEvent → Bool) (f : RawEvent → RawEvent) (keeps : KeepsKeys f) where
  is_primary_of-keeps : (v h : Text) (r : RawEvent) → is_primary_of v h (f r) ≡ is_primary_of v h r
  is_primary_of-keeps v h r = rw (keeps.duplicate_of_id r, keeps.vendor_hint r, keeps.hash_exact r)

  is_parent_of-keeps : (i : Uuid) (r q : RawEvent) → is_parent_of i r (f q) ≡ is_parent_of i r q
  is_parent_of-keeps i r q =
      rw (keeps.id q, keeps.duplicate_of_id q, keeps.vendor_hint q, keeps.hash_exact q)

  LinksTo-update :
      (rows : List RawEvent) (r : RawEvent) (o : Option Uuid)
      → LinksTo rows r o
      → LinksTo (update_where p f rows) r o
  LinksTo-update rows r none h = h
  LinksTo-update rows r (some i) h =
      (h.0, any_row-update p f (is_parent_of i r) rows (is_parent_of-keeps i r) ∙ h.1)

  All-IsLinked-update :
      (rows xs : List RawEvent)
      → SelectsPrimaries p xs
      → All (IsLinked rows) xs
      → All (IsLinked (update_where p f rows)) (update_where p f xs)
  All-IsLinked-update rows [] sel h = tt
  All-IsLinked-update rows (x ∷ xs) sel h = elim (Bool-cases (p x)) [
    | inl t ↦ rw t (
      rw (keeps.duplicate_of_id x ∙ sel.0 t) (keeps.status x),
      All-IsLinked-update rows xs sel.1 h.1,
    )
    | inr e ↦
        rw e (LinksTo-update rows x x.duplicate_of_id h.0, All-IsLinked-update rows xs sel.1 h.1)
  ]

  -- an UPDATE of primaries that sets no key and no status 'duplicate' keeps the invariant
  pub update-IsInbox :
      (rows : List RawEvent)
      → SelectsPrimaries p rows
      → IsInbox rows
      → IsInbox (update_where p f rows)
  update-IsInbox rows sel h = record {
    ids =
        IsUnique-update p f same_raw_id rows (λ x y. rw (keeps.id x)) (λ x y. rw (keeps.id y))
          h.ids;
    primaries =
        IsUnique-update p f same_primary rows
          (λ x y. rw (keeps.duplicate_of_id x, keeps.vendor_hint x, keeps.hash_exact x))
          (λ x y. rw (is_primary_of-keeps x.vendor_hint x.hash_exact y)) h.primaries;
    linked = All-IsLinked-update rows rows sel h.linked;
  }

LinksTo-cons :
    (x : RawEvent) (rows : List RawEvent) (r : RawEvent) (o : Option Uuid)
    → LinksTo rows r o
    → LinksTo (x ∷ rows) r o
LinksTo-cons x rows r none h = h
LinksTo-cons x rows r (some i) h = (h.0, ground arith)

All-IsLinked-cons :
    (x : RawEvent) (rows xs : List RawEvent) → All (IsLinked rows) xs → All (IsLinked (x ∷ rows)) xs
All-IsLinked-cons x rows [] h = tt
All-IsLinked-cons x rows (r ∷ xs) h =
    (LinksTo-cons x rows r r.duplicate_of_id h.0, All-IsLinked-cons x rows xs h.1)

-- so does an INSERT of a row that clashes with none and is linked
pub insert-IsInbox :
    (r : RawEvent) (rows : List RawEvent)
    → any_row (same_raw_id r) rows ≡ false
    → any_row (same_primary r) rows ≡ false
    → IsLinked rows r
    → IsInbox rows
    → IsInbox (r ∷ rows)
insert-IsInbox r rows fresh alone link h = record {
  ids = (fresh, h.ids);
  primaries = (alone, h.primaries);
  linked = (LinksTo-cons r rows r r.duplicate_of_id link, All-IsLinked-cons r rows rows h.linked);
}
