-- ===== src/Core/Lookup.antt =====
-- `session.get` of a row whose id is known: with distinct ids it finds that row, also after an
-- UPDATE.
use mathlib.Core.Bool.{false≢true}
use glacis.Base.{
  [], ◌∷◌, here, there, ap, subst, Bool-cases, ◌≡◌, ◌≢◌, refl, sym, ◌∙◌, All-of, All-at, Bool, true,
  false, Option, none, some, List, arith, ◌==◌, ==_refl, inl, inr, Member, any_row-of_Member,
  any_row-of_first, first_row, first_row-Member, first_row-update, update_where, IsUnique,
  IsUnique-eq, Option-cases,
}
use glacis.Core.Inbox.{LinksTo, IsLinked, IsInbox, KeepsKeys, SelectsPrimaries, update-IsInbox}
use glacis.Core.Models.{Status, Uuid, RawEvent, Db, same_raw_id, get_raw, update_raw}

abbrev pub raw_is : Uuid → RawEvent → Bool
raw_is id r = id == r.id

-- the row of a given id
pub first_row-id :
    (r : RawEvent) (rows : List RawEvent)
    → IsUnique same_raw_id rows
    → Member r rows
    → first_row (raw_is r.id) rows ≡ some r
first_row-id r rows u m = elim (Option-cases (first_row (raw_is r.id) rows)) [
  | inl miss ↦ absurd (
      false≢true (
        sym (any_row-of_first (raw_is r.id) rows miss)
        ∙ any_row-of_Member (raw_is r.id) rows m (==_refl r.id)))
  | inr (q, hit) ↦
      let (n, e) = first_row-Member (raw_is r.id) rows q hit in
      hit ∙ rw (IsUnique-eq same_raw_id rows u n m (ground arith) e) refl
]

module _ (id : Uuid) (f : RawEvent → RawEvent) (keeps : (r : RawEvent) → (f r).id ≡ r.id) where
  -- what `session.get` finds after the UPDATE of that row
  pub get-update_self :
      (r : RawEvent) (db : Db)
      → get_raw id db ≡ some r
      → get_raw id (update_raw id f db) ≡ some (f r)
  get-update_self r db h =
      first_row-update (raw_is id) f (raw_is id) db.raw_events r (λ x. rw (keeps x) refl) h
      ∙ rw (first_row-Member (raw_is id) db.raw_events r h).1 refl

  -- and after the UPDATE of another
  pub get-update_ne :
      (j : Uuid) (r : RawEvent) (db : Db)
      → (id == j) ≡ false
      → get_raw j db ≡ some r
      → get_raw j (update_raw id f db) ≡ some r
  get-update_ne j r db ne h =
      first_row-update (raw_is id) f (raw_is j) db.raw_events r (λ x. rw (keeps x) refl) h
      ∙ rw (other_row (first_row-Member (raw_is j) db.raw_events r h).1) refl
    where
      other_row : (j == r.id) ≡ true → (id == r.id) ≡ false
      other_row e = ground arith

update_where-eq_on :
    (p : RawEvent → Bool) (f g : RawEvent → RawEvent) (rows : List RawEvent)
    → ((r : RawEvent) → Member r rows → p r ≡ true → f r ≡ g r)
    → update_where p f rows ≡ update_where p g rows
update_where-eq_on p f g [] same = refl
update_where-eq_on p f g (r ∷ rows) same =
    let rest = update_where-eq_on p f g rows (λ q m t. same q (there m) t) in
    elim (Bool-cases (p r)) [
      | inl t ↦ rw (t, same r (here refl) t, rest) refl
      | inr t ↦ rw (t, rest) refl
    ]

-- two UPDATEs of a row that agree on it are the same
pub update_raw-eq :
    (id : Uuid) (f g : RawEvent → RawEvent) (r : RawEvent) (db : Db)
    → IsUnique same_raw_id db.raw_events
    → get_raw id db ≡ some r
    → f r ≡ g r
    → update_raw id f db ≡ update_raw id g db
update_raw-eq id f g r db u found same =
    let (m, own) = first_row-Member (raw_is id) db.raw_events r found in
    ap (λ (rows : List RawEvent). record db { raw_events = rows })
      (update_where-eq_on (raw_is id) f g db.raw_events λ q n t.
        let one : r ≡ q =
          IsUnique-eq same_raw_id db.raw_events u m n (ground (arith, own, t))
            (ground (arith, own, t)) in
        subst (λ x. f x ≡ g x) one same)

pub not_duplicate :
    (rows : List RawEvent) (r : RawEvent) (o : Option Uuid)
    → LinksTo rows r o
    → r.status ≢ Status.duplicate
    → o ≡ none
not_duplicate rows r none l ne = refl
not_duplicate rows r (some i) l ne = absurd (ne l.0)

-- the id of a row that is no duplicate selects a primary only
pub selects_one :
    (r : RawEvent) (rows : List RawEvent)
    → IsInbox rows
    → Member r rows
    → r.status ≢ Status.duplicate
    → SelectsPrimaries (raw_is r.id) rows
selects_one r rows inv m ne =
    All-of (λ q. raw_is r.id q ≡ true → q.duplicate_of_id ≡ none) rows
      λ q n e.
        rw (← IsUnique-eq same_raw_id rows inv.ids m n e (ground arith))
          (not_duplicate rows r r.duplicate_of_id (All-at (IsLinked rows) rows inv.linked m) ne)

-- An UPDATE of one row that is no duplicate keeps the invariant.
pub update_rows-IsInbox :
    (f : RawEvent → RawEvent) (r : RawEvent) (rows : List RawEvent)
    → KeepsKeys f
    → IsInbox rows
    → Member r rows
    → r.status ≢ Status.duplicate
    → IsInbox (update_where (raw_is r.id) f rows)
update_rows-IsInbox f r rows keeps inv m ne =
    update-IsInbox (raw_is r.id) f keeps rows (selects_one r rows inv m ne) inv
