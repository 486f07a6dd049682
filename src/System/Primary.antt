-- ===== src/System/Primary.antt =====
-- A row that a process may take: it is in the table, and no duplicate.
use glacis.Base.{
  ◌≡◌, refl, ◌≢◌, ◌∙◌, Bool, true, ◌&&◌, Option, none, some, List, arith, ◌==◌, is_none, All-at,
  Member, any_row, any_row-update, any_row-of_Member, first_row, first_row-some, first_row-Member,
  update_where,
}
use glacis.Core.Models.{Uuid, Status, RawEvent}
use glacis.Core.Inbox.{IsInbox, KeepsKeys, LinksTo, IsLinked}
use glacis.Core.Lookup.{raw_is, update_rows-IsInbox, not_duplicate, first_row-id}

abbrev pub primary_is : Uuid → RawEvent → Bool
primary_is id r = id == r.id && is_none r.duplicate_of_id

abbrev pub IsPrimary : List RawEvent → Uuid → Type 0
IsPrimary rows id = any_row (primary_is id) rows ≡ true

-- what a change of `raw_events` has to keep
pub record Keeps (rows rows' : List RawEvent) : Type 0 where
  pub inbox : IsInbox rows → IsInbox rows'
  pub primary : (id : Uuid) → IsPrimary rows id → IsPrimary rows' id

pub Keeps-refl : (rows : List RawEvent) → Keeps rows rows
Keeps-refl rows = record { inbox = λ h. h; primary = λ id h. h }

LinksTo-none :
    (rows : List RawEvent) (r : RawEvent) (o : Option Uuid)
    → LinksTo rows r o
    → is_none o ≡ true
    → r.status ≢ Status.duplicate
LinksTo-none rows r none l h = l
LinksTo-none rows r (some i) l h = cc

pub IsPrimary-update :
    (p : RawEvent → Bool) (f : RawEvent → RawEvent) (rows : List RawEvent)
    → KeepsKeys f
    → (id : Uuid) → IsPrimary rows id
    → IsPrimary (update_where p f rows) id
IsPrimary-update p f rows keeps id h =
    any_row-update p f (primary_is id) rows (λ x. rw (keeps.id x, keeps.duplicate_of_id x) refl) ∙ h

-- An UPDATE of a row that may be taken.
pub update-Keeps :
    (id : Uuid) (f : RawEvent → RawEvent) (rows : List RawEvent)
    → KeepsKeys f
    → IsPrimary rows id
    → Keeps rows (update_where (raw_is id) f rows)
update-Keeps id f rows keeps h = record {
  inbox = λ inv. updated inv;
  primary = IsPrimary-update (raw_is id) f rows keeps;
}
  where
    updated : IsInbox rows → IsInbox (update_where (raw_is id) f rows)
    updated inv =
        let (r, found) = first_row-some (primary_is id) rows h in
        let (m, t) = first_row-Member (primary_is id) rows r found in
        let same : id ≡ r.id = ground arith in
        rw same (
          update_rows-IsInbox f r rows keeps inv m (
            LinksTo-none rows r r.duplicate_of_id (All-at (IsLinked rows) rows inv.linked m)
              (ground arith)))

-- A row that is no duplicate may be taken.
pub IsPrimary-of_row :
    (r : RawEvent) (rows : List RawEvent)
    → IsInbox rows
    → Member r rows
    → r.status ≢ Status.duplicate
    → IsPrimary rows r.id
IsPrimary-of_row r rows inv m ne =
    let free =
      not_duplicate rows r r.duplicate_of_id (All-at (IsLinked rows) rows inv.linked m) ne in
    any_row-of_Member (primary_is r.id) rows m (ground (arith, free))

-- the row of an id that may be taken
pub first_row-IsPrimary :
    (id : Uuid) (rows : List RawEvent)
    → IsInbox rows
    → IsPrimary rows id
    → (r : RawEvent) × (first_row (raw_is id) rows ≡ some r) × (r.status ≢ Status.duplicate)
first_row-IsPrimary id rows inv h =
    let (r, found) = first_row-some (primary_is id) rows h in
    let (m, t) = first_row-Member (primary_is id) rows r found in
    let same : id ≡ r.id = ground arith in
    (
      r,
      rw same (first_row-id r rows inv.ids m),
      LinksTo-none rows r r.duplicate_of_id (All-at (IsLinked rows) rows inv.linked m)
          (ground arith),
    )
