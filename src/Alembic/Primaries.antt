-- ===== src/Alembic/Primaries.antt =====
-- The partial unique index of 0003, against the constraint that the services rely on.
use glacis.Base.{
  ◌≡◌, ◌∙◌, ap, refl, ◌↔◌, Bool, false, Option, none, some, List, [], ◌∷◌, arith, Text, codes,
  text_eq, any_row, IsUnique, map,
}
use glacis.Core.Json.{Json}
use glacis.Core.Models.{Status, RawEvent, same_primary}
use glacis.Alembic.Schema.{
  Value, text, number, document, Row, Catalog, done, has_clash, conflict, is_null,
}
use glacis.Alembic.Versions.UniquePrimary
use glacis.Alembic.Stages.{Contents, two_tier, current, helper_names, IsFree}
use glacis.Alembic.Upgrades.{upgrade-unique_primary}

abbrev pub status_name : Status → Text
status_name Status.pending = codes "pending"
status_name Status.processing = codes "processing"
status_name Status.processed = codes "processed"
status_name Status.failed = codes "failed"
status_name Status.duplicate = codes "duplicate"

abbrev pub optional : {A : Type 0} → (A → Value) → Option A → Option Value
optional f none = none
optional f (some a) = some (f a)

-- a row of the model `RawEvent` in the table
abbrev pub row_of : RawEvent → Row
row_of r =
    (codes "id", some (number r.id))
    ∷ (codes "vendor_hint", some (text r.vendor_hint))
    ∷ (codes "payload", some (document r.payload))
    ∷ (codes "received_at", some (number r.received_at))
    ∷ (codes "status", some (text (status_name r.status)))
    ∷ (codes "attempts", some (number r.attempts))
    ∷ (codes "last_error", optional text r.last_error)
    ∷ (codes "locked_at", optional number r.locked_at)
    ∷ (codes "processed_at", optional number r.processed_at)
    ∷ (codes "hash_exact", some (text r.hash_exact))
    ∷ (codes "duplicate_of_id", optional number r.duplicate_of_id)
    ∷ []

module _ (jsonb_eq : Json → Json → Bool) where
  abbrev clash : Row → Row → Bool
  clash =
      conflict jsonb_eq (is_null (codes "duplicate_of_id"))
        (codes "vendor_hint" ∷ codes "hash_exact" ∷ [])

  clash-row_of : (r s : RawEvent) → clash (row_of r) (row_of s) ≡ same_primary r s
  unfolding text_eq
  clash-row_of r s = ground arith

  any_row-row_of :
      (r : RawEvent) (rows : List RawEvent)
      → any_row (clash (row_of r)) (map row_of rows) ≡ any_row (same_primary r) rows
  any_row-row_of r [] = refl
  any_row-row_of r (s ∷ rows) = rw (clash-row_of r s, any_row-row_of r rows) refl

  has_clash-row_of :
      (rows : List RawEvent) → has_clash clash (map row_of rows) ≡ has_clash same_primary rows
  has_clash-row_of [] = refl
  has_clash-row_of (r ∷ rows) = rw (any_row-row_of r rows, has_clash-row_of rows) refl

IsUnique-has_clash :
    (rows : List RawEvent) → has_clash same_primary rows ≡ false → IsUnique same_primary rows
IsUnique-has_clash [] h = tt
IsUnique-has_clash (r ∷ rows) h = (ground arith, IsUnique-has_clash rows (ground arith))

has_clash-IsUnique :
    (rows : List RawEvent) → IsUnique same_primary rows → has_clash same_primary rows ≡ false
has_clash-IsUnique [] u = refl
has_clash-IsUnique (r ∷ rows) u = rw (u.0, has_clash-IsUnique rows u.1) refl

-- The upgrade to the last revision succeeds exactly if a vendor and a hash have one primary at most
-- in `raw_events`: its index is the constraint of the invariant of the ingestion.
pub upgrade-IsUnique :
    (jsonb_eq : Json → Json → Bool) (c : Contents) (rows : List RawEvent) (catalog : Catalog)
    → c.raw_events ≡ map row_of rows
    → IsFree helper_names catalog
    → (UniquePrimary.upgrade jsonb_eq (two_tier c catalog) ≡ done (current c catalog))
      ↔ IsUnique same_primary rows
upgrade-IsUnique jsonb_eq c rows catalog stored free =
    let e = upgrade-unique_primary jsonb_eq c catalog free in
    let k = ap (has_clash (clash jsonb_eq)) stored ∙ has_clash-row_of jsonb_eq rows in
    (
      λ h. IsUnique-has_clash rows (ground (arith, e, k, h)),
      λ u. ground (arith, e, k, has_clash-IsUnique rows u),
    )
