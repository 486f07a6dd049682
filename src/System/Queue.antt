-- ===== src/System/Queue.antt =====
-- A row that is the only work in the queue: how it comes there, and that it is claimed.
use glacis.Base.{
  ◌≡◌, ◌∙◌, sym, ap, refl, ℕ, Bool, true, false, Option, none, some, arith, Text, here, there,
  any_row, any_row-of_Member,
}
use glacis.Core.Json.{Json}
use glacis.Core.Models.{Uuid, Instant, RawEvent, Db, update_raw, is_primary_of}
use glacis.Core.Errors.{ok}
use glacis.Core.OrderBy.{OrderBy}
use glacis.Core.Inbox.{IsInbox}
use glacis.Utils.Hashing.{Hashing, digest_of}
use glacis.Services.Ingestion.{IngestResult, new_raw}
use glacis.Services.Ingestion.Dedupe.{add_raw, seen, as_primary, as_duplicate, Outcome}
use glacis.Workers.IngestWorker.{claimable, claim, claim_one}
use glacis.Workers.IngestWorker.Claims.{Claimed, nothing, row, claim_one-Claimed}

-- a row that was just stored can be claimed
pub delivered-claimable :
    (locked : Uuid → Bool) (id : Uuid) (now : Instant) (vendor : Text) (payload : Json)
    (hash : Text)
    → locked id ≡ false
    → claimable locked (new_raw id now vendor payload hash) ≡ true
unfolding new_raw
delivered-claimable locked id now vendor payload hash unlocked = rw unlocked refl

-- what was not seen is no duplicate
pub first_delivery :
    (hashing : Hashing) (oldest : OrderBy (λ (r : RawEvent). r.received_at)) (now : Instant)
    (primary_id duplicate_id : Uuid) (vendor : Text) (payload : Json) (db db' : Db)
    (r : IngestResult)
    → seen hashing oldest now primary_id duplicate_id vendor payload db ≡ false
    → Outcome hashing oldest now primary_id duplicate_id vendor payload db r db'
    → (r ≡ record { raw_event_id = primary_id; duplicate = false; duplicate_of = none })
      × (db'
          ≡ add_raw
              (new_raw primary_id now vendor (hashing.jsonb payload) (digest_of hashing payload))
              db)
first_delivery hashing oldest now primary_id duplicate_id vendor payload db db' r new
      (as_primary unseen fresh e f) =
    (e, f)
first_delivery hashing oldest now primary_id duplicate_id vendor payload db db' r new
      (as_duplicate parent m t fresh e f) =
    absurd (
      ground (
        arith,
        any_row-of_Member (is_primary_of vendor (digest_of hashing payload)) db.raw_events m t,
      ))

module _ (oldest : OrderBy (λ (r : RawEvent). r.received_at)) (locked : Uuid → Bool) (now : Instant)
    (max_attempts : ℕ) where
  Claimed-only :
      (r : RawEvent) (db db' : Db) (o : Option RawEvent)
      → claimable locked r ≡ true
      → any_row (claimable locked) db.raw_events ≡ false
      → Claimed oldest locked now max_attempts (add_raw r db) o db'
      → (o ≡ some (claim now r)) × (db' ≡ update_raw r.id (claim now) (add_raw r db))
  Claimed-only r db db' o free idle (nothing none_left e f) = absurd (ground arith)
  Claimed-only r db db' o free idle (row q (here same) t old e f) = (
    e ∙ ap (λ (x : RawEvent). some (claim now x)) (sym same),
    f ∙ ap (λ (x : RawEvent). update_raw x.id (claim now) (add_raw r db)) (sym same),
  )
  Claimed-only r db db' o free idle (row q (there m) t old e f) =
      absurd (ground (arith, any_row-of_Member (claimable locked) db.raw_events m t))

  -- the only claimable row is claimed
  pub claim_one-only :
      (r : RawEvent) (db : Db)
      → IsInbox (add_raw r db).raw_events
      → claimable locked r ≡ true
      → any_row (claimable locked) db.raw_events ≡ false
      → claim_one oldest locked now max_attempts (add_raw r db)
        ≡ ok (some (claim now r), update_raw r.id (claim now) (add_raw r db))
  claim_one-only r db inv free idle =
      let (o, db', h, c) = claim_one-Claimed oldest locked now max_attempts (add_raw r db) inv in
      let (e, f) = Claimed-only r db db' o free idle c in h ∙ rw (e, f) refl
