-- ===== src/Workers/IngestWorker/Claims.antt =====
-- What `claim_one` takes, and what two claims in a row take.
use glacis.Base.{
  ℕ, ◌≤◌, ◌≡◌, refl, subst, ◌≢◌, Bool, true, false, Option, none, some, arith, inl, inr, Member,
  Bool-cases, any_row, All, List, [], ◌∷◌, ◌==◌, update-Member, if◌then◌else◌,
}
use glacis.Core.Models.{Uuid, Instant, Status, RawEvent, Db, get_raw, update_raw}
use glacis.Core.Errors.{ok}
use glacis.Core.OrderBy.{
  OrderBy, select_first, select_first-some, select_first-none, select_first-le,
}
use glacis.Core.Inbox.{IsInbox, KeepsKeys}
use glacis.Core.Lookup.{raw_is, first_row-id, get-update_self, get-update_ne, update_rows-IsInbox}
use glacis.Workers.IngestWorker.{claimable, claim, claim_one}

pub claim-KeepsKeys : (now : Instant) → KeepsKeys (claim now)
claim-KeepsKeys now = ground arith

module _ (oldest : OrderBy (λ (r : RawEvent). r.received_at)) (locked : Uuid → Bool) (now : Instant)
    (max_attempts : ℕ) where
  -- a row was claimed, or there was none to claim
  pub data Claimed (db : Db) (o : Option RawEvent) (db' : Db) : Type 0 where
    nothing :
        any_row (claimable locked) db.raw_events ≡ false → o ≡ none → db' ≡ db → Claimed db o db'
    row :
        (r : RawEvent)
        → Member r db.raw_events
        → claimable locked r ≡ true
        → ((q : RawEvent)
            → Member q db.raw_events
            → claimable locked q ≡ true
            → r.received_at ≤ q.received_at)
        → o ≡ some (claim now r)
        → db' ≡ update_raw r.id (claim now) db
        → Claimed db o db'

  claim_found :
      (r : RawEvent) (db : Db)
      → select_first oldest (claimable locked) db.raw_events ≡ some r
      → get_raw r.id (update_raw r.id (claim now) db) ≡ some (claim now r)
      → claim_one oldest locked now max_attempts db
        ≡ ok (some (claim now r), update_raw r.id (claim now) db)
  unfolding claim_one
  claim_found r db h g = ground arith

  -- a claim always returns
  pub claim_one-Claimed :
      (db : Db)
      → IsInbox db.raw_events
      → (o : Option RawEvent) × (db' : Db) × (claim_one oldest locked now max_attempts db
          ≡ ok (o, db'))
        × Claimed db o db'
  unfolding claim_one
  claim_one-Claimed db inv = elim (Bool-cases (any_row (claimable locked) db.raw_events)) [
    | inr idle ↦ (
      none,
      db,
      rw (select_first-none oldest (claimable locked) db.raw_events idle, claim_one) refl,
      nothing idle refl refl,
    )
    | inl busy ↦
        let (r, found, m, t) = select_first-some oldest (claimable locked) db.raw_events busy in
        (
          some (claim now r),
          update_raw r.id (claim now) db,
          claim_found r db found (
              get-update_self r.id (claim now) (λ x. refl) r db
                (first_row-id r db.raw_events inv.ids m)),
          row r m t (λ q. select_first-le oldest (claimable locked) db.raw_events r q found) refl
              refl,
        )
  ]

  -- the same of a claim that is known to have returned
  pub claim_one_inv :
      (db db' : Db) (o : Option RawEvent)
      → IsInbox db.raw_events
      → claim_one oldest locked now max_attempts db ≡ ok (o, db')
      → Claimed db o db'
  claim_one_inv db db' o inv h =
      let (o', d, e, c) = claim_one-Claimed db inv in
      let same_row : o' ≡ o = cc in
      let same_db : d ≡ db' = cc in
      subst (λ x. Claimed db x db') same_row (subst (λ y. Claimed db o' y) same_db c)

  pub pending-not_duplicate :
      (r : RawEvent) → claimable locked r ≡ true → r.status ≢ Status.duplicate
  pending-not_duplicate r h = ground arith

  -- A claim keeps the invariant of `raw_events`.
  pub Claimed-IsInbox :
      {db db' : Db} {o : Option RawEvent}
      → Claimed db o db'
      → IsInbox db.raw_events
      → IsInbox db'.raw_events
  Claimed-IsInbox (nothing idle e f) inv = rw f inv
  Claimed-IsInbox {db} (row r m t old e f) inv = rw f (
      update_rows-IsInbox (claim now) r db.raw_events (claim-KeepsKeys now) inv m
        (pending-not_duplicate r t))

-- A claimed row is in processing since `now`, and is else as it was.
abbrev taken : Instant → RawEvent → RawEvent
taken now r = record {
  id = r.id;
  vendor_hint = r.vendor_hint;
  payload = r.payload;
  received_at = r.received_at;
  hash_exact = r.hash_exact;
  duplicate_of_id = r.duplicate_of_id;
  status = Status.processing;
  attempts = r.attempts;
  last_error = r.last_error;
  locked_at = some now;
  processed_at = r.processed_at;
}

-- the oldest row that waits was taken, or none waits
pub data Taken (locked : Uuid → Bool) (now : Instant) (db : Db) (o : Option RawEvent) (db' : Db)
    : Type 0 where
  nothing_waits :
      All (λ (r : RawEvent). r.status ≡ Status.pending → locked r.id ≡ true) db.raw_events
      → o ≡ none
      → db' ≡ db
      → Taken locked now db o db'
  took :
      (r : RawEvent)
      → get_raw r.id db ≡ some r
      → r.status ≡ Status.pending
      → locked r.id ≡ false
      → ((q : RawEvent)
          → Member q db.raw_events
          → q.status ≡ Status.pending
          → locked q.id ≡ false
          → r.received_at ≤ q.received_at)
      → o ≡ some (taken now r)
      → get_raw r.id db' ≡ some (taken now r)
      → ((id : Uuid) (q : RawEvent)
          → (r.id == id) ≡ false
          → get_raw id db ≡ some q
          → get_raw id db' ≡ some q)
      → db'.shipments ≡ db.shipments
      → db'.invoices ≡ db.invoices
      → Taken locked now db o db'

waits-not_locked :
    (locked : Uuid → Bool) (rows : List RawEvent)
    → any_row (claimable locked) rows ≡ false
    → All (λ (r : RawEvent). r.status ≡ Status.pending → locked r.id ≡ true) rows
waits-not_locked locked [] h = tt
waits-not_locked locked (r ∷ rows) h =
    let head_free : any_row (claimable locked) rows ≡ false = ground arith in
    (λ pending. ground arith, waits-not_locked locked rows head_free)

claimable-pending :
    (locked : Uuid → Bool) (r : RawEvent)
    → claimable locked r ≡ true
    → (r.status ≡ Status.pending) × (locked r.id ≡ false)
claimable-pending locked r h = (ground arith, ground arith)

pending-claimable :
    (locked : Uuid → Bool) (r : RawEvent)
    → r.status ≡ Status.pending
    → locked r.id ≡ false
    → claimable locked r ≡ true
pending-claimable locked r p l = rw (p, l) refl

Claimed-Taken :
    (oldest : OrderBy (λ (r : RawEvent). r.received_at)) (locked : Uuid → Bool) (now : Instant)
    (n : ℕ) (db db' : Db) (o : Option RawEvent)
    → IsInbox db.raw_events
    → Claimed oldest locked now n db o db'
    → Taken locked now db o db'
Claimed-Taken oldest locked now n db db' o inv (nothing idle e f) =
    nothing_waits (waits-not_locked locked db.raw_events idle) e f
Claimed-Taken oldest locked now n db db' o inv (row r m t old e f) =
    let found = first_row-id r db.raw_events inv.ids m in
    let (pending, unlocked) = claimable-pending locked r t in
    took r found pending unlocked (λ q mem p l. old q mem (pending-claimable locked q p l)) e
      (rw f (get-update_self r.id (claim now) (λ x. refl) r db found))
      (λ id q ne h. rw f (get-update_ne r.id (claim now) (λ x. refl) id q db ne h)) (rw f refl)
      (rw f refl)

-- A claim always returns: the oldest row that is pending and not locked, which is in processing
-- since the time of the claim, is else as it was, and is stored so, while every other row, the
-- shipments and the invoices are as they were; or nothing, with the database as it was, if every
-- pending row is locked.
pub claim_one-Taken :
    (oldest : OrderBy (λ (r : RawEvent). r.received_at)) (locked : Uuid → Bool) (now : Instant)
    (n : ℕ) (db : Db)
    → IsInbox db.raw_events
    → (o : Option RawEvent) × (db' : Db) × (claim_one oldest locked now n db ≡ ok (o, db'))
      × Taken locked now db o db'
claim_one-Taken oldest locked now n db inv =
    let (o, db', h, c) = claim_one-Claimed oldest locked now n db inv in
    (o, db', h, Claimed-Taken oldest locked now n db db' o inv c)

claimed-not_claimable :
    (now : Instant) (id : Uuid) (q : RawEvent) (locked : Uuid → Bool)
    → claimable locked (if raw_is id q then claim now q else q) ≡ true
    → id ≢ (if raw_is id q then claim now q else q).id
claimed-not_claimable now id q locked h = ground arith

module _ (oldest : OrderBy (λ (r : RawEvent). r.received_at)) (locked locked' : Uuid → Bool)
    (now now' : Instant) (n : ℕ) where
  exclusive :
      {db db₁ db₂ : Db} {r r' : RawEvent}
      → Claimed oldest locked now n db (some r) db₁
      → Claimed oldest locked' now' n db₁ (some r') db₂
      → r.id ≢ r'.id
  exclusive (nothing idle e f) d = cc
  exclusive c (nothing idle e f) = cc
  exclusive {db} (row q m t old e f) (row q' m' t' old' e' f') =
      let (p, _, g) =
        update-Member (raw_is q.id) (claim now) db.raw_events
          (subst (λ d. Member q' d.raw_events) f m') in
      ground (arith, claimed-not_claimable now q.id p locked')

  -- Two claims in a row, whatever is locked at either, never take the same row.
  pub claim_one_exclusive :
      (db db₁ db₂ : Db) (r r' : RawEvent)
      → IsInbox db.raw_events
      → claim_one oldest locked now n db ≡ ok (some r, db₁)
      → claim_one oldest locked' now' n db₁ ≡ ok (some r', db₂)
      → r.id ≢ r'.id
  claim_one_exclusive db db₁ db₂ r r' inv h k =
      let c = claim_one_inv oldest locked now n db db₁ (some r) inv h in
      exclusive c (
        claim_one_inv oldest locked' now' n db₁ db₂ (some r')
          (Claimed-IsInbox oldest locked now n c inv) k)

-- the row that a claim returns, as it was before
pub unclaimed_row :
    (oldest : OrderBy (λ (r : RawEvent). r.received_at)) (locked : Uuid → Bool) (now : Instant)
    (n : ℕ) (db db₁ : Db) (r : RawEvent)
    → IsInbox db.raw_events
    → Claimed oldest locked now n db (some r) db₁
    → (q : RawEvent) × (get_raw r.id db ≡ some q) × (r.id ≡ q.id) × (r.attempts ≡ q.attempts)
unclaimed_row oldest locked now n db db₁ r inv (nothing none_left e f) = absurd (ground arith)
unclaimed_row oldest locked now n db db₁ r inv (row q m t old e f) =
    let same : claim now q ≡ r = ground arith in
    subst
      (λ x. (p : RawEvent) × (get_raw x.id db ≡ some p) × (x.id ≡ p.id) × (x.attempts ≡ p.attempts))
      same (q, first_row-id q db.raw_events inv.ids m, refl, refl)

-- the row that a claim returns, with its lock
pub claimed_row :
    (oldest : OrderBy (λ (r : RawEvent). r.received_at)) (locked : Uuid → Bool) (now : Instant)
    (n : ℕ) (db db₁ : Db) (r : RawEvent)
    → IsInbox db.raw_events
    → Claimed oldest locked now n db (some r) db₁
    → (get_raw r.id db₁ ≡ some r) × (r.status ≡ Status.processing) × (r.locked_at ≡ some now)
claimed_row oldest locked now n db db₁ r inv (nothing none_left e f) = absurd (ground arith)
claimed_row oldest locked now n db db₁ r inv (row q m t old e f) =
    let same : claim now q ≡ r = ground arith in
    let found =
      get-update_self q.id (claim now) (λ x. refl) q db (first_row-id q db.raw_events inv.ids m) in
    subst
      (λ x. (get_raw x.id db₁ ≡ some x) × (x.status ≡ Status.processing) × (x.locked_at ≡ some now))
      same (rw f found, refl, refl)
