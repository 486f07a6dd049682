-- ===== src/System/Reachable.antt =====
-- The invariant of the whole system, over its steps.
use glacis.Base.{
  ℕ, ◌≡◌, sym, subst, Bool, Option, none, some, List, [], ◌∷◌, arith, Text, ==_sound, All, All-at,
  first_row-Member, update_where,
}
use glacis.Core.Json.{Json}
use glacis.Core.Models.{Uuid, Instant, RawEvent, Db}
use glacis.Core.Errors.{ok}
use glacis.Core.Inbox.{IsInbox}
use glacis.Core.Lookup.{raw_is}
use glacis.Utils.Hashing.{Hashing}
use glacis.Services.Ingestion.{IngestResult}
use glacis.Services.Ingestion.Dedupe.{
  Outcome, as_primary, as_duplicate, ingest-Outcome, Outcome-IsInbox,
}
use glacis.Services.World.{World}
use glacis.Services.Retry.{acquire}
use glacis.Workers.IngestWorker.{claim, release, is_stale, reap_before}
use glacis.Workers.IngestWorker.Claims.{
  Claimed, nothing, row, Claimed-IsInbox, claim_one_inv, claim-KeepsKeys, pending-not_duplicate,
}
use glacis.Workers.IngestWorker.Failures.{release-KeepsKeys, release-IsInbox}
use glacis.System.{
  State, initial, Step, ingested, idle, claimed, persisted, failed, reaped, acquired, retried,
  concluded, Reach, start, next,
}
use glacis.System.Primary.{IsPrimary, IsPrimary-update, IsPrimary-of_row}
use glacis.System.Operations.{
  SameTables, mark_failed-RowChange, record_outcome-RowChange, acquire-RowChange,
}
use glacis.System.Sound.{IsSound}
use glacis.System.Invariant.{
  Carries, Carries-refl, Carries-of_Keeps, RowChange-Carries, persist_claimed-Carries,
  persist_retried-Carries,
}

module _ (hashing : Hashing) (w : World) where
  Outcome-Carries :
      {now : Instant} {i j : Uuid} {v : Text} {payload : Json} {db db' : Db} {r : IngestResult}
      → Outcome hashing w.oldest now i j v payload db r db'
      → Carries db db'
  Outcome-Carries o =
      Carries-of_Keeps (record { inbox = Outcome-IsInbox _ _ _ _ _ _ _ o; primary = added o })
        (tables o)
    where
      added :
          {now : Instant} {i j : Uuid} {v : Text} {payload : Json} {db db' : Db} {r : IngestResult}
          → Outcome hashing w.oldest now i j v payload db r db'
          → (id : Uuid) → IsPrimary db.raw_events id
          → IsPrimary db'.raw_events id
      added (as_primary new fresh e f) id h = rw f (ground arith)
      added (as_duplicate parent m t fresh e f) id h = rw f (ground arith)

      tables :
          {now : Instant} {i j : Uuid} {v : Text} {payload : Json} {db db' : Db} {r : IngestResult}
          → Outcome hashing w.oldest now i j v payload db r db'
          → SameTables db db'
      tables (as_primary new fresh e f) = ground arith
      tables (as_duplicate parent m t fresh e f) = ground arith

  claim-primary :
      (now : Instant) (r : RawEvent) (rows : List RawEvent) (id : Uuid)
      → IsPrimary rows id
      → IsPrimary (update_where (raw_is r.id) (claim now) rows) id
  claim-primary now r rows id h =
      IsPrimary-update (raw_is r.id) (claim now) rows (claim-KeepsKeys now) id h

  Claimed-Carries :
      {locked : Uuid → Bool} {now : Instant} {n : ℕ} {db db' : Db} {o : Option RawEvent}
      → Claimed w.oldest locked now n db o db'
      → Carries db db'
  Claimed-Carries {locked} {now} {n} {db} (nothing none_left e f) = Carries-refl f
  Claimed-Carries {locked} {now} {n} {db} (row r m t old e f) =
      Carries-of_Keeps
        (record {
          inbox = λ inv. Claimed-IsInbox w.oldest locked now n (row r m t old e f) inv;
          primary = λ id h. rw f (claim-primary now r db.raw_events id h);
        })
        (ground arith)

  reap-Carries :
      (threshold : Instant) (n : ℕ) (db db' : Db)
      → reap_before threshold db ≡ ok (n, db')
      → Carries db db'
  unfolding reap_before
  reap-Carries threshold n db db' h =
      let rows : db'.raw_events ≡ update_where (is_stale threshold) release db.raw_events =
        ground arith in
      Carries-of_Keeps
        (record {
          inbox = λ inv. rw rows (release-IsInbox threshold db.raw_events inv);
          primary = λ id p.
              rw rows (
                IsPrimary-update (is_stale threshold) release db.raw_events release-KeepsKeys id p);
        })
        (ground arith)

  -- the database is sound, and every row that a process holds is one that it may take
  pub record IsConsistent (s : State) : Type 0 where
    pub sound : IsSound s.db
    pub taken : All (IsPrimary s.db.raw_events) s.in_flight

  taken_kept :
      {db db' : Db} (ids : List Uuid)
      → Carries db db'
      → All (IsPrimary db.raw_events) ids
      → All (IsPrimary db'.raw_events) ids
  taken_kept [] c h = tt
  taken_kept (id ∷ ids) c h = (c.primary id h.0, taken_kept ids c h.1)

  pub carry :
      (s : State) (db : Db)
      → Carries s.db db
      → IsConsistent s
      → IsConsistent (record { db = db; in_flight = s.in_flight })
  carry s db c h = record { sound = c.sound h.sound; taken = taken_kept s.in_flight c h.taken }

  -- a row has been taken
  take_one :
      (s : State) (id : Uuid) (db : Db)
      → Carries s.db db
      → IsPrimary s.db.raw_events id
      → IsConsistent s
      → IsConsistent (record { db = db; in_flight = id ∷ s.in_flight })
  take_one s id db c p h = record {
    sound = c.sound h.sound;
    taken = (c.primary id p, taken_kept s.in_flight c h.taken);
  }

  claimed_row :
      {locked : Uuid → Bool} {now : Instant} {n : ℕ} {db db' : Db} {r : RawEvent}
      → IsInbox db.raw_events
      → Claimed w.oldest locked now n db (some r) db'
      → IsPrimary db.raw_events r.id
  claimed_row inv (nothing none_left e f) = absurd (ground arith)
  claimed_row {locked} {now} {n} {db} inv (row q m t old e f) =
      subst (IsPrimary db.raw_events) (ground arith)
        (IsPrimary-of_row q db.raw_events inv m (pending-not_duplicate w.oldest locked now n q t))

  acquired_row :
      (now : Instant) (id : Uuid) (r : RawEvent) (db db' : Db)
      → IsInbox db.raw_events
      → acquire now id db ≡ ok (r, db')
      → IsPrimary db.raw_events id × Carries db db'
  acquired_row now id r db db' inv h =
      let (found, ne, change, same) = acquire-RowChange now id r db db' h in
      let (m, own) = first_row-Member (raw_is id) db.raw_events r found in
      let p =
        subst (IsPrimary db.raw_events) (sym (==_sound id r.id own))
          (IsPrimary-of_row r db.raw_events inv m ne) in
      (p, RowChange-Carries (change, same) p)

  -- Every committed transaction, of whichever process, keeps the state consistent.
  pub Step-IsConsistent : {s t : State} → Step hashing w s t → IsConsistent s → IsConsistent t
  Step-IsConsistent {s} (ingested now i j v payload r db e) h =
      carry s db (Outcome-Carries (ingest-Outcome hashing w.oldest now i j v payload s.db db r e)) h
  Step-IsConsistent {s} (idle locked now n db e) h =
      carry s db
        (Claimed-Carries (claim_one_inv w.oldest locked now n s.db db none h.sound.inbox e)) h
  Step-IsConsistent {s} (claimed locked now n r db e) h =
      let c = claim_one_inv w.oldest locked now n s.db db (some r) h.sound.inbox e in
      take_one s r.id db (Claimed-Carries c) (claimed_row h.sound.inbox c) h
  Step-IsConsistent {s} (persisted env id event db m e) h =
      carry s db (persist_claimed-Carries w env event id s.db db (All-at _ s.in_flight h.taken m) e)
        h
  Step-IsConsistent {s} (failed id error n db m e) h =
      carry s db
        (RowChange-Carries (mark_failed-RowChange id error n s.db db e)
          (All-at _ s.in_flight h.taken m))
        h
  Step-IsConsistent {s} (reaped threshold n db e) h =
      carry s db (reap-Carries threshold n s.db db e) h
  Step-IsConsistent {s} (acquired now id r db e) h =
      let (p, c) = acquired_row now id r s.db db h.sound.inbox e in take_one s id db c p h
  Step-IsConsistent {s} (retried env id event db m e) h =
      carry s db (persist_retried-Carries w env event id s.db db (All-at _ s.in_flight h.taken m) e)
        h
  Step-IsConsistent {s} (concluded id error db m e) h =
      carry s db
        (RowChange-Carries (record_outcome-RowChange id error s.db db e)
          (All-at _ s.in_flight h.taken m))
        h

  pub initial-IsConsistent : IsConsistent initial
  initial-IsConsistent = ground arith

  -- from any consistent state
  pub Reach-keeps : {s t : State} → Reach hashing w s t → IsConsistent s → IsConsistent t
  Reach-keeps start h = h
  Reach-keeps (next r e) h = Step-IsConsistent e (Reach-keeps r h)

  -- Whatever the interleaving of deliveries, claims, commits, failures, sweeps and retries, from an
  -- empty database: a vendor and a hash have one primary at most, a duplicate points at its
  -- primary, ids are distinct, an entity is one row for its vendor and reference, a raw event has
  -- one event row at most in each of the two event tables, every event row has its entity and its
  -- raw event, and no process holds a duplicate.
  pub Reach-IsConsistent : {s : State} → Reach hashing w initial s → IsConsistent s
  Reach-IsConsistent r = Reach-keeps r initial-IsConsistent
