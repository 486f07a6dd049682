-- ===== src/System/Interleaved/Consistent.antt =====
-- The invariant of the system, with `mark_failed` in two steps.
use glacis.Base.{
  ℕ, ◌+◌, ◌≡◌, ◌≢◌, ◌∙◌, refl, ap, List, [], ◌∷◌, arith, Text, Member, there, All, All-at,
}
use glacis.Core.Models.{Uuid, Status, RawEvent, Db, update_raw}
use glacis.Core.Errors.{ok}
use glacis.Core.Inbox.{KeepsKeys, IsInbox}
use glacis.Core.Lookup.{update_raw-eq}
use glacis.Utils.Hashing.{Hashing}
use glacis.Services.World.{World}
use glacis.Workers.IngestWorker.{set_failed}
use glacis.Workers.IngestWorker.Unlocked.{flush_failed, write_failed, write_failed_inv}
use glacis.System.{
  State, Step, ingested, idle, claimed, persisted, failed, reaped, acquired, retried, concluded,
}
use glacis.System.Primary.{IsPrimary, first_row-IsPrimary}
use glacis.System.Operations.{RowChange, changed, SameTables}
use glacis.System.Invariant.{RowChange-Carries}
use glacis.System.Reachable.{IsConsistent, Step-IsConsistent, carry, initial-IsConsistent}
use glacis.System.Interleaved.{Shared, at_start, Turn, whole, read, written, Turns, begin, later}

-- the UPDATE that sets the columns to what they are in a given row
set_to : RawEvent → RawEvent → RawEvent
set_to q r = record r {
  attempts = q.attempts;
  last_error = q.last_error;
  locked_at = q.locked_at;
  status = q.status;
}

set_to-KeepsKeys : (q : RawEvent) → q.status ≢ Status.duplicate → KeepsKeys (set_to q)
unfolding set_to
set_to-KeepsKeys q ne = record {
  id = λ r. refl;
  vendor_hint = λ r. refl;
  hash_exact = λ r. refl;
  duplicate_of_id = λ r. refl;
  status = λ r. ne;
}

flush_failed-not_duplicate :
    (row r : RawEvent) (error : Text) (n : ℕ)
    → r.status ≢ Status.duplicate
    → (flush_failed row (set_failed (row.attempts + 1) error n row) r).status ≢ Status.duplicate
flush_failed-not_duplicate row r error n ne = ground arith

-- what a late write does to `raw_events`
write_failed-RowChange :
    (row : RawEvent) (error : Text) (n : ℕ) (db db' : Db)
    → IsInbox db.raw_events
    → IsPrimary db.raw_events row.id
    → write_failed row error n db ≡ ok (tt, db')
    → RowChange row.id db.raw_events db'.raw_events × SameTables db db'
unfolding set_to
write_failed-RowChange row error n db db' inv p e =
    let (r, found, ne) = first_row-IsPrimary row.id db.raw_events inv p in
    let f = flush_failed row (set_failed (row.attempts + 1) error n row) in
    let after : db' ≡ update_raw row.id f db = write_failed_inv row error n db db' e in
    let set : db' ≡ update_raw row.id (set_to (f r)) db =
      after ∙ update_raw-eq row.id f (set_to (f r)) r db inv.ids found refl in
    (
      changed (set_to (f r)) (set_to-KeepsKeys (f r) (flush_failed-not_duplicate row r error n ne))
          (ap (λ (d : Db). d.raw_events) set),
      rw after (record { shipments = refl; invoices = refl }),
    )

module _ (hashing : Hashing) (w : World) where
  Step-in_flight :
      {s t : State} {i : Uuid} → Step hashing w s t → Member i s.in_flight → Member i t.in_flight
  Step-in_flight (ingested now i j v payload r db e) m = m
  Step-in_flight (idle locked now n db e) m = m
  Step-in_flight (claimed locked now n r db e) m = there m
  Step-in_flight (persisted env i event db k e) m = m
  Step-in_flight (failed i error n db k e) m = m
  Step-in_flight (reaped threshold n db e) m = m
  Step-in_flight (acquired now i r db e) m = there m
  Step-in_flight (retried env i event db k e) m = m
  Step-in_flight (concluded i error db k e) m = m

  All-Step :
      {s t : State} (e : Step hashing w s t) (rows : List RawEvent)
      → All (λ row. Member row.id s.in_flight) rows
      → All (λ row. Member row.id t.in_flight) rows
  All-Step e [] h = tt
  All-Step e (row ∷ rows) h = (Step-in_flight e h.0, All-Step e rows h.1)

  -- the state is consistent, and every row that was read is one that some process took
  pub record IsSettled (s : Shared) : Type 0 where
    pub consistent : IsConsistent hashing w s.state
    pub held : All (λ row. Member row.id s.state.in_flight) s.reads

  pub Turn-IsSettled : {s t : Shared} → Turn hashing w s t → IsSettled s → IsSettled t
  Turn-IsSettled {s} (whole e) h = record {
    consistent = Step-IsConsistent hashing w e h.consistent;
    held = All-Step e s.reads h.held;
  }
  Turn-IsSettled (read row m found) h = record { consistent = h.consistent; held = (m, h.held) }
  Turn-IsSettled {s} (written row error n db m e) h =
      let p =
        All-at (IsPrimary s.state.db.raw_events) s.state.in_flight h.consistent.taken
          (All-at (λ r. Member r.id s.state.in_flight) s.reads h.held m) in
      record {
        consistent =
            carry hashing w s.state db
              (RowChange-Carries
                (write_failed-RowChange row error n s.state.db db h.consistent.sound.inbox p e) p)
              h.consistent;
        held = h.held;
      }

  pub Turns-keeps : {s t : Shared} → Turns hashing w s t → IsSettled s → IsSettled t
  Turns-keeps begin h = h
  Turns-keeps (later r e) h = Turn-IsSettled e (Turns-keeps r h)

  -- From an empty database, whatever the interleaving of deliveries, claims, commits, failures,
  -- sweeps and retries, and whatever comes between the read of a failure and its write: a vendor and
  -- a hash have one primary at most, a duplicate points at its primary, ids are distinct, an entity
  -- is one row for its vendor and reference, a raw event has one event row at most in each of the
  -- two event tables, every event row has its entity and its raw event, and no process holds a
  -- duplicate.
  pub Turns-IsConsistent :
      {s : Shared} → Turns hashing w at_start s → IsConsistent hashing w s.state
  Turns-IsConsistent r =
      (Turns-keeps r (record { consistent = initial-IsConsistent hashing w; held = tt })).consistent
