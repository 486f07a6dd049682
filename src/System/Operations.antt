-- ===== src/System/Operations.antt =====
-- What each transaction does to `raw_events`.
use glacis.Workers.IngestWorker.Failures.{set_failed-KeepsKeys}
use glacis.Base.{
  ℕ, ◌+◌, ◌≡◌, ◌≢◌, some, List, arith, Text, ==_sound, inl, inr, first_row-Member, update_where,
  Option-cases,
}
use glacis.Core.Models.{Uuid, Instant, Status, RawEvent, Db, get_raw}
use glacis.Core.Errors.{ok}
use glacis.Core.Inbox.{KeepsKeys}
use glacis.Core.Lookup.{raw_is}
use glacis.Services.Retry.{acquire, record_outcome, set_acquired, set_outcome}
use glacis.Workers.IngestWorker.{set_failed, mark_failed}
use glacis.System.Primary.{IsPrimary, Keeps, Keeps-refl, update-Keeps}

pub data RowChange (id : Uuid) (rows rows' : List RawEvent) : Type 0 where
  same : rows' ≡ rows → RowChange id rows rows'
  changed :
      (f : RawEvent → RawEvent)
      → KeepsKeys f
      → rows' ≡ update_where (raw_is id) f rows
      → RowChange id rows rows'

pub RowChange-Keeps :
    {id : Uuid} {rows rows' : List RawEvent}
    → RowChange id rows rows'
    → IsPrimary rows id
    → Keeps rows rows'
RowChange-Keeps {rows} (same e) p = rw e (Keeps-refl rows)
RowChange-Keeps {id} {rows} (changed f keeps e) p = rw e (update-Keeps id f rows keeps p)

set_acquired-KeepsKeys : (now : Instant) (a : ℕ) → KeepsKeys (set_acquired now a)
set_acquired-KeepsKeys now a = ground arith

set_outcome-KeepsKeys : (e : Text) → KeepsKeys (set_outcome e)
set_outcome-KeepsKeys e = ground arith

-- the entities and events of both kinds are as they were
pub record SameTables (db db' : Db) : Type 0 where
  pub shipments : db'.shipments ≡ db.shipments
  pub invoices : db'.invoices ≡ db.invoices

pub mark_failed-RowChange :
    (id : Uuid) (error : Text) (n : ℕ) (db db' : Db)
    → mark_failed id error n db ≡ ok (tt, db')
    → RowChange id db.raw_events db'.raw_events × SameTables db db'
unfolding mark_failed
mark_failed-RowChange id error n db db' h = elim (Option-cases (get_raw id db)) [
  | inl missing ↦ (same (ground arith), ground arith)
  | inr (r, found) ↦ (
    changed (set_failed (r.attempts + 1) error n) (set_failed-KeepsKeys _ error n) (ground arith),
    ground arith,
  )
]

pub record_outcome-RowChange :
    (id : Uuid) (error : Text) (db db' : Db)
    → record_outcome id error db ≡ ok (tt, db')
    → RowChange id db.raw_events db'.raw_events × SameTables db db'
unfolding record_outcome
record_outcome-RowChange id error db db' h = elim (Option-cases (get_raw id db)) [
  | inl missing ↦ (same (ground arith), ground arith)
  | inr (r, found) ↦
      (changed (set_outcome error) (set_outcome-KeepsKeys error) (ground arith), ground arith)
]

pub acquire-RowChange :
    (now : Instant) (id : Uuid) (r : RawEvent) (db db' : Db)
    → acquire now id db ≡ ok (r, db')
    → (get_raw id db ≡ some r)
      × (r.status ≢ Status.duplicate)
      × RowChange id db.raw_events db'.raw_events
      × SameTables db db'
unfolding acquire
acquire-RowChange now id r db db' h = elim (Option-cases (get_raw id db)) [
  | inl missing ↦ absurd (ground arith)
  | inr (q, found) ↦
      let own : id ≡ q.id =
        ==_sound id q.id (first_row-Member (raw_is id) db.raw_events q found).1 in
      (
        ground arith,
        ground arith,
        changed (set_acquired now (q.attempts + 1)) (set_acquired-KeepsKeys now (q.attempts + 1))
            (ground arith),
        ground arith,
      )
]
