-- ===== src/System/Invariant.antt =====
-- What a transaction has to carry over to the next state.
use glacis.Services.Normalization.Outcome.{mark_processed-KeepsKeys}
use glacis.Base.{
  ◌≡◌, subst, Option, none, some, arith, Text, ==_sound, inl, inr, first_row-Member, Option-cases,
}
use glacis.Core.Events.{NormalizedEvent}
use glacis.Core.Models.{Uuid, RawEvent, Db, get_raw, update_raw}
use glacis.Core.Errors.{ok}
use glacis.Core.Lookup.{raw_is}
use glacis.Services.Normalization.{
  Env, persist_normalized, mark_processed, set_tables, shipments, invoices,
}
use glacis.Services.Normalization.Outcome.{
  Committed, unclassified, stored, persist_normalized-Committed,
}
use glacis.Services.World.{World}
use glacis.Services.Retry.{persist_retried}
use glacis.Workers.IngestWorker.{persist_claimed}
use glacis.System.Primary.{IsPrimary, Keeps, IsPrimary-update}
use glacis.System.Operations.{RowChange, RowChange-Keeps, SameTables}
use glacis.System.Sound.{IsSound, Keeps-IsSound, Committed-IsSound}

-- what a transaction of the code has to carry over
pub record Carries (db db' : Db) : Type 0 where
  pub sound : IsSound db → IsSound db'
  pub primary : (id : Uuid) → IsPrimary db.raw_events id → IsPrimary db'.raw_events id

pub Carries-of_Keeps :
    {db db' : Db} → Keeps db.raw_events db'.raw_events → SameTables db db' → Carries db db'
Carries-of_Keeps keeps same = record { sound = Keeps-IsSound keeps same; primary = keeps.primary }

pub Carries-refl : {db db' : Db} → db' ≡ db → Carries db db'
Carries-refl {db} e = rw e (record { sound = λ s. s; primary = λ id p. p })

pub RowChange-Carries :
    {id : Uuid} {db db' : Db}
    → RowChange id db.raw_events db'.raw_events × SameTables db db'
    → IsPrimary db.raw_events id
    → Carries db db'
RowChange-Carries c p = Carries-of_Keeps (RowChange-Keeps c.0 p) c.1

module _ (w : World) (env : Env) (event : NormalizedEvent) where
  -- `set_tables` leaves the rows as they are, and the mark sets no key
  marked-primary :
      (i : Uuid) (note : Option Text) (db : Db) (id : Uuid)
      → IsPrimary db.raw_events id
      → IsPrimary (update_raw i (mark_processed env.now note) db).raw_events id
  marked-primary i note db id p =
      IsPrimary-update (raw_is i) (mark_processed env.now note) db.raw_events
        (mark_processed-KeepsKeys env.now note) id p

  Committed-primary :
      (r : RawEvent) {db db' : Db}
      → Committed w.settings w.model_dump env r event db db'
      → (id : Uuid) → IsPrimary db.raw_events id
      → IsPrimary db'.raw_events id
  Committed-primary r {db} (unclassified p e f) id h = rw f (marked-primary r.id _ db id h)
  Committed-primary r {db} (stored at shipments ref t e m x k f) id h =
      rw f (marked-primary r.id none (set_tables shipments t db) id h)
  Committed-primary r {db} (stored at invoices ref t e m x k f) id h =
      rw f (marked-primary r.id none (set_tables invoices t db) id h)

  persist-Carries :
      (r : RawEvent) (db db' : Db)
      → IsPrimary db.raw_events r.id
      → persist_normalized w.settings w.model_dump env r event db ≡ ok (tt, db')
      → Carries db db'
  persist-Carries r db db' p h =
      let c = persist_normalized-Committed w.settings w.model_dump env r event db db' h in
      record { sound = Committed-IsSound w env r event c p; primary = Committed-primary r c }

  own_id : (id : Uuid) (r : RawEvent) (db : Db) → get_raw id db ≡ some r → id ≡ r.id
  own_id id r db found = ==_sound id r.id (first_row-Member (raw_is id) db.raw_events r found).1

  pub persist_claimed-Carries :
      (id : Uuid) (db db' : Db)
      → IsPrimary db.raw_events id
      → persist_claimed w env id event db ≡ ok (tt, db')
      → Carries db db'
  unfolding persist_claimed
  persist_claimed-Carries id db db' p h = elim (Option-cases (get_raw id db)) [
    | inl missing ↦ Carries-refl (ground arith)
    | inr (r, found) ↦
        persist-Carries r db db' (subst (IsPrimary db.raw_events) (own_id id r db found) p)
          (rw (found, persist_claimed) at h)
  ]

  pub persist_retried-Carries :
      (id : Uuid) (db db' : Db)
      → IsPrimary db.raw_events id
      → persist_retried w env id event db ≡ ok (tt, db')
      → Carries db db'
  unfolding persist_retried
  persist_retried-Carries id db db' p h = elim (Option-cases (get_raw id db)) [
    | inl missing ↦ absurd (ground arith)
    | inr (r, found) ↦
        persist-Carries r db db' (subst (IsPrimary db.raw_events) (own_id id r db found) p)
          (rw (found, persist_retried) at h)
  ]
