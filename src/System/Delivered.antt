-- ===== src/System/Delivered.antt =====
-- A webhook that is the only work in the queue: the next round of the worker makes it readable.
use glacis.Base.{
  ◌≡◌, ◌∙◌, sym, ap, refl, subst, Bool, true, false, none, some, arith, Text, ◌==◌, here, any_row,
  first_row,
}
use glacis.Core.Json.{Json}
use glacis.Core.Events.{NormalizedEvent, vendor_milestone, external_ref}
use glacis.Core.Models.{
  Uuid, Instant, Status, RawEvent, EntityEvent, Tables, Db, fits, fits_optional, fits_jsonb,
  get_raw, update_raw,
}
use glacis.Core.Errors.{Result, ok}
use glacis.Core.OrderBy.{OrderBy}
use glacis.Core.Inbox.{IsInbox}
use glacis.Core.Lookup.{first_row-id, get-update_self}
use glacis.Utils.Hashing.{Hashing}
use glacis.Services.World.{World}
use glacis.Services.Ingestion.Dedupe.{add_raw}
use glacis.Services.Normalization.{
  Env, EntityModel, shipments, invoices, ensure_utc, entity_model, tables_of, mark_processed,
  as_unclassified,
}
use glacis.Services.Normalization.Ledger.{IsLedger}
use glacis.Services.Normalization.History.{is_of_raw}
use glacis.Services.Normalization.Outcome.{Committed, Committed-rows, persist_normalized-Committed}
use glacis.Services.Normalization.Total.{IsFresh, persist_normalized_total}
use glacis.Workers.IngestWorker.{
  claimable, claim, persist_claimed, finish, process_claimed, process_one,
}
use glacis.System.EndToEnd.{Visible, stored-Visible}
use glacis.System.Queue.{claim_one-only}

module _ (w : World) (env : Env) (by_event_at : OrderBy (λ (e : EntityEvent). e.event_at))
    (model : EntityModel) (event : NormalizedEvent) (ref : Text) (event_at : Instant) where
  -- the row was processed, and its event can be read
  pub record Processed (id : Uuid) (vendor : Text) (db : Db) : Type 0 where
    pub row : RawEvent
    pub found : get_raw id db ≡ some row
    pub status : row.status ≡ Status.processed
    pub visible : Visible by_event_at model w.model_dump id vendor event ref event_at db

  Committed-found :
      (r : RawEvent) (db db' : Db)
      → get_raw r.id db ≡ some r
      → Committed w.settings w.model_dump env r event db db'
      → (x : RawEvent) × (get_raw r.id db' ≡ some x) × (x.status ≡ Status.processed)
  unfolding mark_processed
  Committed-found r db db' found c =
      let (note, e) = Committed-rows w.settings w.model_dump env r event c in
      (
        mark_processed env.now note r,
        ap (first_row (λ (q : RawEvent). r.id == q.id)) e
            ∙ get-update_self r.id (mark_processed env.now note) (λ x. refl) r db found,
        refl,
      )

  -- the transaction of the worker, on a row that is there
  persisted-Processed :
      (r : RawEvent) (db : Db)
      → get_raw r.id db ≡ some r
      → as_unclassified event.payload ≡ none
      → entity_model event.payload ≡ some model
      → external_ref event.payload ≡ some ref
      → ensure_utc event.event_at ≡ ok event_at
      → fits 64 r.vendor_hint ≡ true
      → fits 128 ref ≡ true
      → fits_optional 512 (vendor_milestone event.payload) ≡ true
      → fits_jsonb (w.model_dump event.payload) ≡ true
      → IsFresh env (tables_of model db)
      → IsLedger (tables_of model db)
      → any_row (is_of_raw r.id) (tables_of model db).events ≡ false
      → (db' : Db) × (persist_claimed w env r.id event db ≡ ok (tt, db'))
        × Processed r.id r.vendor_hint db'
  unfolding persist_claimed
  persisted-Processed r db found actionable kind key time v f m a fresh ledger unknown =
      let (db', h) =
        persist_normalized_total w.settings w.model_dump env r event model ref event_at db
          actionable kind key time v f m a fresh in
      let c = persist_normalized-Committed w.settings w.model_dump env r event db db' h in
      let (x, hit, done) = Committed-found r db db' found c in
      (
        db',
        rw (found, persist_claimed) h,
        record {
          row = x;
          found = hit;
          status = done;
          visible =
              stored-Visible by_event_at model w.model_dump env r event ref event_at w.settings db
                db' actionable kind key time ledger unknown c;
        },
      )

  tables_of-claimed :
      (kind : EntityModel) (now : Instant) (r : RawEvent) (db : Db)
      → tables_of kind (update_raw r.id (claim now) (add_raw r db)) ≡ tables_of kind db
  tables_of-claimed shipments now r db = refl
  tables_of-claimed invoices now r db = refl

  module _ (locked : Uuid → Bool) (now : Instant) (classify : Json → Result NormalizedEvent) where
    -- a round of the worker, when one row is claimable
    pub process_one-only :
        (r : RawEvent) (db : Db)
        → IsInbox (add_raw r db).raw_events
        → claimable locked r ≡ true
        → any_row (claimable locked) db.raw_events ≡ false
        → classify r.payload ≡ ok event
        → as_unclassified event.payload ≡ none
        → entity_model event.payload ≡ some model
        → external_ref event.payload ≡ some ref
        → ensure_utc event.event_at ≡ ok event_at
        → fits 64 r.vendor_hint ≡ true
        → fits 128 ref ≡ true
        → fits_optional 512 (vendor_milestone event.payload) ≡ true
        → fits_jsonb (w.model_dump event.payload) ≡ true
        → IsFresh env (tables_of model db)
        → IsLedger (tables_of model db)
        → any_row (is_of_raw r.id) (tables_of model db).events ≡ false
        → (db' : Db) × (process_one w locked now env classify (add_raw r db) ≡ (ok true, db'))
          × Processed r.id r.vendor_hint db'
    unfolding process_one process_claimed finish
    process_one-only r db inv free idle answer actionable kind key time v f m a fresh ledger
          unknown =
        let claimed =
          claim_one-only w.oldest locked now w.settings.worker_max_attempts r db inv free idle in
        let found =
          get-update_self r.id (claim now) (λ x. refl) r (add_raw r db)
            (first_row-id r (add_raw r db).raw_events inv.ids (here refl)) in
        let same = sym (tables_of-claimed model now r db) in
        let (db', h, done) =
          persisted-Processed (claim now r) (update_raw r.id (claim now) (add_raw r db)) found
            actionable kind key time v f m a (subst (IsFresh env) same fresh)
            (subst IsLedger same ledger)
            (subst (λ (t : Tables). any_row (is_of_raw r.id) t.events ≡ false) same unknown) in
        (db', ground (arith, claimed, answer, h), done)
