-- ===== src/System/Sound.antt =====
-- The invariant of the database.
use glacis.Services.Normalization.Outcome.{mark_processed-KeepsKeys}
use glacis.Base.{◌≡◌, refl, Option, none, List, [], ◌∷◌, Text, All}
use glacis.Core.Events.{NormalizedEvent, canonical_state, vendor_milestone}
use glacis.Core.Models.{RawEvent, EntityEvent, Tables, Db, update_raw}
use glacis.Core.Inbox.{IsInbox}
use glacis.Services.Normalization.{
  EntityModel, shipments, invoices, Env, tables_of, set_tables, mark_processed,
}
use glacis.Services.Normalization.Ledger.{IsLedger}
use glacis.Services.Normalization.Steps.{
  Recorded, known, added, event_row, persist_event-Persisted, Persisted-IsLedger,
}
use glacis.Services.Normalization.Outcome.{Committed, unclassified, stored}
use glacis.Services.World.{World}
use glacis.System.Primary.{IsPrimary, Keeps}
use glacis.System.Operations.{RowChange-Keeps, SameTables, changed}

-- every event row comes from a raw event that is in the table, and no duplicate
abbrev pub HasSources : List RawEvent → Tables → Type 0
HasSources rows t = All (λ (e : EntityEvent). IsPrimary rows e.raw_event_id) t.events

pub record IsSound (db : Db) : Type 0 where
  pub inbox : IsInbox db.raw_events
  pub shipments : IsLedger db.shipments
  pub invoices : IsLedger db.invoices
  pub shipment_sources : HasSources db.raw_events db.shipments
  pub invoice_sources : HasSources db.raw_events db.invoices

sources_kept :
    {rows rows' : List RawEvent} (events : List EntityEvent)
    → Keeps rows rows'
    → All (λ (e : EntityEvent). IsPrimary rows e.raw_event_id) events
    → All (λ (e : EntityEvent). IsPrimary rows' e.raw_event_id) events
sources_kept [] keeps h = tt
sources_kept (e ∷ events) keeps h =
    (keeps.primary e.raw_event_id h.0, sources_kept events keeps h.1)

-- a change of `raw_events` alone
pub Keeps-IsSound :
    {db db' : Db}
    → Keeps db.raw_events db'.raw_events
    → SameTables db db'
    → IsSound db
    → IsSound db'
Keeps-IsSound {db} {db'} keeps same s = record {
  inbox = keeps.inbox s.inbox;
  shipments = rw same.shipments s.shipments;
  invoices = rw same.invoices s.invoices;
  shipment_sources = rw same.shipments (sources_kept db.shipments.events keeps s.shipment_sources);
  invoice_sources = rw same.invoices (sources_kept db.invoices.events keeps s.invoice_sources);
}

module _ (w : World) (env : Env) (row : RawEvent) (event : NormalizedEvent) where
  Recorded-sources :
      (rows : List RawEvent) (e : EntityEvent) (events events' : List EntityEvent)
      → Recorded e events events'
      → IsPrimary rows e.raw_event_id
      → All (λ (x : EntityEvent). IsPrimary rows x.raw_event_id) events
      → All (λ (x : EntityEvent). IsPrimary rows x.raw_event_id) events'
  Recorded-sources rows e events events' (known old q) p h = rw q h
  Recorded-sources rows e events events' (added new fresh q) p h = rw q (p, h)

  -- the event goes to the tables of its model
  stored-IsSound :
      (model : EntityModel) (db : Db) (tables : Tables)
      → IsSound db
      → IsLedger tables
      → HasSources db.raw_events tables
      → IsSound (set_tables model tables db)
  stored-IsSound shipments db tables s l h = record {
    inbox = s.inbox;
    shipments = l;
    invoices = s.invoices;
    shipment_sources = h;
    invoice_sources = s.invoice_sources;
  }
  stored-IsSound invoices db tables s l h = record {
    inbox = s.inbox;
    shipments = s.shipments;
    invoices = l;
    shipment_sources = s.shipment_sources;
    invoice_sources = h;
  }

  tables-IsLedger : (model : EntityModel) (db : Db) → IsSound db → IsLedger (tables_of model db)
  tables-IsLedger shipments db s = s.shipments
  tables-IsLedger invoices db s = s.invoices

  tables-HasSources :
      (model : EntityModel) (db : Db) → IsSound db → HasSources db.raw_events (tables_of model db)
  tables-HasSources shipments db s = s.shipment_sources
  tables-HasSources invoices db s = s.invoice_sources

  raw_events-set_tables :
      (model : EntityModel) (t : Tables) (db : Db)
      → (set_tables model t db).raw_events ≡ db.raw_events
  raw_events-set_tables shipments t db = refl
  raw_events-set_tables invoices t db = refl

  mark-IsSound :
      (note : Option Text) (db : Db)
      → IsPrimary db.raw_events row.id
      → IsSound db
      → IsSound (update_raw row.id (mark_processed env.now note) db)
  mark-IsSound note db p s =
      Keeps-IsSound
        (RowChange-Keeps
          (changed (mark_processed env.now note) (mark_processed-KeepsKeys env.now note) refl) p)
        (record { shipments = refl; invoices = refl }) s

  pub Committed-IsSound :
      {db db' : Db}
      → Committed w.settings w.model_dump env row event db db'
      → IsPrimary db.raw_events row.id
      → IsSound db
      → IsSound db'
  unfolding event_row
  Committed-IsSound {db} (unclassified p e f) own s = rw f (mark-IsSound _ db own s)
  Committed-IsSound {db} (stored event_at model ref tables e m r h f) own s =
      let p =
        persist_event-Persisted env row.id row.vendor_hint ref (canonical_state event.payload)
          event_at (vendor_milestone event.payload) (w.model_dump event.payload)
          (tables_of model db) tables h in
      rw f (
        mark-IsSound none (set_tables model tables db)
          (rw (raw_events-set_tables model tables db) own)
          (stored-IsSound model db tables s
            (Persisted-IsLedger env row.id row.vendor_hint ref (canonical_state event.payload)
              event_at (vendor_milestone event.payload) (w.model_dump event.payload) p
              (tables-IsLedger model db s))
            (Recorded-sources db.raw_events _ (tables_of model db).events tables.events p.recorded
              own (tables-HasSources model db s))))
