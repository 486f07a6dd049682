-- ===== src/Alembic/Stages.antt =====
-- The tables after each revision, beside whatever other tables there are.
use glacis.Base.{◌≡◌, true, false, List, [], ◌∷◌, Text, codes, All}
use glacis.Alembic.Schema.{jsonb, integer, timestamptz, string, Index, Row, Table, Catalog, in_use}
use glacis.Alembic.Versions.Columns.{column, default_column, id_column, now_column}
use glacis.Alembic.Versions.Initial.{ix_raw_events_pending, entity_event_at}
use glacis.Alembic.Versions.Initial
use glacis.Alembic.Versions.TwoTierDedupe.{
  ix_raw_events_hash_exact_vendor, hash_exact, duplicate_of_id,
}
use glacis.Alembic.Versions.UniquePrimary.{uq_raw_events_primary_per_hash}

-- the rows of the five tables
pub record Contents : Type 0 where
  pub raw_events : List Row
  pub shipments : List Row
  pub shipment_events : List Row
  pub invoices : List Row
  pub invoice_events : List Row

abbrev pub nothing : Contents
nothing = record {
  raw_events = [];
  shipments = [];
  shipment_events = [];
  invoices = [];
  invoice_events = [];
}

abbrev pub with_index : Index → Table → Table
with_index i t = record t { indexes = i ∷ t.indexes }

abbrev pub filled : List Row → Table → Table
filled rows t = record t { rows = rows }

-- the tables of the entities, which no later revision changes
abbrev pub entity_tables : Contents → Catalog → Catalog
entity_tables c rest =
    filled c.invoice_events (
      with_index (entity_event_at (codes "ix_invoice_events_entity_event_at"))
        Initial.invoice_events)
    ∷ filled c.invoices Initial.invoices
    ∷ filled c.shipment_events (
        with_index (entity_event_at (codes "ix_shipment_events_entity_event_at"))
          Initial.shipment_events)
    ∷ filled c.shipments Initial.shipments
    ∷ rest

-- after 0001
abbrev pub initial : Contents → Catalog → Catalog
initial c rest =
    entity_tables c
      (filled c.raw_events (with_index ix_raw_events_pending Initial.raw_events) ∷ rest)

abbrev pub initial_names : List Text
initial_names =
    codes "raw_events"
    ∷ codes "uq_raw_events_dedupe_key"
    ∷ codes "ix_raw_events_pending"
    ∷ codes "shipments"
    ∷ codes "uq_shipments_vendor_ref"
    ∷ codes "shipment_events"
    ∷ codes "uq_shipment_events_raw_event_id"
    ∷ codes "ix_shipment_events_entity_event_at"
    ∷ codes "invoices"
    ∷ codes "uq_invoices_vendor_ref"
    ∷ codes "invoice_events"
    ∷ codes "uq_invoice_events_raw_event_id"
    ∷ codes "ix_invoice_events_entity_event_at"
    ∷ []

-- `raw_events` after 0002, with the columns in the order in which they were added
abbrev pub deduplicated : List Index → List Row → Table
deduplicated indexes rows = record {
  name = codes "raw_events";
  columns =
      id_column
      ∷ column (codes "vendor_hint") (string 64) false
      ∷ column (codes "payload") jsonb false
      ∷ now_column (codes "received_at")
      ∷ default_column (codes "status") (string 16) (codes "'pending'")
      ∷ default_column (codes "attempts") integer (codes "0")
      ∷ column (codes "last_error") (string 2048) true
      ∷ column (codes "locked_at") timestamptz true
      ∷ column (codes "processed_at") timestamptz true
      ∷ hash_exact
      ∷ duplicate_of_id
      ∷ [];
  uniques = [];
  indexes = indexes;
  rows = rows;
}

abbrev pub two_tier : Contents → Catalog → Catalog
two_tier c rest = entity_tables c (
    deduplicated (ix_raw_events_hash_exact_vendor ∷ ix_raw_events_pending ∷ []) c.raw_events ∷ rest)

-- after 0003
abbrev pub current : Contents → Catalog → Catalog
current c rest =
    entity_tables c (
      deduplicated (uq_raw_events_primary_per_hash ∷ ix_raw_events_pending ∷ []) c.raw_events
      ∷ rest)

abbrev pub helper_names : List Text
helper_names =
    codes "ix_raw_events_pending"
    ∷ codes "ix_raw_events_hash_exact_vendor"
    ∷ codes "uq_raw_events_dedupe_key"
    ∷ codes "uq_raw_events_primary_per_hash"
    ∷ []

-- no table, index or constraint has one of the names
abbrev pub IsFree : List Text → Catalog → Type 0
IsFree names catalog = All (λ name. in_use name catalog ≡ false) names
