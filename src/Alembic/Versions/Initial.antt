-- ===== src/Alembic/Versions/Initial.antt =====
-- alembic/versions/0001_initial.py
use glacis.Base.{Bool, true, false, some, List, [], ◌∷◌, Text, codes}
use glacis.Core.Json.{Json}
use glacis.Alembic.Schema.{
  jsonb, integer, timestamptz, string, no_action, cascade, Column, equals, always, Index, Table,
  Catalog, Outcome, ◌>>◌,
}
use glacis.Alembic.Op.{create_table, create_index, drop_index, drop_table}
use glacis.Alembic.Versions.Columns.{column, default_column, reference, id_column, now_column}

abbrev pub raw_events : Table
raw_events = record {
  name = codes "raw_events";
  columns =
      id_column
      ∷ column (codes "dedupe_key") (string 128) false
      ∷ column (codes "vendor_hint") (string 64) false
      ∷ column (codes "payload") jsonb false
      ∷ now_column (codes "received_at")
      ∷ default_column (codes "status") (string 16) (codes "'pending'")
      ∷ default_column (codes "attempts") integer (codes "0")
      ∷ column (codes "last_error") (string 2048) true
      ∷ column (codes "locked_at") timestamptz true
      ∷ column (codes "processed_at") timestamptz true
      ∷ [];
  uniques =
      record { name = some (codes "uq_raw_events_dedupe_key"); columns = codes "dedupe_key" ∷ [] }
      ∷ [];
  indexes = [];
  rows = [];
}

abbrev pub ix_raw_events_pending : Index
ix_raw_events_pending = record {
  name = codes "ix_raw_events_pending";
  columns = codes "status" ∷ codes "received_at" ∷ [];
  unique = false;
  condition = equals (codes "status") (codes "pending");
}

abbrev pub entity_columns : List Column
entity_columns =
    id_column
    ∷ column (codes "vendor") (string 64) false
    ∷ column (codes "external_ref") (string 128) false
    ∷ column (codes "current_state") (string 32) true
    ∷ column (codes "last_event_at") timestamptz true
    ∷ default_column (codes "attributes") jsonb (codes "'{}'::jsonb")
    ∷ now_column (codes "created_at")
    ∷ now_column (codes "updated_at")
    ∷ []

-- `shipments` and `invoices` have the same columns
abbrev pub entity_table : Text → Text → Table
entity_table name constraint = record {
  name = name;
  columns = entity_columns;
  uniques =
      record { name = some constraint; columns = codes "vendor" ∷ codes "external_ref" ∷ [] } ∷ [];
  indexes = [];
  rows = [];
}

-- and so have their events
abbrev pub event_table : Text → Text → Text → Table
event_table name entities constraint = record {
  name = name;
  columns =
      id_column
      ∷ reference (codes "entity_id") entities cascade false
      ∷ reference (codes "raw_event_id") (codes "raw_events") no_action false
      ∷ column (codes "canonical_state") (string 32) false
      ∷ column (codes "event_at") timestamptz false
      ∷ column (codes "vendor_milestone") (string 512) true
      ∷ default_column (codes "attributes") jsonb (codes "'{}'::jsonb")
      ∷ now_column (codes "created_at")
      ∷ [];
  uniques = record { name = some constraint; columns = codes "raw_event_id" ∷ [] } ∷ [];
  indexes = [];
  rows = [];
}

abbrev pub entity_event_at : Text → Index
entity_event_at name = record {
  name = name;
  columns = codes "entity_id" ∷ codes "event_at" ∷ [];
  unique = false;
  condition = always;
}

abbrev pub shipments : Table
shipments = entity_table (codes "shipments") (codes "uq_shipments_vendor_ref")

abbrev pub shipment_events : Table
shipment_events =
    event_table (codes "shipment_events") (codes "shipments")
      (codes "uq_shipment_events_raw_event_id")

abbrev pub invoices : Table
invoices = entity_table (codes "invoices") (codes "uq_invoices_vendor_ref")

abbrev pub invoice_events : Table
invoice_events =
    event_table (codes "invoice_events") (codes "invoices") (codes "uq_invoice_events_raw_event_id")

module _ (jsonb_eq : Json → Json → Bool) where
  unfoldable pub upgrade : Catalog → Outcome Catalog
  unfolding create_table create_index
  upgrade = do
    create_table raw_events
    create_index jsonb_eq (codes "raw_events") ix_raw_events_pending
    create_table shipments
    create_table shipment_events
    create_index jsonb_eq (codes "shipment_events")
        (entity_event_at (codes "ix_shipment_events_entity_event_at"))
    create_table invoices
    create_table invoice_events
    create_index jsonb_eq (codes "invoice_events")
        (entity_event_at (codes "ix_invoice_events_entity_event_at"))

unfoldable pub downgrade : Catalog → Outcome Catalog
unfolding drop_index drop_table
downgrade = do
  drop_index (codes "ix_invoice_events_entity_event_at")
  drop_table (codes "invoice_events")
  drop_table (codes "invoices")
  drop_index (codes "ix_shipment_events_entity_event_at")
  drop_table (codes "shipment_events")
  drop_table (codes "shipments")
  drop_index (codes "ix_raw_events_pending")
  drop_table (codes "raw_events")
