-- ===== src/Alembic/Metadata.antt =====
-- app/core/models.py: the tables as the models declare them, `Base.metadata`.
use glacis.Base.{true, false, none, some, [], ◌∷◌, Text, codes}
use glacis.Alembic.Schema.{
  jsonb, integer, timestamptz, string, no_action, cascade, set_null, equals, is_null, always, Table,
  Catalog,
}
use glacis.Alembic.Versions.Columns.{column, default_column, reference, id_column, now_column}

abbrev pub raw_events : Table
raw_events = record {
  name = codes "raw_events";
  columns =
      id_column
      ∷ column (codes "vendor_hint") (string 64) false
      ∷ column (codes "payload") jsonb false
      ∷ now_column (codes "received_at")
      ∷ column (codes "hash_exact") (string 64) false
      ∷ reference (codes "duplicate_of_id") (codes "raw_events") set_null true
      ∷ default_column (codes "status") (string 16) (codes "'pending'")
      ∷ default_column (codes "attempts") integer (codes "0")
      ∷ column (codes "last_error") (string 2048) true
      ∷ column (codes "locked_at") timestamptz true
      ∷ column (codes "processed_at") timestamptz true
      ∷ [];
  uniques = [];
  indexes =
      record {
        name = codes "ix_raw_events_pending";
        columns = codes "status" ∷ codes "received_at" ∷ [];
        unique = false;
        condition = equals (codes "status") (codes "pending");
      }
      ∷ record {
        name = codes "uq_raw_events_primary_per_hash";
        columns = codes "vendor_hint" ∷ codes "hash_exact" ∷ [];
        unique = true;
        condition = is_null (codes "duplicate_of_id");
      }
      ∷ [];
  rows = [];
}

-- `Shipment` and `Invoice`
abbrev pub entity_model_table : Text → Text → Table
entity_model_table name constraint = record {
  name = name;
  columns =
      id_column
      ∷ column (codes "vendor") (string 64) false
      ∷ column (codes "external_ref") (string 128) false
      ∷ column (codes "current_state") (string 32) true
      ∷ column (codes "last_event_at") timestamptz true
      ∷ default_column (codes "attributes") jsonb (codes "'{}'::jsonb")
      ∷ now_column (codes "created_at")
      ∷ now_column (codes "updated_at")
      ∷ [];
  uniques =
      record { name = some constraint; columns = codes "vendor" ∷ codes "external_ref" ∷ [] } ∷ [];
  indexes = [];
  rows = [];
}

-- `ShipmentEvent` and `InvoiceEvent`, whose `unique=True` names no constraint
abbrev pub event_model_table : Text → Text → Text → Table
event_model_table name entities index = record {
  name = name;
  columns =
      id_column
      ∷ reference (codes "entity_id") entities cascade false
      ∷ reference (codes "raw_event_id") (codes "raw_events") no_action false
      ∷ column (codes "canonical_state") (string 32) false
      ∷ column (codes "event_at") timestamptz false
      ∷ column (codes "vendor_milestone") (string 512) true
      ∷ default_column (codes "attributes") jsonb (codes "'{}'::jsonb")
      ∷ now_column (codes "created_at")
      ∷ [];
  uniques = record { name = none; columns = codes "raw_event_id" ∷ [] } ∷ [];
  indexes =
      record {
        name = index;
        columns = codes "entity_id" ∷ codes "event_at" ∷ [];
        unique = false;
        condition = always;
      }
      ∷ [];
  rows = [];
}

-- the last table first
abbrev pub metadata : Catalog
metadata =
    event_model_table (codes "invoice_events") (codes "invoices")
      (codes "ix_invoice_events_entity_event_at")
    ∷ entity_model_table (codes "invoices") (codes "uq_invoices_vendor_ref")
    ∷ event_model_table (codes "shipment_events") (codes "shipments")
        (codes "ix_shipment_events_entity_event_at")
    ∷ entity_model_table (codes "shipments") (codes "uq_shipments_vendor_ref")
    ∷ raw_events
    ∷ []
