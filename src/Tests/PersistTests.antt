-- ===== src/Tests/PersistTests.antt =====
-- Two events of a shipment, in both orders, and an unclassified one.
use mathlib.Core.List.{Permᴰ}
use glacis.Base.{any_row, true, ◌≡◌, refl, none, some, [], ◌∷◌, arith, text_eq, codes}
use glacis.Core.Json.{null, end}
use glacis.Core.Events.{
  CanonicalState, EventPayload, NormalizedEvent, UnclassifiedPayload, canonical_state, external_ref,
  vendor_milestone,
}
use glacis.Core.Models.{no_nul, fits_jsonb, Tables, Db, empty_db, update_raw}
use glacis.Core.Errors.{ok, raise}
use glacis.Core.Config.{default_settings}
use glacis.Services.Normalization.{
  as_unclassified, entity_model, ensure_utc, shipments, set_tables, persist_normalized,
  mark_processed, note_of,
}
use glacis.Services.Normalization.Ledger.{IsLedger}
use glacis.Services.Normalization.Steps.{persist_event-IsLedger}
use glacis.Services.Normalization.Latest.{view, of_event, absorb, persist_event-view}
use glacis.Services.Normalization.History.{
  History, is_of_raw, persist_event-History, persist_event-reprocessed,
}
use glacis.Services.Normalization.Order.{
  Delivery, deliver, deliver_all, DistinctTimes, deliver_all_converges,
}
use glacis.Services.Normalization.Total.{IsFresh, persist_normalized_total}
use glacis.Services.Normalization.Outcome.{persist_normalized-unclassified}
use glacis.Services.Ingestion.{new_raw}
use glacis.Tests.Fixtures.{vendor, in_transit, event_of, env_of}
use glacis.Tests.IngestTests.{first_row, first_db}

persisting : Unit {0}
unfolding persist_normalized text_eq canonical_state external_ref vendor_milestone fits_jsonb no_nul
persisting = tt

abbrev sailed : Delivery
sailed = record {
  env = env_of 70 71;
  raw_event_id = 1;
  vendor = vendor;
  external_ref = codes "MBL1";
  state = CanonicalState.in_transit;
  event_at = 100;
  milestone = none;
  attributes = null;
}

abbrev arrived : Delivery
arrived = record {
  env = env_of 80 81;
  raw_event_id = 2;
  vendor = vendor;
  external_ref = codes "MBL1";
  state = CanonicalState.delivered;
  event_at = 200;
  milestone = none;
  attributes = null;
}

abbrev no_tables : Tables
no_tables = empty_db.shipments

unfoldable run : Delivery → Tables → Tables
unfolding persisting deliver
run d t = elim (deliver d t) [ ok t' ↦ t' | raise e ↦ t ]

abbrev after_sailed : Tables
after_sailed = run sailed no_tables

sailed_runs : deliver sailed no_tables ≡ ok after_sailed
unfolding persisting deliver run
sailed_runs = refl

both_run : deliver_all (sailed ∷ arrived ∷ []) no_tables ≡ ok (run arrived after_sailed)
unfolding persisting deliver deliver_all run
both_run = refl

late_runs : deliver_all (arrived ∷ sailed ∷ []) no_tables ≡ ok (run sailed (run arrived no_tables))
unfolding persisting deliver deliver_all run
late_runs = refl

no_tables-IsLedger : IsLedger no_tables
no_tables-IsLedger = ground arith

persist_event-IsLedger_example : IsLedger after_sailed
unfolding deliver
persist_event-IsLedger_example =
    persist_event-IsLedger (env_of 70 71) 1 vendor (codes "MBL1") CanonicalState.in_transit 100 none
      null no_tables after_sailed no_tables-IsLedger sailed_runs

persist_event-view_example :
    view vendor (codes "MBL1") after_sailed ≡ some (of_event CanonicalState.in_transit 100 null)
unfolding deliver persisting view absorb
persist_event-view_example =
    persist_event-view (env_of 70 71) 1 vendor (codes "MBL1") CanonicalState.in_transit 100 none
      null no_tables after_sailed vendor (codes "MBL1") no_tables-IsLedger sailed_runs

persist_event-History_example :
    History
      (env_of 70 71)
      1
      vendor
      (codes "MBL1")
      CanonicalState.in_transit
      100
      none
      null
      no_tables
      after_sailed
unfolding deliver
persist_event-History_example =
    persist_event-History (env_of 70 71) 1 vendor (codes "MBL1") CanonicalState.in_transit 100 none
      null no_tables after_sailed sailed_runs

-- the raw event of `sailed` a second time, now read as a delivery
abbrev again_arrived : Delivery
again_arrived = record arrived { raw_event_id = 1 }

again_runs : deliver again_arrived after_sailed ≡ ok (run again_arrived after_sailed)
unfolding persisting deliver run
again_runs = refl

after_sailed-recorded : any_row (is_of_raw 1) after_sailed.events ≡ true
unfolding persisting deliver run
after_sailed-recorded = refl

after_sailed-IsLedger : IsLedger after_sailed
unfolding deliver
after_sailed-IsLedger =
    persist_event-IsLedger (env_of 70 71) 1 vendor (codes "MBL1") CanonicalState.in_transit 100 none
      null no_tables after_sailed no_tables-IsLedger sailed_runs

persist_event-reprocessed_example :
    ((run again_arrived after_sailed).events ≡ after_sailed.events)
    × (view vendor (codes "MBL1") (run again_arrived after_sailed)
        ≡ some (absorb CanonicalState.delivered 200 null (view vendor (codes "MBL1") after_sailed)))
unfolding deliver
persist_event-reprocessed_example =
    persist_event-reprocessed (env_of 80 81) 1 vendor (codes "MBL1") CanonicalState.delivered 200
      none null after_sailed (run again_arrived after_sailed) after_sailed-IsLedger
      after_sailed-recorded again_runs

distinct_times : DistinctTimes (sailed ∷ arrived ∷ [])
distinct_times = ground arith

deliver_all_converges_example :
    view vendor (codes "MBL1") (run arrived after_sailed)
    ≡ view vendor (codes "MBL1") (run sailed (run arrived no_tables))
deliver_all_converges_example =
    deliver_all_converges (sailed ∷ arrived ∷ []) (arrived ∷ sailed ∷ []) no_tables
      (run arrived after_sailed) (run sailed (run arrived no_tables)) vendor (codes "MBL1")
      (Permᴰ.swap refl refl) distinct_times no_tables-IsLedger both_run late_runs

abbrev shipped : NormalizedEvent
shipped = event_of 100 in_transit

-- the run of the transaction, with the milestone of the event
abbrev sailed_event : Delivery
sailed_event = record sailed { milestone = some (codes "vessel sailed") }

abbrev persisted_db : Db
persisted_db =
    update_raw 1 (mark_processed 900 none)
      (set_tables shipments (run sailed_event no_tables) first_db)

persisted_runs :
    persist_normalized default_settings (λ p. null) (env_of 70 71) first_row shipped first_db
    ≡ ok (tt, persisted_db)
unfolding persisting deliver run mark_processed new_raw
persisted_runs = refl

abbrev noise : UnclassifiedPayload
noise = record { base = record { extras = end }; reason = codes "marketing" }

persist_normalized-unclassified_example :
    (db' : Db) × (persist_normalized default_settings
        (λ p. null)
        (env_of 70 71)
        first_row
        (event_of 100 (EventPayload.unclassified noise))
        first_db
      ≡ ok (tt, db'))
    × (db'.shipments ≡ first_db.shipments)
    × (db'.invoices ≡ first_db.invoices)
    × (db'.raw_events
        ≡ (update_raw 1 (mark_processed 900 (note_of default_settings noise)) first_db).raw_events)
unfolding new_raw no_nul
persist_normalized-unclassified_example =
    persist_normalized-unclassified default_settings (λ p. null) (env_of 70 71) first_row
      (event_of 100 (EventPayload.unclassified noise)) noise first_db refl refl

pub first_db-IsFresh : IsFresh (env_of 70 71) first_db.shipments
first_db-IsFresh = ground arith

persist_normalized_total_example :
    (db' : Db) × (persist_normalized default_settings
        (λ p. null)
        (env_of 70 71)
        first_row
        shipped
        first_db
      ≡ ok (tt, db'))
unfolding as_unclassified entity_model external_ref vendor_milestone ensure_utc new_raw fits_jsonb
    no_nul
persist_normalized_total_example =
    persist_normalized_total default_settings (λ p. null) (env_of 70 71) first_row shipped shipments
      (codes "MBL1") 100 first_db refl refl refl refl refl refl refl refl first_db-IsFresh
