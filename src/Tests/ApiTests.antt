-- ===== src/Tests/ApiTests.antt =====
-- Requests to the routes.
use glacis.Base.{◌≡◌, refl, some, none, List, [], ◌∷◌, Text, codes, ℕ, ◌⊎◌, inr}
use glacis.Core.Json.{Json, object, end}
use glacis.Core.Events.{CanonicalState, EntityType}
use glacis.Core.Models.{Entity, EntityEvent, Db, empty_db}
use glacis.Core.OrderBy.{OrderBy}
use glacis.Services.Normalization.{shipments}
use glacis.System.{State}
use glacis.Api.{respond}
use glacis.Api.Entities.{EntityOut, read_entity, Shows, IsHistory, read_entity_lem}
use glacis.Tests.Sorting.{by_insertion}
use glacis.Tests.Fixtures.{vendor}
use glacis.Tests.IngestTests.{first_db}

-- a body of any two bytes is an empty object
abbrev pub loads : List ℕ → Text ⊎ Json
loads bytes = inr (object end)

abbrev pub queued : State
queued = record { db = first_db; in_flight = [] }

abbrev pub by_event_at : OrderBy (λ (e : EntityEvent). e.event_at)
by_event_at = by_insertion (λ (e : EntityEvent). e.event_at)

-- one shipment with one event
abbrev stored_shipment : Entity
stored_shipment = record {
  id = 70;
  vendor = vendor;
  external_ref = codes "MBL1";
  current_state = some CanonicalState.delivered;
  last_event_at = some 200;
  attributes = object end;
  created_at = 901;
  updated_at = 900;
}

abbrev stored_event : ℕ → ℕ → EntityEvent
stored_event id at = record {
  id = id;
  entity_id = 70;
  raw_event_id = id;
  canonical_state = CanonicalState.delivered;
  event_at = at;
  vendor_milestone = none;
  attributes = object end;
  created_at = 901;
}

abbrev shipped_db : Db
shipped_db = record empty_db {
  shipments = record {
    entities = stored_shipment ∷ [];
    events = stored_event 2 200 ∷ stored_event 1 100 ∷ [];
  };
}

read_entity_lem_example :
    (rows : List EntityEvent) × (out : EntityOut) × (read_entity by_event_at shipments 70 shipped_db
      ≡ respond out)
    × Shows rows out.events
    × IsHistory by_event_at shipments 70 shipped_db rows
    × (out.id ≡ 70)
    × (out.entity_type ≡ EntityType.shipment)
    × (out.vendor ≡ vendor)
    × (out.external_ref ≡ codes "MBL1")
    × (out.current_state ≡ some CanonicalState.delivered)
    × (out.last_event_at ≡ some 200)
    × (out.attributes ≡ object end)
read_entity_lem_example = read_entity_lem by_event_at shipments 70 shipped_db stored_shipment refl
