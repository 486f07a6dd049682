-- ===== src/Tests/Fixtures.antt =====
-- A concrete hash, classifier answers and database, for the tests.
use glacis.Base.{
  ℕ, zero, suc, ◌+◌, ◌≡◌, ◌==◌, refl, true, false, none, some, List, [], ◌∷◌, Text, codes, length,
  arith,
}
use glacis.Core.Json.{Json, null, string, end}
use glacis.Core.Events.{east, ShipmentPayloadBase, EventPayload, NormalizedEvent}
use glacis.Core.Models.{RawEvent, no_nul}
use glacis.Core.Config.{default_settings}
use glacis.Core.OrderBy.{OrderBy}
use glacis.Utils.Hashing.{Hashing}
use glacis.Services.Normalization.{Env}
use glacis.Services.World.{World}
use glacis.Tests.Sorting.{by_insertion}

abbrev pub repeat : ℕ → ℕ → Text
repeat zero c = []
repeat (suc n) c = c ∷ repeat n c

length-repeat : (n c : ℕ) → length (repeat n c) ≡ n
length-repeat zero c = refl
length-repeat (suc n) c = omega (arith, length-repeat n c)

no_nul-repeat : (n c : ℕ) → (c == 0) ≡ false → no_nul (repeat n c) ≡ true
unfolding no_nul
no_nul-repeat zero c h = refl
no_nul-repeat (suc n) c h = ground (arith, no_nul-repeat n c h)

-- a digest by the number of bytes
abbrev digest : List ℕ → Text
digest bytes = repeat 64 (48 + length bytes)

pub length-digest : (bytes : List ℕ) → length (digest bytes) ≡ 64
length-digest bytes = length-repeat 64 (48 + length bytes)

pub no_nul-digest : (bytes : List ℕ) → no_nul (digest bytes) ≡ true
no_nul-digest bytes = no_nul-repeat 64 (48 + length bytes) (ground arith)

abbrev pub dumps : Json → List ℕ
dumps (string t) = t
dumps _ = []

abbrev pub hashing : Hashing
hashing = record {
  serializes = λ j. true;
  dumps = dumps;
  hexdigest = digest;
  length-hexdigest = length-digest;
  no_nul-hexdigest = no_nul-digest;
  jsonb = λ j. j;
  fits_jsonb-jsonb = λ j. refl;
}

abbrev pub oldest : OrderBy (λ (r : RawEvent). r.received_at)
oldest = by_insertion (λ (r : RawEvent). r.received_at)

abbrev pub world : World
world = record {
  settings = default_settings;
  model_dump = λ p. null;
  repr = λ e. codes "error";
  oldest = oldest;
}

abbrev pub vendor : Text
vendor = codes "maersk"

abbrev pub body : Json
body = string (codes "sailed")

abbrev pub shipment_base : ShipmentPayloadBase
shipment_base = record {
  base = record { extras = end };
  vendor_milestone = codes "vessel sailed";
  transport_doc_number = codes "MBL1";
  container_id = none;
}

abbrev pub in_transit : EventPayload
in_transit = EventPayload.in_transit (record {
  shipment = shipment_base;
  vessel_name = none;
  vessel_imo = none;
  voyage_number = none;
  departure_port_code = none;
  departure_port_name = none;
})

abbrev pub delivered : EventPayload
delivered = EventPayload.delivered (record {
  shipment = shipment_base;
  consignee = none;
  delivery_port_code = none;
  delivery_order_number = none;
})

abbrev pub event_of : ℕ → EventPayload → NormalizedEvent
event_of at p = record {
  vendor = codes "MAEU";
  event_at = record { wall = at; tzinfo = some (east 0) };
  confidence = 4607182418800017408;
  payload = p;
}

abbrev pub env_of : ℕ → ℕ → Env
env_of entity_uuid event_uuid = record {
  now = 900;
  db_now = 901;
  entity_uuid = entity_uuid;
  event_uuid = event_uuid;
}
