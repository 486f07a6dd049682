-- ===== src/Tests/LimitTests.antt =====
-- An event whose reference is longer than its column.
use glacis.Base.{none}
use glacis.Core.Events.{EventPayload, NormalizedEvent}
use glacis.Tests.Fixtures.{repeat, shipment_base, event_of}

abbrev overlong : NormalizedEvent
overlong = event_of 100 (
    EventPayload.delivered (record {
      shipment = record shipment_base { transport_doc_number = repeat 129 65 };
      consignee = none;
      delivery_port_code = none;
      delivery_order_number = none;
    }))
