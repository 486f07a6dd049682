-- ===== src/Tests/DeliveryTests.antt =====
-- A webhook on an empty database, and the round of the worker after it.
use glacis.Core.Json.{Json}
use glacis.Core.Events.{NormalizedEvent}
use glacis.Core.Models.{EntityEvent}
use glacis.Core.Errors.{Result, ok}
use glacis.Core.OrderBy.{OrderBy}
use glacis.Tests.Sorting.{by_insertion}
use glacis.Tests.Fixtures.{in_transit, event_of}

abbrev by_event_at : OrderBy (λ (e : EntityEvent). e.event_at)
by_event_at = by_insertion (λ (e : EntityEvent). e.event_at)

abbrev departed : NormalizedEvent
departed = event_of 100 in_transit

abbrev classify : Json → Result NormalizedEvent
classify payload = ok departed
