-- ===== src/Tests.antt =====
-- The theorems at concrete inputs.
mod Sorting
mod Fixtures
mod IngestTests
mod PersistTests
mod WorkerTests
mod InterleavedTests
mod LoopTests
mod ApiTests
mod Routing
mod AppTests
mod SchemaTests
mod LimitTests
mod MigrationTests
mod DeliveryTests
mod EngineTests
mod AttributeTests
