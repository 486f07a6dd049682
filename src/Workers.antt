-- ===== src/Workers.antt =====
-- app/workers.
pub mod IngestWorker
pub mod Loop
