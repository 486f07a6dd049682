-- ===== src/Services.antt =====
-- app/services: ingestion, normalization, retry.
pub mod Ingestion
pub mod Normalization
pub mod World
pub mod Retry
