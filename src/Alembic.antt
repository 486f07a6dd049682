-- ===== src/Alembic.antt =====
-- alembic: the migrations of the schema.
pub mod Schema
pub mod Op
pub mod Versions
pub mod Config
pub mod Env
pub mod Metadata
pub mod Stages
pub mod Upgrades
pub mod Downgrades
pub mod Head
pub mod Primaries
