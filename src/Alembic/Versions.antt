-- ===== src/Alembic/Versions.antt =====
-- alembic/versions: the three revisions, from the empty database to the tables of app/core/models.py.
pub mod Columns
pub mod Initial
pub mod TwoTierDedupe
pub mod UniquePrimary
