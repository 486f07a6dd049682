-- ===== src/Utils.antt =====
-- app/utils.
pub mod Hashing
