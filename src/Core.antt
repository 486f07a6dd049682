-- ===== src/Core.antt =====
-- app/core: the event schema, the tables, the settings and the transactional session.
pub mod Json
pub mod Events
pub mod Models
pub mod Nul
pub mod Errors
pub mod Session
pub mod Engine
pub mod OrderBy
pub mod Inbox
pub mod Lookup
pub mod Config
pub mod Validation
