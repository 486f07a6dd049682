-- ===== src/Core/Validation.antt =====
-- app/core/events.py: the validation of untyped input against the schema, and the dump of a payload.
pub mod Fields
pub mod States
pub mod Read
pub mod Dump
pub mod Valid
pub mod Validated
pub mod RoundTrip
pub mod Tags
pub mod Ignored
