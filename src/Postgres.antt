-- ===== src/Postgres.antt =====
-- crates/database/src/dialect/postgres.rs: how the catalogue becomes a schema.
pub mod Load
pub mod Loaded
pub mod Setup
pub mod Keyed
mod Tests
