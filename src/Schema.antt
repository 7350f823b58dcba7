-- ===== src/Schema.antt =====
-- crates/database/src/core/schema.rs and the column types of core/value.rs.
pub mod Types
pub mod Flags
pub mod Lookup
pub mod Codec
pub mod Tests
