-- ===== src/Schema/Codec.antt =====
-- `encode`, `decode` and `decode_unchecked` of crates/database/src/core/schema.rs.
pub mod Bytes
pub mod Write
pub mod Read
pub mod Fields
pub mod RoundTrip
pub mod Extends
pub mod Prefix
pub mod BadAction
