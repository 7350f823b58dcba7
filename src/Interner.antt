-- ===== src/Interner.antt =====
-- crates/database/src/core/string_interner.rs
pub mod Symbol
pub mod Pool
pub mod Strings
pub mod Cache
pub mod Utf8
pub mod Hash
pub mod Types
pub mod Lookup
pub mod Intern
pub mod Create
mod Tests
mod Runs
