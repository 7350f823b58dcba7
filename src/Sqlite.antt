-- ===== src/Sqlite.antt =====
-- crates/database/src/dialect/sqlite.rs: the SQL that it sends.
pub mod Default
pub mod Ddl
pub mod Live
pub mod Alter
pub mod Trigger
pub mod Cut
pub mod Hex
pub mod Keys
pub mod Open
pub mod Sample
mod Tests
