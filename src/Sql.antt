-- ===== src/Sql.antt =====
-- The SQL text that the program writes.
pub mod Quote
pub mod Tests
