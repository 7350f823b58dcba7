-- ===== src/Builder.antt =====
-- crates/database/src/core/schema_builder.rs
pub mod State
pub mod Rows
pub mod Sort
pub mod Kahn
pub mod Build
pub mod Edges
pub mod ByName
pub mod Numbered
pub mod Compact
pub mod Resolve
pub mod ResolveAll
pub mod Places
pub mod Result
pub mod Assemble
pub mod Total
pub mod Sorted
pub mod Grow
pub mod Pushed
pub mod Grown
pub mod Cover
pub mod Promise
pub mod Leaves
mod Tests
