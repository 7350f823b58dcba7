-- ===== src/Sync.antt =====
-- crates/database/src/sync: the merge-join of the two sync logs.
pub mod Log
pub mod Head
pub mod Table
pub mod Join
pub mod Logged
pub mod Memo
pub mod Rounds
pub mod Merge
pub mod Policy
pub mod Tests
