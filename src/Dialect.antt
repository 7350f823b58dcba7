-- ===== src/Dialect.antt =====
-- The errors of a dialect, in crates/database/src/dialect.rs. `D` is sqlx's error, and `show` its text.
use boomerang.Base.{◌++◌}
use boomerang.Base.Order.{Str}
use boomerang.Base.Text.{codes}

pub data DatabaseError (D : Type 0) : Type 0 where
  connection_pool_failed : DatabaseError D
  failed_to_acquire_transaction : DatabaseError D
  failed_to_commit_transaction : DatabaseError D
  setup_failed : (step reason : Str) → DatabaseError D
  schema_hash_computation_failed : DatabaseError D
  sqlx_error : D → DatabaseError D
  backfill_failed : (table reason : Str) → DatabaseError D
  invalid_sqlite_bytes : DatabaseError D

-- `Display`
unfoldable pub message : {D : Type 0} → (D → Str) → DatabaseError D → Str
message show connection_pool_failed = codes "failed to create connection pool"
message show failed_to_acquire_transaction = codes "failed to acquire transaction"
message show failed_to_commit_transaction = codes "failed to commit transaction"
message show (setup_failed step reason) =
    codes "setup failed while " ++ (step ++ (codes ": " ++ reason))
message show schema_hash_computation_failed = codes "failed to compute schema hash"
message show (sqlx_error error) = codes "sqlx error: " ++ show error
message show (backfill_failed table reason) =
    codes "backfill failed for table " ++ (table ++ (codes ": " ++ reason))
message show invalid_sqlite_bytes = codes "provided bytes are not a valid SQLite database"
