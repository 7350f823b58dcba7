-- ===== src/Sync/Log.antt =====
-- The data of crates/database/src/sync: log rows (log_row.rs), log entries, actions and errors
-- (truth_table.rs). `sqlx::Error` is the parameter `E`; a fallible getter is a sum, error first.
use boomerang.Base.{◌⊎◌, inl, inr, Bool, true, false, Option, none, [], ◌∷◌, if◌then◌else◌}
use boomerang.Base.Order.{Str, eq_str}
use boomerang.Base.Int.{ℤ}
use boomerang.Interner.Symbol.{Symbol}

pub data LogOpType : Type 0 where
  insert update delete : LogOpType

pub record InvalidOpType : Type 0 where
  pub op_type : Str

unfoldable pub try_from : Str → InvalidOpType ⊎ LogOpType
try_from s =
    if eq_str s (b'I' ∷ [])
    then inr insert
    else if eq_str s (b'U' ∷ [])
    then inr update
    else if eq_str s (b'D' ∷ [])
    then inr delete
    else inl (record { op_type = s })

-- The derived `==`.
unfoldable pub eq_op : LogOpType → LogOpType → Bool
eq_op insert insert = true
eq_op update update = true
eq_op delete delete = true
eq_op _ _ = false

-- What the trait `LogRow` reads from a row; each getter answers the same at each call.
pub record LogRow (E : Type 0) : Type 0 where
  pub table : E ⊎ Str
  pub record_id : E ⊎ Str
  pub op : E ⊎ Str
  pub version : E ⊎ ℤ
  pub updated_at : E ⊎ ℤ

pub record SyncLogEntry : Type 0 where
  pub table_name : Symbol
  pub record_id : Str
  pub op_type : LogOpType
  pub version : ℤ
  pub updated_at : ℤ

pub data RowAction : Type 0 where
  apply_from_postgres apply_from_sqlite conflict : RowAction

pub record SyncTruthEntry : Type 0 where
  pub postgres : Option SyncLogEntry
  pub sqlite : Option SyncLogEntry
  pub action : RowAction

winner : RowAction → SyncTruthEntry → Option SyncLogEntry
winner conflict e = none
winner apply_from_postgres e = e.postgres
winner apply_from_sqlite e = e.sqlite

unfoldable pub winning_entry : SyncTruthEntry → Option SyncLogEntry
unfolding winner
winning_entry e = winner e.action e

pub data TruthTableError (E : Type 0) : Type 0 where
  postgres : E → TruthTableError E
  sqlite : E → TruthTableError E
  unknown_table : Str → TruthTableError E
