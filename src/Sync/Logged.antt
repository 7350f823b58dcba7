-- ===== src/Sync/Logged.antt =====
-- A row that decodes without an error, as what it says: the vocabulary in which the results about
-- crates/database/src/sync/truth_table.rs are stated.
use Prim.Native.Nat.{Ordering}
use mathlib.Core.Option
use boomerang.Base.{inr, ◌≡◌, Option, none, some, List, [], ◌∷◌, if◌then◌else◌}
use boomerang.Base.Order.{
  Str, IsOrder, lt, eq, gt, cmp_str, cmp_str-IsOrder, cmp_pair, cmp_pair-IsOrder,
}
use boomerang.Base.Int.{ℤ, cmp_int}
use boomerang.Interner.Symbol.{Symbol}
use boomerang.Sync.Log.{
  LogOpType, insert, update, delete, eq_op, LogRow, SyncLogEntry, SyncTruthEntry,
}
use boomerang.Sync.Log.{RowAction, apply_from_postgres, apply_from_sqlite, conflict}
use boomerang.Sync.Head.{SymbolTable, TableCache, Head}
use boomerang.Sync.Table.{Stream, Pulled}

pub record Logged : Type 0 where
  pub table : Str
  pub record_id : Str
  pub op : LogOpType
  pub version : ℤ
  pub updated_at : ℤ

abbrev pub Key : Type 0
Key = Str × Str

abbrev pub key : Logged → Key
key l = (l.table, l.record_id)

abbrev pub cmp_key : Key → Key → Ordering
cmp_key = cmp_pair cmp_str cmp_str

pub cmp_key-IsOrder : IsOrder cmp_key
cmp_key-IsOrder = cmp_pair-IsOrder cmp_str-IsOrder cmp_str-IsOrder

abbrev pub op_text : LogOpType → Str
op_text insert = b'I' ∷ []
op_text update = b'U' ∷ []
op_text delete = b'D' ∷ []

abbrev pub row_of : {E : Type 0} → Logged → LogRow E
row_of l = record {
  table = inr l.table;
  record_id = inr l.record_id;
  op = inr (op_text l.op);
  version = inr l.version;
  updated_at = inr l.updated_at;
}

abbrev pub stream_of : {E : Type 0} → List Logged → Stream E
stream_of [] = []
stream_of (l ∷ ls) = inr (row_of l) ∷ stream_of ls

module _ (schema : SymbolTable) where
  abbrev pub symbol_of : Str → Symbol
  symbol_of name = Option.get_or (schema.get_symbol name) (record { raw = 0 })

  -- The schema has the row's table.
  abbrev pub IsKnown : Logged → Type 0
  IsKnown l = schema.get_symbol l.table ≡ some (symbol_of l.table)

  abbrev pub head_of : {E : Type 0} → Logged → Head E
  head_of l = record {
    row = row_of l;
    table = symbol_of l.table;
    op = l.op;
    version = l.version;
    updated_at = l.updated_at;
  }

  -- One side of the merge that has read into a log up to the head of `ls`.
  abbrev pub side_of : {E : Type 0} → List Logged → TableCache → Pulled E
  side_of [] c = record { head = none; stream = []; cache = c }
  side_of (l ∷ ls) c = record { head = some (head_of l); stream = stream_of ls; cache = c }

  abbrev pub entry_of : Logged → SyncLogEntry
  entry_of l = record {
    table_name = symbol_of l.table;
    record_id = l.record_id;
    op_type = l.op;
    version = l.version;
    updated_at = l.updated_at;
  }

  -- What the memo holds is what the schema says.
  abbrev pub IsMemo : Str → Option Symbol → Type 0
  IsMemo name none = Unit {0}
  IsMemo name (some s) = schema.get_symbol name ≡ some s

  abbrev pub IsCache : TableCache → Type 0
  IsCache c = IsMemo c.name c.symbol

-- The policy: the higher version, then the later time; the same operation is agreement.
abbrev pub by_op : LogOpType → LogOpType → Option RowAction
by_op p s = if eq_op p s then none else some conflict

abbrev pub by_time : Logged → Logged → Option RowAction
by_time p s = elim (cmp_int p.updated_at s.updated_at) [
  | gt ↦ some apply_from_postgres
  | lt ↦ some apply_from_sqlite
  | eq ↦ by_op p.op s.op
]

unfoldable pub policy : Logged → Logged → Option RowAction
policy p s = elim (cmp_int p.version s.version) [
  | gt ↦ some apply_from_postgres
  | lt ↦ some apply_from_sqlite
  | eq ↦ by_time p s
]

module _ (schema : SymbolTable) where
  -- What is to be reported of a record, from what each log holds under its key.
  unfoldable pub decide : Option Logged → Option Logged → Option SyncTruthEntry
  decide none none = none
  decide (some p) none =
      some (record {
        postgres = some (entry_of schema p);
        sqlite = none;
        action = apply_from_postgres;
      })
  decide none (some s) =
      some
        (record { postgres = none; sqlite = some (entry_of schema s); action = apply_from_sqlite })
  decide (some p) (some s) = elim (policy p s) [
    | none ↦ none
    | some action ↦ some (record {
      postgres = some (entry_of schema p);
      sqlite = some (entry_of schema s);
      action = action;
    })
  ]
