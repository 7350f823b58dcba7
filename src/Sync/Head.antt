-- ===== src/Sync/Head.antt =====
-- `TableCache`, `Head` and `cmp_heads` of crates/database/src/sync/truth_table.rs.
use Prim.Native.Nat.{Ordering}
use boomerang.Base.{inl, inr, ◌≡◌, Option, none, some, [], ◌∷◌, if◌then◌else◌}
use boomerang.Base.Order.{Str, eq_str, cmp_str}
use boomerang.Base.Int.{ℤ}
use boomerang.Base.Outcome.{Run, ok, err, panic, ◌>>=◌, or_fail}
use boomerang.Interner.Symbol.{Symbol, eq_symbol}
use boomerang.Sync.Log.{LogOpType, InvalidOpType, try_from, LogRow, SyncLogEntry, TruthTableError}

-- What the merge uses of a `DatabaseSchema`: a symbol that `get_symbol` returns resolves to the name
-- that was asked for.
pub record SymbolTable : Type 0 where
  pub get_symbol : Str → Option Symbol
  pub resolve_symbol : Symbol → Option Str
  pub resolve-get :
      (name : Str) (s : Symbol) → get_symbol name ≡ some s → resolve_symbol s ≡ some name

pub record TableCache : Type 0 where
  pub name : Str
  pub symbol : Option Symbol

abbrev pub empty_cache : TableCache
empty_cache = record { name = []; symbol = none }

pub record Head (E : Type 0) : Type 0 where
  pub row : LogRow E
  pub table : Symbol
  pub op : LogOpType
  pub version : ℤ
  pub updated_at : ℤ

-- The text `op_type`, the index in the error of a bad op type.
abbrev pub op_type_text : Str
op_type_text = b'o' ∷ b'p' ∷ b'_' ∷ b't' ∷ b'y' ∷ b'p' ∷ b'e' ∷ []

module _ {E : Type 0} where
  -- The part of `symbol_for` behind the early return.
  unfoldable pub look_up : SymbolTable → Str → Run (TruthTableError E) (Symbol × TableCache)
  look_up schema table = elim (schema.get_symbol table) [
    | none ↦ err (TruthTableError.unknown_table table)
    | some s ↦ ok (s, record { name = table; symbol = some s })
  ]

  unfoldable pub symbol_for :
      TableCache → SymbolTable → Str → Run (TruthTableError E) (Symbol × TableCache)
  unfolding look_up
  symbol_for cache schema table = elim cache.symbol [
    | some s ↦ if eq_str cache.name table then ok (s, cache) else look_up schema table
    | none ↦ look_up schema table
  ]

  -- `expect` panics on an error.
  unfoldable pub record_id : Head E → Run (TruthTableError E) Str
  record_id h = elim h.row.record_id [ inl _ ↦ panic | inr s ↦ ok s ]

  unfoldable pub into_entry : Head E → Run (TruthTableError E) SyncLogEntry
  into_entry h = do
    id ← record_id h
    ok (record {
      table_name = h.table;
      record_id = id;
      op_type = h.op;
      version = h.version;
      updated_at = h.updated_at;
    })

  unfoldable pub name : SymbolTable → Symbol → Run (TruthTableError E) Str
  name schema s = elim (schema.resolve_symbol s) [ none ↦ panic | some n ↦ ok n ]

  unfoldable pub cmp_heads : SymbolTable → Head E → Head E → Run (TruthTableError E) Ordering
  unfolding name
  cmp_heads schema a b =
      if eq_symbol a.table b.table
      then (do x ← record_id a; y ← record_id b; ok (cmp_str x y))
      else do x ← name schema a.table; y ← name schema b.table; ok (cmp_str x y)

-- `sqlx::Error::ColumnDecode { index, source }` is the parameter `column_decode`.
unfoldable pub new :
    {E : Type 0}
    → (Str → InvalidOpType → E)
    → LogRow E
    → SymbolTable
    → TableCache
    → (E → TruthTableError E)
    → Run (TruthTableError E) (Head E × TableCache)
unfolding symbol_for
new column_decode row schema cache db_err = do
  text ← or_fail db_err row.table
  (table, cache') ← symbol_for cache schema text
  op_text ← or_fail db_err row.op
  op ← or_fail (λ e. db_err (column_decode op_type_text e)) (try_from op_text)
  version ← or_fail db_err row.version
  updated_at ← or_fail db_err row.updated_at
  _ ← or_fail db_err row.record_id
  ok (
    record { row = row; table = table; op = op; version = version; updated_at = updated_at },
    cache',
  )
