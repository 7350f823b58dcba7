-- ===== src/Sync/Memo.antt =====
-- `TableCache::symbol_for`, `Head::new`, `cmp_heads` and `pull` of
-- crates/database/src/sync/truth_table.rs on rows that decode.
use boomerang.Base.{
  inl, inr, ◌≡◌, refl, Option, none, some, List, [], ◌∷◌, All, Bool-cases, Option-cases, arith,
}
use boomerang.Base.Order.{Str, eq_str, eq_str_eq, cmp_str-IsOrder, cmp_pair}
use boomerang.Base.Outcome.{Run, ok, err}
use boomerang.Interner.Symbol.{Symbol, eq_symbol, eq_symbol_eq}
use boomerang.Sync.Log.{
  LogOpType, insert, update, delete, InvalidOpType, try_from, TruthTableError, unknown_table,
}
use boomerang.Sync.Head
use boomerang.Sync.Head.{
  SymbolTable, TableCache, Head, symbol_for, look_up, cmp_heads, record_id, name,
}
use boomerang.Sync.Table.{pull}
use boomerang.Sync.Logged.{
  Logged, key, cmp_key, op_text, row_of, stream_of, side_of, symbol_of, IsKnown, head_of, IsMemo,
  IsCache,
}

-- The two ways a look-up of `table` ends: an error where the schema has no such symbol, and its
-- symbol, with a memo that holds what the schema says, where it has one.
pub data Answers {E : Type 0} (schema : SymbolTable) (table : Str)
    (r : Run (TruthTableError E) (Symbol × TableCache)) : Type 0 where
  unknown : schema.get_symbol table ≡ none → r ≡ err (unknown_table table) → Answers schema table r
  known :
      (s : Symbol) (c : TableCache)
      → schema.get_symbol table ≡ some s
      → r ≡ ok (s, c)
      → IsCache schema c
      → Answers schema table r

module _ {E : Type 0} (schema : SymbolTable) where
  look_up-Answers : (table : Str) → Answers {E = E} schema table (look_up schema table)
  unfolding look_up
  look_up-Answers table = elim (Option-cases (schema.get_symbol table)) [
    | inl e ↦ unknown e (rw (e, look_up))
    | inr (s, e) ↦ known s (record { name = table; symbol = some s }) e (rw (e, look_up)) e
  ]

  by_memo :
      (n : Str) (o : Option Symbol) (table : Str)
      → IsMemo schema n o
      → Answers {E = E} schema table (symbol_for (record { name = n; symbol = o }) schema table)
  unfolding symbol_for
  by_memo n none table h = look_up-Answers table
  by_memo n (some s) table h = elim (Bool-cases (eq_str n table)) [
    | inl e ↦
        known s (record { name = n; symbol = some s }) (rw (eq_str_eq n table e) at h) (rw e) h
    | inr e ↦ rw e (look_up-Answers table)
  ]

  -- The memo changes no answer: with a memo that holds what the schema says, `symbol_for` gives the
  -- schema's symbol and leaves such a memo, and where the schema has no symbol of that name it
  -- fails with `UnknownTable` of the name.
  pub symbol_for-Answers :
      (c : TableCache) (table : Str)
      → IsCache schema c
      → Answers {E = E} schema table (symbol_for c schema table)
  symbol_for-Answers c table h = by_memo c.name c.symbol table h

try_from-op_text : (o : LogOpType) → try_from (op_text o) ≡ inr o
unfolding try_from eq_str
try_from-op_text insert = refl
try_from-op_text update = refl
try_from-op_text delete = refl

module _ {E : Type 0} (column_decode : Str → InvalidOpType → E) (schema : SymbolTable) where
  -- A row that decodes, of a known table, gives its head.
  new-head_of :
      (l : Logged) (c : TableCache) (db_err : E → TruthTableError E)
      → IsKnown schema l
      → IsCache schema c
      → (c' : TableCache) × (Head.new column_decode (row_of l) schema c db_err
          ≡ ok (head_of schema l, c'))
        × IsCache schema c'
  unfolding Head.new
  new-head_of l c db_err k h = go (symbol_for-Answers {E = E} schema c l.table h)
    where
      go :
          Answers schema l.table (symbol_for {E = E} c schema l.table)
          → (c' : TableCache) × (Head.new column_decode (row_of l) schema c db_err
              ≡ ok (head_of schema l, c'))
            × IsCache schema c'
      go (unknown e r) = cc (e, k)
      go (known s c' e r h') = (c', ground (arith, r, e, try_from-op_text l.op, k), h')

  -- A fetch from a stream of such rows reads the next one.
  pub pull-side_of :
      (ls : List Logged) (c : TableCache) (db_err : E → TruthTableError E)
      → All (IsKnown schema) ls
      → IsCache schema c
      → (c' : TableCache) × (pull column_decode schema (stream_of ls) c db_err
          ≡ ok (side_of schema ls c'))
        × IsCache schema c'
  unfolding pull
  pull-side_of [] c db_err k h = (c, refl, h)
  pull-side_of (l ∷ ls) c db_err k h =
      let (c', e, h') = new-head_of l c db_err k.0 h in (c', rw e, h')

module _ {E : Type 0} (schema : SymbolTable) where
  -- Two heads of known tables compare as their keys.
  pub cmp_heads-key :
      (a b : Logged)
      → IsKnown schema a
      → IsKnown schema b
      → cmp_heads {E = E} schema (head_of schema a) (head_of schema b)
        ≡ ok (cmp_key (key a) (key b))
  unfolding cmp_heads record_id cmp_pair eq_symbol
  cmp_heads-key a b ka kb = ground (
    arith,
    schema.resolve-get a.table (symbol_of schema a.table) ka,
    schema.resolve-get b.table (symbol_of schema b.table) kb,
    cmp_str-IsOrder.cmp-self a.table,
    cmp_str-IsOrder.cmp_eq a.table b.table,
    eq_symbol_eq (symbol_of schema a.table) (symbol_of schema b.table),
  )
