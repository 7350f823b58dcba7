-- ===== src/Sync/Tests.antt =====
-- Runs of the merge of crates/database/src/sync/truth_table.rs on small logs, and its theorems at
-- concrete inputs.
use mathlib.Core.Option
use boomerang.Base.{
  ℕ, ◌≡◌, refl, inl, inr, Bool, true, false, Option, none, some, List, [], ◌∷◌, if◌then◌else◌, ◌==◌,
  Bool-cases, arith,
}
use boomerang.Base.Order.{Str, eq_str, eq_str_eq, cmp_str, cmp_pair}
use boomerang.Base.Int.{pos, cmp_int}
use boomerang.Base.Outcome.{ok, ◌>>=◌}
use boomerang.Interner.Symbol.{Symbol, eq_symbol}
use boomerang.Sync.Log.{
  LogOpType, eq_op, insert, update, delete, InvalidOpType, SyncTruthEntry, try_from,
}
use boomerang.Sync.Log.{apply_from_postgres, apply_from_sqlite, conflict}
use boomerang.Sync.Log
use boomerang.Sync.Head
use boomerang.Sync.Head.{SymbolTable, TableCache, empty_cache, Head, symbol_for, cmp_heads}
use boomerang.Sync.Table
use boomerang.Sync.Table.{TruthTable, resolve, resolve_action, drain}
use boomerang.Sync.Logged.{
  Logged, Key, key, cmp_key, row_of, head_of, entry_of, stream_of, IsCache, decide,
}
use boomerang.Sync.Memo.{Answers, symbol_for-Answers}
use boomerang.Sync.Join.{find, value_at, pair_key, IsAscending}
use boomerang.Sync.Rounds.{IsLog}
use boomerang.Sync.Merge.{merge, entries}
use boomerang.Sync.Policy.{
  Resolved, resolve-Resolved, resolve_action-swap, swap, Decoded, new-Decoded,
}

abbrev items : Str
items = b'i' ∷ b't' ∷ []

abbrev items_symbol : Symbol
items_symbol = record { raw = 7 }

get : Str → Option Symbol
get name = if eq_str name items then some items_symbol else none

resolve_symbol : Symbol → Option Str
resolve_symbol s = if s.raw == 7 then some items else none

get_law : (name : Str) (s : Symbol) → get name ≡ some s → resolve_symbol s ≡ some name
unfolding get resolve_symbol
get_law name s h = elim (Bool-cases (eq_str name items)) [
  | inl e ↦ ground (arith, e, eq_str_eq name items e)
  | inr e ↦ ground (arith, e)
]

abbrev schema : SymbolTable
schema = record { get_symbol = get; resolve_symbol = resolve_symbol; resolve-get = get_law }

abbrev decode_error : Str → InvalidOpType → ℕ
decode_error index source = 0

abbrev logged : ℕ → LogOpType → ℕ → ℕ → Logged
logged id op version time = record {
  table = items;
  record_id = id ∷ [];
  op = op;
  version = pos version;
  updated_at = pos time;
}

abbrev pg_log : List Logged
pg_log =
    logged 1 insert 1 10 ∷ logged 2 update 2 20 ∷ logged 4 update 3 5 ∷ logged 6 insert 1 1 ∷ []

abbrev sq_log : List Logged
sq_log =
    logged 2 update 2 20 ∷ logged 3 insert 1 10 ∷ logged 4 delete 3 5 ∷ logged 6 insert 1 9 ∷ []

abbrev only_pg_first : ℕ → Bool
only_pg_first n = false

pg_IsLog : IsLog schema pg_log
unfolding get eq_str cmp_str cmp_pair
pg_IsLog = (
  (refl, (refl, (refl, (refl, tt)))),
  ((refl, (refl, (refl, tt))), ((refl, (refl, tt)), ((refl, tt), (tt, tt)))),
)

sq_IsLog : IsLog schema sq_log
unfolding get eq_str cmp_str cmp_pair
sq_IsLog = (
  (refl, (refl, (refl, (refl, tt)))),
  ((refl, (refl, (refl, tt))), ((refl, (refl, tt)), ((refl, tt), (tt, tt)))),
)

-- Records 1 (Postgres only), 3 (SQLite only), 4 (conflict) and 6 (later in SQLite) are reported, and
-- record 2, on which the logs agree, is not.
merge_runs :
    (do
      t ← Table.new decode_error true schema false (stream_of pg_log) (stream_of sq_log)
      drain decode_error true schema only_pg_first 9 9 t)
    ≡ ok (
        record {
          postgres = some (entry_of schema (logged 1 insert 1 10));
          sqlite = none;
          action = apply_from_postgres;
        }
        ∷ record {
          postgres = none;
          sqlite = some (entry_of schema (logged 3 insert 1 10));
          action = apply_from_sqlite;
        }
        ∷ record {
          postgres = some (entry_of schema (logged 4 update 3 5));
          sqlite = some (entry_of schema (logged 4 delete 3 5));
          action = conflict;
        }
        ∷ record {
          postgres = some (entry_of schema (logged 6 insert 1 1));
          sqlite = some (entry_of schema (logged 6 insert 1 9));
          action = apply_from_sqlite;
        }
        ∷ [])
unfolding get resolve_symbol Table.new drain Table.next_entry Table.round Table.order Table.try_join
    Table.pull Head.new cmp_heads Head.record_id Head.into_entry resolve Table.advance try_from
    eq_op eq_str cmp_str cmp_pair cmp_int eq_symbol
merge_runs = refl

merge_example :
    (t : TruthTable ℕ) × (out : List (Key × SyncTruthEntry)) × (Table.new decode_error true schema
        false
        (stream_of pg_log)
        (stream_of sq_log)
      ≡ ok t)
    × (drain decode_error true schema only_pg_first 9 9 t ≡ ok (entries out))
    × IsAscending cmp_key pair_key out
    × ((k : Key)
        → value_at cmp_key k out
          ≡ decide schema (find cmp_key key k pg_log) (find cmp_key key k sq_log))
merge_example =
    merge decode_error true schema only_pg_first false pg_log sq_log 9 9 pg_IsLog sq_IsLog
      (omega arith) (omega arith)

resolve-Resolved_example :
    (o : Option SyncTruthEntry) × (resolve {E = ℕ}
        (some (head_of schema (logged 4 update 3 5)))
        (some (head_of schema (logged 4 delete 3 5)))
      ≡ ok o)
    × Resolved schema (logged 4 update 3 5) (logged 4 delete 3 5) o
resolve-Resolved_example = resolve-Resolved schema (logged 4 update 3 5) (logged 4 delete 3 5)

resolve_action-swap_example :
    resolve_action {E = ℕ}
      (head_of schema (logged 4 update 3 5))
      (head_of schema (logged 4 update 2 9))
    ≡ Option.map swap (
        resolve_action {E = ℕ}
          (head_of schema (logged 4 update 2 9))
          (head_of schema (logged 4 update 3 5)))
resolve_action-swap_example =
    resolve_action-swap (head_of schema (logged 4 update 2 9))
      (head_of schema (logged 4 update 3 5))

abbrev filled : TableCache
filled = record { name = items; symbol = some items_symbol }

-- A row of another table than the memo's last one.
symbol_for-Answers_example :
    Answers {E = ℕ} schema (b'x' ∷ []) (symbol_for filled schema (b'x' ∷ []))
unfolding get eq_str
symbol_for-Answers_example = symbol_for-Answers schema filled (b'x' ∷ []) refl

accepted :
    Head.new decode_error (row_of (logged 4 update 3 5)) schema filled Log.TruthTableError.postgres
    ≡ ok (head_of schema (logged 4 update 3 5), filled)
unfolding get eq_str Head.new try_from
accepted = refl

new-Decoded_example :
    Decoded {E = ℕ} schema (row_of (logged 4 update 3 5)) (head_of schema (logged 4 update 3 5))
    × IsCache schema filled
unfolding get eq_str
new-Decoded_example =
    new-Decoded decode_error schema (row_of (logged 4 update 3 5)) filled
      Log.TruthTableError.postgres (head_of schema (logged 4 update 3 5)) filled refl accepted
