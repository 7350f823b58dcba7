-- ===== src/Sync/Table.antt =====
-- `TruthTable` of crates/database/src/sync/truth_table.rs. A stream is the list of what `next` will
-- yield. `debug` says whether debug assertions are compiled in, and `race`, for each round, which
-- fetch fails first where both do: `try_join!` returns that error.
use Prim.Native.Nat.{Ordering}
use boomerang.Base.{
  ℕ, zero, suc, ◌⊎◌, inl, inr, Bool, Option, none, some, List, [], ◌∷◌, if◌then◌else◌,
}
use boomerang.Base.Order.{Str, lt, eq, gt, cmp_pair}
use boomerang.Base.Int.{cmp_int}
use boomerang.Base.Outcome.{Run, ok, err, panic, stuck, ◌>>=◌, ◌>>◌}
use boomerang.Sync.Log.{InvalidOpType, eq_op, LogRow, SyncTruthEntry, RowAction, TruthTableError}
use boomerang.Sync.Log.{apply_from_postgres, apply_from_sqlite, conflict}
use boomerang.Sync.Head
use boomerang.Sync.Head.{SymbolTable, TableCache, empty_cache, Head, into_entry, cmp_heads}

abbrev pub Stream : Type 0 → Type 0
Stream E = List (E ⊎ LogRow E)

pub record TruthTable (E : Type 0) : Type 0 where
  pub pg_stream : Stream E
  pub sq_stream : Stream E
  pub pg_cache : TableCache
  pub sq_cache : TableCache
  pub pg_head : Option (Head E)
  pub sq_head : Option (Head E)

-- What a fetch leaves: the next head, the rest of the stream, and the memo.
pub record Pulled (E : Type 0) : Type 0 where
  pub head : Option (Head E)
  pub stream : Stream E
  pub cache : TableCache

unfoldable pub try_join : {F A B : Type 0} → Bool → Run F A → Run F B → Run F (A × B)
try_join sq_first (ok a) (ok b) = ok (a, b)
try_join sq_first (ok a) (err f) = err f
try_join sq_first (err e) (ok b) = err e
try_join sq_first (err e) (err f) = if sq_first then err f else err e
try_join sq_first stuck _ = stuck
try_join sq_first _ stuck = stuck
try_join sq_first _ _ = panic

unfoldable pub resolve_action : {E : Type 0} → Head E → Head E → Option RowAction
resolve_action p s =
    elim (cmp_pair cmp_int cmp_int (p.version, p.updated_at) (s.version, s.updated_at)) [
      | gt ↦ some apply_from_postgres
      | lt ↦ some apply_from_sqlite
      | eq ↦ if eq_op p.op s.op then none else some conflict
    ]

-- `None` of the early return is the inner `none`; `unreachable!` is a panic.
unfoldable pub resolve :
    {E : Type 0}
    → Option (Head E)
    → Option (Head E)
    → Run (TruthTableError E) (Option SyncTruthEntry)
unfolding resolve_action
resolve none none = panic
resolve (some p) none = do
  e ← into_entry p
  ok (some (record { postgres = some e; sqlite = none; action = apply_from_postgres }))
resolve none (some s) = do
  e ← into_entry s
  ok (some (record { postgres = none; sqlite = some e; action = apply_from_sqlite }))
resolve (some p) (some s) = elim (resolve_action p s) [
  | none ↦ ok none
  | some action ↦ do
    e ← into_entry p
    f ← into_entry s
    ok (some (record { postgres = some e; sqlite = some f; action = action }))
]

module _ {E : Type 0} (column_decode : Str → InvalidOpType → E) (schema : SymbolTable) where
  unfoldable pub pull :
      Stream E → TableCache → (E → TruthTableError E) → Run (TruthTableError E) (Pulled E)
  pull [] cache db_err = ok (record { head = none; stream = []; cache = cache })
  pull (inl e ∷ rest) cache db_err = err (db_err e)
  pull (inr row ∷ rest) cache db_err = do
    (h, cache') ← Head.new column_decode row schema cache db_err
    ok (record { head = some h; stream = rest; cache = cache' })

module _ {E : Type 0} (debug : Bool) (schema : SymbolTable) where
  -- The `debug_assert!`.
  unfoldable pub assert_ascending :
      Option (Head E) → Option (Head E) → Run (TruthTableError E) (Unit {0})
  assert_ascending (some old) (some new) =
      if debug then (do o ← cmp_heads schema new old; elim o [ gt ↦ ok tt | _ ↦ panic ]) else ok tt
  assert_ascending _ _ = ok tt

  -- Returns the previous lookahead, and the new one.
  unfoldable pub advance :
      Option (Head E)
      → Option (Head E)
      → Run (TruthTableError E) (Option (Head E) × Option (Head E))
  unfolding assert_ascending
  advance cur next = do assert_ascending cur next; ok (cur, next)

  -- `next.and_then(|n| advance(head, n, schema))`, with the stream and the memo that a fetch left.
  unfoldable pub settle :
      Option (Pulled E) → Pulled E → Run (TruthTableError E) (Option (Head E) × Pulled E)
  settle none cur = ok (none, cur)
  settle (some n) cur = do
    (taken, head) ← advance cur.head n.head
    ok (taken, record n { head = head })

module _ {E : Type 0} where
  abbrev pub pg_side : TruthTable E → Pulled E
  pg_side t = record { head = t.pg_head; stream = t.pg_stream; cache = t.pg_cache }

  abbrev pub sq_side : TruthTable E → Pulled E
  sq_side t = record { head = t.sq_head; stream = t.sq_stream; cache = t.sq_cache }

  abbrev pub from_sides : Pulled E → Pulled E → TruthTable E
  from_sides p s = record {
    pg_stream = p.stream;
    sq_stream = s.stream;
    pg_cache = p.cache;
    sq_cache = s.cache;
    pg_head = p.head;
    sq_head = s.head;
  }

module _ {E : Type 0} (schema : SymbolTable) where
  -- The `match` at the top of the loop. `none` is its early return.
  unfoldable pub order :
      Option (Head E) → Option (Head E) → Run (TruthTableError E) (Option Ordering)
  order none none = ok none
  order (some p) none = ok (some lt)
  order none (some s) = ok (some gt)
  order (some p) (some s) = do o ← cmp_heads schema p s; ok (some o)

module _ {E : Type 0} (column_decode : Str → InvalidOpType → E) (schema : SymbolTable) where
  -- The two `async` blocks: a side that is behind is not read.
  unfoldable pub fetch_pg : Ordering → TruthTable E → Run (TruthTableError E) (Option (Pulled E))
  fetch_pg gt t = ok none
  fetch_pg _ t = do
    n ← pull column_decode schema t.pg_stream t.pg_cache TruthTableError.postgres
    ok (some n)

  unfoldable pub fetch_sq : Ordering → TruthTable E → Run (TruthTableError E) (Option (Pulled E))
  fetch_sq lt t = ok none
  fetch_sq _ t = do
    n ← pull column_decode schema t.sq_stream t.sq_cache TruthTableError.sqlite
    ok (some n)

module _ {E : Type 0} (column_decode : Str → InvalidOpType → E) (debug : Bool)
    (schema : SymbolTable) where
  -- One round of the loop, from the comparison on.
  unfoldable pub round :
      Bool
      → Ordering
      → TruthTable E
      → Run (TruthTableError E) (Option SyncTruthEntry × TruthTable E)
  unfolding settle fetch_pg fetch_sq
  round sq_first ord t = do
    (next_pg, next_sq) ←
        try_join sq_first (fetch_pg column_decode schema ord t)
          (fetch_sq column_decode schema ord t)
    (pg, p) ← settle debug schema next_pg (pg_side t)
    (sq, s) ← settle debug schema next_sq (sq_side t)
    out ← resolve pg sq
    ok (out, from_sides p s)

  -- The fuel is a number of rounds.
  unfoldable pub next_entry :
      (ℕ → Bool) → ℕ → TruthTable E → Run (TruthTableError E) (Option SyncTruthEntry × TruthTable E)
  next_entry race zero t = stuck
  next_entry race (suc fuel) t = do
    ord ← order schema t.pg_head t.sq_head
    elim ord [
      | none ↦ ok (none, t)
      | some o ↦ do
        (out, t') ← round (race fuel) o t
        elim out [ some e ↦ ok (some e, t') | none ↦ next_entry race fuel t' ]
    ]

  unfoldable pub new : Bool → Stream E → Stream E → Run (TruthTableError E) (TruthTable E)
  new sq_first pg sqlite = do
    (p, s) ←
        try_join sq_first (pull column_decode schema pg empty_cache TruthTableError.postgres)
          (pull column_decode schema sqlite empty_cache TruthTableError.sqlite)
    ok (from_sides p s)

  -- A caller that asks for entries until there are none, `calls` times at most.
  unfoldable pub drain :
      (ℕ → Bool) → ℕ → ℕ → TruthTable E → Run (TruthTableError E) (List SyncTruthEntry)
  drain race fuel zero t = stuck
  drain race fuel (suc calls) t = do
    (out, t') ← next_entry race fuel t
    elim out [ none ↦ ok [] | some e ↦ do rest ← drain race fuel calls t'; ok (e ∷ rest) ]
