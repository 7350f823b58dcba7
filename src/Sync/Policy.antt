-- ===== src/Sync/Policy.antt =====
-- The conflict policy of `TruthTable::resolve` and `SyncTruthEntry::winning_entry`, and what
-- `Head::new` checks, in crates/database/src/sync/truth_table.rs.
use mathlib.Core.Option
use Prim.Native.Nat.{Ordering}
use boomerang.Base.{
  inl, inr, ◌≡◌, ◌≢◌, refl, sym, ◌∙◌, ap, true, Option, none, some, Bool-cases, arith,
}
use boomerang.Base.Order.{Str, lt, eq, gt, cmp_pair, cmp_pair-IsOrder, IsOrder}
use boomerang.Base.Int.{ℤ, cmp_int, cmp_int-IsOrder}
use boomerang.Base.Outcome.{ok, >>=-eq-ok, or_fail, or_fail-eq-ok, ok-injective}
use boomerang.Interner.Symbol.{Symbol}
use boomerang.Sync.Log.{
  LogOpType, insert, update, delete, eq_op, InvalidOpType, try_from, LogRow, SyncTruthEntry,
  winning_entry, TruthTableError,
}
use boomerang.Sync.Log.{RowAction, apply_from_postgres, apply_from_sqlite, conflict}
use boomerang.Sync.Head
use boomerang.Sync.Head.{SymbolTable, TableCache, Head, record_id, into_entry, symbol_for}
use boomerang.Sync.Table.{resolve, resolve_action}
use boomerang.Sync.Logged.{Logged, head_of, entry_of, IsCache}
use boomerang.Sync.Memo.{Answers, unknown, known, symbol_for-Answers}

-- The stamp by which two entries for one record are compared.
abbrev pub stamp : Logged → ℤ × ℤ
stamp l = (l.version, l.updated_at)

abbrev pub cmp_stamp : ℤ × ℤ → ℤ × ℤ → Ordering
cmp_stamp = cmp_pair cmp_int cmp_int

pub cmp_stamp-IsOrder : IsOrder cmp_stamp
cmp_stamp-IsOrder = cmp_pair-IsOrder cmp_int-IsOrder cmp_int-IsOrder

pub eq_op_iff : (a b : LogOpType) → (eq_op a b ≡ true → a ≡ b) × (a ≡ b → eq_op a b ≡ true)
unfolding eq_op
eq_op_iff insert insert = (λ h. refl, λ h. refl)
eq_op_iff insert update = (λ h. cc, λ h. cc)
eq_op_iff insert delete = (λ h. cc, λ h. cc)
eq_op_iff update insert = (λ h. cc, λ h. cc)
eq_op_iff update update = (λ h. refl, λ h. refl)
eq_op_iff update delete = (λ h. cc, λ h. cc)
eq_op_iff delete insert = (λ h. cc, λ h. cc)
eq_op_iff delete update = (λ h. cc, λ h. cc)
eq_op_iff delete delete = (λ h. refl, λ h. refl)

-- What an outcome of `resolve` on two entries says of them.
pub data Resolved (schema : SymbolTable) (p s : Logged) : Option SyncTruthEntry → Type 0 where
  in_sync : stamp p ≡ stamp s → p.op ≡ s.op → Resolved schema p s none
  from_postgres :
      (e : SyncTruthEntry)
      → cmp_stamp (stamp p) (stamp s) ≡ gt
      → winning_entry e ≡ some (entry_of schema p)
      → Resolved schema p s (some e)
  from_sqlite :
      (e : SyncTruthEntry)
      → cmp_stamp (stamp s) (stamp p) ≡ gt
      → winning_entry e ≡ some (entry_of schema s)
      → Resolved schema p s (some e)
  undecided :
      (e : SyncTruthEntry)
      → stamp p ≡ stamp s
      → p.op ≢ s.op
      → winning_entry e ≡ none
      → e.postgres ≡ some (entry_of schema p)
      → e.sqlite ≡ some (entry_of schema s)
      → Resolved schema p s (some e)

module _ (schema : SymbolTable) where
  abbrev truth : Logged → Logged → RowAction → SyncTruthEntry
  truth p s a = record {
    postgres = some (entry_of schema p);
    sqlite = some (entry_of schema s);
    action = a;
  }

module _ {E : Type 0} (schema : SymbolTable) where
  -- `resolve` on two entries for one record returns one of four outcomes: nothing, where version,
  -- time and operation are equal; the Postgres entry as the winner, where its stamp (version, then
  -- time) is the greater; the SQLite entry as the winner, where its is; and no winner but both
  -- entries, where the stamps are equal and the operations are not.
  pub resolve-Resolved :
      (p s : Logged)
      → (o : Option SyncTruthEntry) × (resolve {E = E}
            (some (head_of schema p))
            (some (head_of schema s))
          ≡ ok o)
        × Resolved schema p s o
  unfolding resolve into_entry record_id winning_entry cmp_pair
  resolve-Resolved p s = go (cmp_stamp (stamp p) (stamp s)) refl
    where
      go :
          (c : Ordering)
          → cmp_stamp (stamp p) (stamp s) ≡ c
          → (o : Option SyncTruthEntry) × (resolve {E = E}
                (some (head_of schema p))
                (some (head_of schema s))
              ≡ ok o)
            × Resolved schema p s o
      go gt e = (some (truth schema p s apply_from_postgres), ground arith, from_postgres _ e refl)
      go lt e = (
        some (truth schema p s apply_from_sqlite),
        ground arith,
        from_sqlite _ (rw (cmp_stamp-IsOrder.cmp-flip (stamp p) (stamp s), e)) refl,
      )
      go eq e = elim (Bool-cases (eq_op p.op s.op)) [
        | inl same ↦
            (none, ground arith, in_sync (cmp_stamp-IsOrder.cmp_eq _ _ e) ((eq_op_iff _ _).0 same))
        | inr other ↦ (
          some (truth schema p s conflict),
          ground arith,
          undecided _ (cmp_stamp-IsOrder.cmp_eq _ _ e) (λ same. cc (other, (eq_op_iff _ _).1 same))
              refl refl refl,
        )
      ]

-- The action with the two sides exchanged.
abbrev pub swap : RowAction → RowAction
swap apply_from_postgres = apply_from_sqlite
swap apply_from_sqlite = apply_from_postgres
swap conflict = conflict

eq_op_comm : (a b : LogOpType) → eq_op a b ≡ eq_op b a
unfolding eq_op
eq_op_comm insert insert = refl
eq_op_comm insert update = refl
eq_op_comm insert delete = refl
eq_op_comm update insert = refl
eq_op_comm update update = refl
eq_op_comm update delete = refl
eq_op_comm delete insert = refl
eq_op_comm delete update = refl
eq_op_comm delete delete = refl

-- The policy prefers neither side: with the two heads exchanged, `resolve` takes the same action
-- with the sides exchanged, or again none.
pub resolve_action-swap :
    {E : Type 0} (p s : Head E) → resolve_action s p ≡ Option.map swap (resolve_action p s)
unfolding resolve_action
resolve_action-swap p s = ground (
  arith,
  cmp_stamp-IsOrder.cmp-flip (p.version, p.updated_at) (s.version, s.updated_at),
  eq_op_comm p.op s.op,
)

-- What a head that `Head::new` returned tells of its row.
pub record Decoded {E : Type 0} (schema : SymbolTable) (row : LogRow E) (h : Head E) : Type 0 where
  pub name : Str
  pub id : Str
  pub op_text : Str
  pub row_eq : h.row ≡ row
  pub table_eq : row.table ≡ inr name
  pub symbol_eq : schema.get_symbol name ≡ some h.table
  pub op_eq : row.op ≡ inr op_text
  pub op_decodes : try_from op_text ≡ inr h.op
  pub version_eq : row.version ≡ inr h.version
  pub updated_at_eq : row.updated_at ≡ inr h.updated_at
  pub readable : record_id h ≡ ok id

module _ {E : Type 0} (schema : SymbolTable) where
  Answers-known :
      (c : TableCache) (name : Str) (r : Symbol × TableCache)
      → symbol_for {E = E} c schema name ≡ ok r
      → Answers {E = E} schema name (symbol_for c schema name)
      → (schema.get_symbol name ≡ some r.0) × IsCache schema r.1
  Answers-known c name r e (unknown u f) = cc
  Answers-known c name r e (known s d g f m) = let same : r ≡ (s, d) = cc in (rw same g, rw same m)

  -- The last step of `Head::new`.
  finish :
      (row : LogRow E) (h : Head E) (c' : TableCache) (name op_text id : Str)
      (r : Symbol × TableCache) (op : LogOpType) (version updated_at : ℤ)
      → row.table ≡ inr name
      → (schema.get_symbol name ≡ some r.0) × IsCache schema r.1
      → row.op ≡ inr op_text
      → try_from op_text ≡ inr op
      → row.version ≡ inr version
      → row.updated_at ≡ inr updated_at
      → row.record_id ≡ inr id
      → (let h' : Head E = record {
        row = row;
        table = r.0;
        op = op;
        version = version;
        updated_at = updated_at;
      } in
          ◌≡◌ {A = Head E × TableCache} (h', r.1) (h, c'))
      → Decoded schema row h × IsCache schema c'
  unfolding record_id
  finish row h c' name op_text id r op version updated_at e1 e2 e3 e4 e5 e6 e7 e = (
    record {
      name = name;
      id = id;
      op_text = op_text;
      row_eq = sym (ap (λ (x : Head E × TableCache). x.0.row) e);
      table_eq = e1;
      symbol_eq = e2.0 ∙ ap (λ (x : Head E × TableCache). some x.0.table) e;
      op_eq = e3;
      op_decodes = e4 ∙ ap (λ (x : Head E × TableCache). inr x.0.op) e;
      version_eq = e5 ∙ ap (λ (x : Head E × TableCache). inr x.0.version) e;
      updated_at_eq = e6 ∙ ap (λ (x : Head E × TableCache). inr x.0.updated_at) e;
      readable = rw (sym (ap (λ (x : Head E × TableCache). x.0.row) e), e7);
    },
    rw (sym (ap (λ (x : Head E × TableCache). x.1) e)) e2.1,
  )

module _ {E : Type 0} (column_decode : Str → InvalidOpType → E) (schema : SymbolTable) where
  -- A row that `Head::new` accepts has a table that the schema knows, an op type of the three, and a
  -- record id that can be read, so `expect` in `Head::record_id` does not panic; the head holds
  -- what the row says, and the memo is left holding what the schema says.
  pub new-Decoded :
      (row : LogRow E) (c : TableCache) (db_err : E → TruthTableError E) (h : Head E)
      (c' : TableCache)
      → IsCache schema c
      → Head.new column_decode row schema c db_err ≡ ok (h, c')
      → Decoded schema row h × IsCache schema c'
  unfolding Head.new record_id
  new-Decoded row c db_err h c' m e =
      let (name, e1, f1) = >>=-eq-ok (or_fail db_err row.table) _ e in
      let (sc, e2, f2) = >>=-eq-ok (symbol_for c schema name) _ f1 in
      let (op_text, e3, f3) = >>=-eq-ok (or_fail db_err row.op) _ f2 in
      let (op, e4, f4) =
        >>=-eq-ok (or_fail (λ x. db_err (column_decode Head.op_type_text x)) (try_from op_text)) _
          f3 in
      let (version, e5, f5) = >>=-eq-ok (or_fail db_err row.version) _ f4 in
      let (updated_at, e6, f6) = >>=-eq-ok (or_fail db_err row.updated_at) _ f5 in
      let (id, e7, f7) = >>=-eq-ok (or_fail db_err row.record_id) _ f6 in
      finish schema row h c' name op_text id sc op version updated_at
        (or_fail-eq-ok db_err row.table e1)
        (Answers-known schema c name sc e2 (symbol_for-Answers schema c name m))
        (or_fail-eq-ok db_err row.op e3) (or_fail-eq-ok _ (try_from op_text) e4)
        (or_fail-eq-ok db_err row.version e5) (or_fail-eq-ok db_err row.updated_at e6)
        (or_fail-eq-ok db_err row.record_id e7) (ok-injective f7)
