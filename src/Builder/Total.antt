-- ===== src/Builder/Total.antt =====
-- What `build` of crates/database/src/core/schema_builder.rs promises.
use mathlib.Core.Path.{subst}
use boomerang.Base.{
  ℕ, zero, suc, ◌+◌, ◌≡◌, ◌≢◌, refl, sym, ap, ◌∙◌, inl, inr, Option, some, List, [], ◌∷◌, length,
  get_elem?, All, arith,
}
use boomerang.Base.Int.{ℤ, pos}
use boomerang.Base.Outcome.{ok}
use boomerang.Base.Search.{eq_cases}
use boomerang.Schema.Types.{ForeignKey, DatabaseSchema}
use boomerang.Builder.State.{UnresolvedFk, DatabaseSchemaBuilder}
use boomerang.Builder.Build.{
  ResolvedFk, index_by_name, resolve_fk, resolve_fks, add_edges, filled, assemble, build_tables,
}
use boomerang.Builder.Compact.{resolved_at}
use boomerang.Builder.ResolveAll.{resolve_fks_lem, IsFrom}
use boomerang.Builder.Edges.{
  row_of, references, IsInside, add_edges-IsGraph, filled-IsGraph, length-filled,
}
use boomerang.Builder.Kahn.{Graph, sorted_indices}
use boomerang.Builder.Kahn.Count.{count}
use boomerang.Builder.Kahn.Whole.{IsGraph}
use boomerang.Builder.Kahn.Order.{IsOnce, sorted_indices-IsOnce}
use boomerang.Builder.Result.{IsBuilder, IsSchemaOf}
use boomerang.Builder.Assemble.{assemble-IsSchemaOf}

-- The tables that the foreign keys name: `r` is what one of them is resolved to, on another table.
unfoldable pub IsReference : {I : Type 0} → DatabaseSchemaBuilder I → ResolvedFk → Type 0
IsReference b r =
    (i : ℕ) × (u : UnresolvedFk) × (get_elem? b.unresolved_fks i ≡ some u)
    × (resolve_fk b.tables b.column_names (index_by_name b.tables) u ≡ some (some r))
    × (r.ref_table_old_idx ≢ r.source_table_idx)

-- The graph of the resolved foreign keys.
pub record Resolution {I : Type 0} (b : DatabaseSchemaBuilder I) (hash : List ℕ) : Type 0 where
  pub rs : List ResolvedFk
  pub graph : Graph
  pub in_degree : List ℤ
  pub resolves :
      resolve_fks b.tables b.column_names (index_by_name b.tables) b.unresolved_fks ≡ some rs
  pub adds :
      add_edges rs (filled [] (length b.tables), filled (pos 0) (length b.tables))
      ≡ some (graph, in_degree)
  pub valid : IsGraph graph in_degree
  pub size : length graph ≡ length b.tables
  pub rows : (w v : ℕ) → count v (row_of graph w) ≡ references w v rs
  pub assembles :
      (sorted : List ℕ)
      → IsOnce (length b.tables) sorted
      → (renewed : List (Option ForeignKey)) × (schema : DatabaseSchema I) × (assemble b rs sorted
            hash
          ≡ some schema)
        × IsSchemaOf b hash sorted renewed schema
  pub listed : (r : ResolvedFk) → IsReference b r → (j : ℕ) × (get_elem? rs j ≡ some r)
  pub from :
      (j : ℕ) (r : ResolvedFk)
      → get_elem? rs j ≡ some r
      → r.ref_table_old_idx ≢ r.source_table_idx
      → IsReference b r
  pub inside : All (IsInside (length b.tables)) rs

resolved_at_get :
    (p : ℕ) (rs : List ResolvedFk) (r : ResolvedFk)
    → resolved_at p rs ≡ some r
    → (j : ℕ) × (get_elem? rs j ≡ some r)
unfolding resolved_at
resolved_at_get p [] r e = cc
resolved_at_get p (x ∷ rs) r e = elim (eq_cases x.pool_index p) [
  | inl here ↦ (0, ground (arith, e, here))
  | inr ne ↦ let (j, at) = resolved_at_get p rs r (ground (arith, e, ne)) in (suc j, at)
]

count-filled : (n w v : ℕ) → count v (row_of (filled [] n) w) ≡ 0
unfolding row_of count
count-filled zero w v = refl
count-filled (suc n) zero v = refl
count-filled (suc n) (suc w) v = count-filled n w v

module _ {I : Type 0} (b : DatabaseSchemaBuilder I) (valid : IsBuilder b) (hash : List ℕ) where
  pub resolved_graph : Resolution b hash
  unfolding IsReference IsFrom
  resolved_graph =
      let n = length b.tables in
      let (rs, e, in_order, inside, found, from) =
        resolve_fks_lem b.tables b.column_names valid.tables b.unresolved_fks
          (length b.foreign_key_pool) 0 valid.unresolved in
      let empty_size : length (filled {A = List ℕ} [] n) ≡ n = length-filled {A = List ℕ} [] n in
      let (graph, in_degree, e', g, size, rows) =
        add_edges-IsGraph rs (filled [] n) (filled (pos 0) n) (filled-IsGraph n)
          (subst (λ m. All (IsInside m) rs) (sym empty_size) inside) in
      record {
        rs = rs;
        graph = graph;
        in_degree = in_degree;
        resolves = e;
        adds = e';
        valid = g;
        size = size ∙ empty_size;
        rows = λ w v. rows w v ∙ ap (λ k. k + references w v rs) (count-filled n w v) ∙ omega arith;
        assembles = λ sorted once. assemble-IsSchemaOf b valid hash sorted once rs in_order found;
        listed = λ r h.
            let (i, u, at, f, ne) = h in
            let same : resolved_at u.pool_index rs ≡ some r = cc (found i u at, f) in
            resolved_at_get u.pool_index rs r same;
        from = λ j r at ne. let (i, u, p, q) = from j r at in (i, u, p, q, ne);
        inside = inside;
      }

  -- From an order of the tables to the schema.
  pub built :
      (x : Resolution b hash) (sorted : List ℕ)
      → sorted_indices x.graph x.in_degree ≡ ok sorted
      → IsOnce (length b.tables) sorted
      → (renewed : List (Option ForeignKey)) × (schema : DatabaseSchema I) × (build_tables b hash
          ≡ ok schema)
        × IsSchemaOf b hash sorted renewed schema
  unfolding build_tables
  built x sorted e once =
      let (renewed, schema, e', done) = x.assembles sorted once in
      (renewed, schema, rw (build_tables, x.resolves, x.adds, e, e') refl, done)

  -- `build` does not panic, and its result is the schema of the builder by an order of its tables, each
  -- listed once.
  pub build_tables-IsSchemaOf :
      (sorted : List ℕ) × (renewed : List (Option ForeignKey)) × (schema : DatabaseSchema I)
      × (build_tables b hash ≡ ok schema)
      × IsOnce (length b.tables) sorted
      × IsSchemaOf b hash sorted renewed schema
  build_tables-IsSchemaOf =
      let x = resolved_graph in
      let (sorted, e, once) = sorted_indices-IsOnce x.graph x.in_degree x.valid in
      let once' = subst (λ n. IsOnce n sorted) x.size once in
      let (renewed, schema, e', done) = built x sorted e once' in
      (sorted, renewed, schema, e', once', done)
