-- ===== src/Builder/Sorted.antt =====
-- The order of the tables that `build` of crates/database/src/core/schema_builder.rs returns.
use mathlib.Core.Path.{subst}
use boomerang.Base.{
  ℕ, zero, suc, ◌<◌, ◌≡◌, ◌≢◌, sym, ap, ◌∙◌, inl, inr, Option, some, List, [], ◌∷◌, length,
  get_elem?, get_elem?-lt, All, arith, Option-cases,
}
use boomerang.Base.Outcome.{ok}
use boomerang.Schema.Types.{ForeignKey, TableMeta, DatabaseSchema}
use boomerang.Builder.State.{DatabaseSchemaBuilder}
use boomerang.Builder.Build.{ResolvedFk, build_tables}
use boomerang.Builder.Edges.{
  row_of, row_of_lem, references, references_get, references_from, IsInside,
}
use boomerang.Builder.Kahn.Count.{count, get_elem?-count}
use boomerang.Builder.Kahn.Drain.{bit}
use boomerang.Builder.Kahn.Order.{IsOnce, IsOrdered, IsRank, sorted_indices-IsOrdered}
use boomerang.Builder.Result.{IsBuilder, IsSchemaOf}
use boomerang.Builder.Total.{IsReference, Resolution, resolved_graph, built}

-- The references have no cycle, where `rank` is lower on each table that is referenced.
unfoldable pub IsAcyclic : {I : Type 0} → DatabaseSchemaBuilder I → (ℕ → ℕ) → Type 0
IsAcyclic b rank =
    (r : ResolvedFk) → IsReference b r → rank r.ref_table_old_idx < rank r.source_table_idx

-- A table of the schema is one of the builder.
unfoldable pub IsTableOf :
    {I : Type 0} → DatabaseSchemaBuilder I → DatabaseSchema I → (old new : ℕ) → Type 0
IsTableOf b schema old new =
    (t : TableMeta) × (t' : TableMeta) × (get_elem? b.tables old ≡ some t)
    × (get_elem? schema.tables new ≡ some t')
    × (t'.name ≡ t.name)
    × (t'.columns_start ≡ t.columns_start)
    × (t'.columns_len ≡ t.columns_len)

-- In the order and in the schema, each table stands behind those that its foreign keys are on.
unfoldable pub IsSorted :
    {I : Type 0} → DatabaseSchemaBuilder I → List ℕ → DatabaseSchema I → Type 0
unfolding IsTableOf
IsSorted b sorted schema =
    (r : ResolvedFk)
    → IsReference b r
    → (before new : ℕ) × (before < new)
      × (get_elem? sorted before ≡ some r.ref_table_old_idx)
      × (get_elem? sorted new ≡ some r.source_table_idx)
      × IsTableOf b schema r.ref_table_old_idx before
      × IsTableOf b schema r.source_table_idx new

All_get :
    {A : Type 0} (P : A → Type 0) (xs : List A) (i : ℕ) (x : A)
    → All P xs
    → get_elem? xs i ≡ some x
    → P x
All_get P [] i x all at = cc
All_get P (y ∷ ys) zero x all at = let same : y ≡ x = cc in subst P same all.0
All_get P (y ∷ ys) (suc i) x all at = All_get P ys i x all.1 at

module _ {I : Type 0} (b : DatabaseSchemaBuilder I) (valid : IsBuilder b) (hash : List ℕ) where
  graph-IsRank : (x : Resolution b hash) (rank : ℕ → ℕ) → IsAcyclic b rank → IsRank x.graph rank
  unfolding IsAcyclic IsRank
  graph-IsRank x rank acyclic w u row at c =
      let counted : count u row ≡ references w u x.rs =
        sym (ap (count u) (row_of_lem x.graph w row at)) ∙ x.rows w u in
      let (j, r, p, to, from, ne) = references_from w u x.rs (ground (arith, counted, c)) in
      let other : r.ref_table_old_idx ≢ r.source_table_idx = λ e. ne (sym to ∙ e ∙ from) in
      ground (arith, acyclic r (x.from j r p other), ap rank to, ap rank from)

  -- A table is listed, and is then one of the schema.
  listed_table :
      (sorted : List ℕ) (renewed : List (Option ForeignKey)) (schema : DatabaseSchema I) (old : ℕ)
      → IsOnce (length b.tables) sorted
      → IsSchemaOf b hash sorted renewed schema
      → old < length b.tables
      → (new : ℕ) × (get_elem? sorted new ≡ some old) × IsTableOf b schema old new
  unfolding IsOnce IsTableOf bit
  listed_table sorted renewed schema old once done low =
      let (new, at) = get_elem?-count old sorted (ground (arith, once old, low)) in
      let (t, there) = get_elem?-lt b.tables old low in
      let (t', there', moved) = done.tables new old t at there in
      (new, at, (t, t', there, there', moved.name, moved.columns_start, moved.columns_len))

  graph-IsSorted :
      (x : Resolution b hash) (sorted : List ℕ) (renewed : List (Option ForeignKey))
      (schema : DatabaseSchema I)
      → IsOnce (length b.tables) sorted
      → IsOrdered x.graph sorted
      → IsSchemaOf b hash sorted renewed schema
      → IsSorted b sorted schema
  unfolding IsOrdered IsSorted IsReference IsInside IsTableOf row_of count
  graph-IsSorted x sorted renewed schema once ordered done r (i, u, p, f, ne) =
      let (j, q) = x.listed r (i, u, p, f, ne) in
      let w = r.ref_table_old_idx in
      let v = r.source_table_idx in
      let (w_low, v_low) = All_get (IsInside (length b.tables)) x.rs j r x.inside q in
      let (new, at, here) = listed_table sorted renewed schema v once done v_low in
      let some_there : 0 < count v (row_of x.graph w) =
        ground (arith, x.rows w v, references_get x.rs j r q ne) in
      elim (Option-cases (get_elem? x.graph w)) [
        | inl gone ↦ absurd (ground (arith, some_there, gone))
        | inr (row, there) ↦
            let e : row_of x.graph w ≡ row = row_of_lem x.graph w row there in
            let (before, low, at') =
              ordered new v w row at there (ground (arith, some_there, ap (count v) e)) in
            let (t, there_w) = get_elem?-lt b.tables w w_low in
            let (t', there', moved) = done.tables before w t at' there_w in
            (
              before,
              new,
              low,
              at',
              at,
              (t, t', there_w, there', moved.name, moved.columns_start, moved.columns_len),
              here,
            )
      ]

  -- Where the references between tables have no cycle, but for a table's to itself, `build` does not
  -- panic, and its result is the schema of the builder by an order of its tables that lists each once.
  -- In the order, and in the schema's list of tables, each table stands behind those that its resolved
  -- foreign keys are on.
  pub build_tables-IsSorted :
      (rank : ℕ → ℕ)
      → IsAcyclic b rank
      → (sorted : List ℕ) × (renewed : List (Option ForeignKey)) × (schema : DatabaseSchema I)
        × (build_tables b hash ≡ ok schema)
        × IsOnce (length b.tables) sorted
        × IsSorted b sorted schema
        × IsSchemaOf b hash sorted renewed schema
  build_tables-IsSorted rank acyclic =
      let x = resolved_graph b valid hash in
      let (sorted, e, once, ordered) =
        sorted_indices-IsOrdered x.graph x.in_degree x.valid rank (graph-IsRank x rank acyclic) in
      let once' = subst (λ n. IsOnce n sorted) x.size once in
      let (renewed, schema, e', done) = built b valid hash x sorted e once' in
      (
        sorted,
        renewed,
        schema,
        e',
        once',
        graph-IsSorted x sorted renewed schema once' ordered done,
        done,
      )
