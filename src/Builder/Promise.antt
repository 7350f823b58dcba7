-- ===== src/Builder/Promise.antt =====
-- From the rows of the catalogue to a schema that is searched: `add_row`, `finish_table` and `build` of
-- crates/database/src/core/schema_builder.rs, and `table_by_symbol` of core/schema.rs.
use mathlib.Core.Path.{subst}
use boomerang.Base.{
  All, ◌&&◌, not, get_elem?-lt, ltb, sym, ℕ, ◌^◌, ◌<◌, ◌≤◌, ◌≡◌, ap, ◌∙◌, inl, inr, Option, some,
  List, length, get_elem?, lt-length, arith,
}
use boomerang.Base.Order.{Str}
use boomerang.Base.Outcome.{ok}
use boomerang.Interner.Symbol.{Symbol}
use boomerang.Schema.Types.{ForeignKey, TableMeta, DatabaseSchema}
use boomerang.Schema.Lookup.{slice, leaf_tables, table_by_symbol}
use boomerang.Schema.Lookup.ByName.{table_by_symbol-Found}
use boomerang.Builder.State.{DatabaseSchemaBuilder, Row, with_capacity}
use boomerang.Builder.Rows.{add_rows, finish_table}
use boomerang.Builder.Build.{no_start, build}
use boomerang.Builder.Grow.{finish_table-IsBuilder, finish_table_lem}
use boomerang.Builder.Cover.{with_capacity-IsBuilding}
use boomerang.Builder.Grown.{add_rows-IsBuilding}
use boomerang.Builder.Result.{IsSchemaOf, IsEach}
use boomerang.Builder.Places.{IsOnce-length, IsOnce-lt}
use boomerang.Builder.Leaves.{is_referenced, slices-IsLinked, leaf_tables_lem}
use boomerang.Builder.Total.{build_tables-IsSchemaOf}
use boomerang.Builder.Kahn.Count.{count, get_elem?-count}
use boomerang.Builder.Kahn.Drain.{bit}
use boomerang.Builder.Kahn.Order.{IsOnce}

module _ {I : Type 0} (intern : I → Str → Option (Symbol × I)) (interner : I) (rows : List Row)
    (b : DatabaseSchemaBuilder I) (hash : List ℕ)
    (added : add_rows intern rows (with_capacity interner) ≡ some b)
    (few : length (finish_table b).tables < 2 ^ 16)
    (small : length b.foreign_key_pool < no_start) where
  -- Rows that a new builder takes, of fewer than 2 ^ 16 tables and fewer than 2 ^ 32 - 1 foreign keys:
  -- `build` does not panic. The schema is that of the builder behind `finish_table`, by an order of its
  -- tables that lists each once, and it has a column for each row.
  pub build-IsSchemaOf :
      (sorted : List ℕ) × (renewed : List (Option ForeignKey)) × (schema : DatabaseSchema I)
      × (build b hash ≡ ok schema)
      × IsOnce (length (finish_table b).tables) sorted
      × IsSchemaOf (finish_table b) hash sorted renewed schema
      × (length schema.columns ≡ length rows)
  unfolding build with_capacity IsEach
  build-IsSchemaOf =
      let (valid, size) =
        add_rows-IsBuilding intern rows (with_capacity interner) b
          (with_capacity-IsBuilding interner) added in
      let (sorted, renewed, schema, e, once, done) =
        build_tables-IsSchemaOf (finish_table b) (finish_table-IsBuilder b valid.within few small)
          hash in
      let (ts, same, more, inside) = finish_table_lem b valid.within in
      let columns : (finish_table b).columns ≡ b.columns = ap (λ c. c.columns) same in
      (
        sorted,
        renewed,
        schema,
        e,
        once,
        done,
        done.columns.0 ∙ ap length columns ∙ size ∙ omega arith,
      )

  -- In the same case, `build` returns a schema that finds a table by the name of each of the builder's
  -- tables.
  pub build-table_by_symbol :
      (schema : DatabaseSchema I) × (build b hash ≡ ok schema)
      × ((old : ℕ) (t : TableMeta)
          → get_elem? (finish_table b).tables old ≡ some t
          → (new : ℕ) × (t' : TableMeta) × (table_by_symbol schema t.name ≡ some (some new))
            × (get_elem? schema.tables new ≡ some t')
            × (t'.name ≡ t.name))
  unfolding IsOnce bit
  build-table_by_symbol =
      let (sorted, renewed, schema, e, once, done, size) = build-IsSchemaOf in
      let low : length schema.tables ≤ 2 ^ 16 = ground (arith, few, done.size) in
      (
        schema,
        e,
        λ old t at. elim (table_by_symbol-Found schema t.name done.by_name low) [
          | inl (new, t', p, same, found) ↦ (new, t', found, p, same)
          | inr (other, missing) ↦
              let (new, q) =
                get_elem?-count old sorted
                  (ground (arith, once old, lt-length (finish_table b).tables old at)) in
              let (t', p, moved) = done.tables new old t q at in absurd (other new t' p moved.name)
        ],
      )

  -- In the same case, `build` returns a schema whose `leaf_tables` does not panic, and lists each table
  -- once that no foreign key of another table is on, and no other.
  pub build-leaf_tables :
      (schema : DatabaseSchema I) × (leaves : List ℕ) × (build b hash ≡ ok schema)
      × (leaf_tables schema ≡ some leaves)
      × ((v : ℕ)
          → count v leaves
            ≡ bit (ltb v (length schema.tables) && not (is_referenced schema 0 schema.tables v)))
  build-leaf_tables =
      let (sorted, renewed, schema, e, once, done, size) = build-IsSchemaOf in
      let n = length (finish_table b).tables in
      let few' : length schema.tables ≤ 2 ^ 16 = ground (arith, few, done.size) in
      let pool : All (λ fk. fk.table < length schema.tables) schema.foreign_key_pool =
        subst (λ m. All (λ fk. fk.table < m) schema.foreign_key_pool) (sym done.size)
          (subst (λ fks. All (λ fk. fk.table < n) fks) (sym done.pool) done.targets) in
      let linked = slices-IsLinked schema schema.tables pool (λ i t q.
        let (old, at) =
          get_elem?-lt sorted i
            (ground (arith, lt-length schema.tables i q, done.size, IsOnce-length n sorted once)) in
        let (s, at') =
          get_elem?-lt (finish_table b).tables old (IsOnce-lt n sorted i old once at) in
        let (t', q', moved) = done.tables i old s at at' in
        let same : t' ≡ t = cc (q, q') in
        subst
          (λ r.
            (fks : List ForeignKey) × (slice schema.foreign_key_pool r.fk_start r.fk_len
              ≡ some fks))
          same (_, moved.foreign_keys)) in
      let (leaves, e', listed) = leaf_tables_lem schema linked few' in
      (schema, leaves, e, e', listed)
