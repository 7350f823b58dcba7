-- ===== src/Builder/Grown.antt =====
-- `add_row` of crates/database/src/core/schema_builder.rs keeps the builder's ranges in its lists.
use mathlib.Core.Path.{subst}
use boomerang.Base.{
  ℕ, suc, ◌+◌, ◌-◌, ◌%◌, ◌^◌, ◌≤◌, ◌≡◌, refl, ap, ◌∙◌, inl, inr, Option, some, List, [], ◌∷◌, ◌++◌,
  length, length-append, get_elem?-append_one, if◌then◌else◌, arith,
}
use boomerang.Base.Order.{Str}
use boomerang.Base.Panic.{>>=-eq-some}
use boomerang.Interner.Symbol.{Symbol}
use boomerang.Schema.Types.{Column}
use boomerang.Builder.State.{DatabaseSchemaBuilder, Row}
use boomerang.Builder.Rows.{
  start_table, intern_all, add_foreign_keys, type_of, default_of, add_row, add_rows,
}
use boomerang.Builder.Grow.{IsTableIn, IsOpen, start_table_lem}
use boomerang.Builder.Cover.{Covers, pushed, Covers-AreIn, IsBuilding, ends_in}
use boomerang.Builder.Pushed.{some_injective, IsGrown, add_foreign_keys-IsGrown}

module _ {I : Type 0} (intern : I → Str → Option (Symbol × I)) where
  changed-IsOpen :
      (b : DatabaseSchemaBuilder I) (interner : I) (pk : Option ℕ) (pool : List Symbol)
      → IsOpen b
      → IsOpen (record b { interner = interner; current_table_pk = pk; constraint_pool = pool })
  changed-IsOpen b interner pk pool valid = record {
    names = valid.names;
    cols_start = valid.cols_start;
    fk_start = valid.fk_start;
    tables = valid.tables;
    column_fks = valid.column_fks;
    unresolved = valid.unresolved;
  }

  row_tail :
      (b1 b2 b3 : DatabaseSchemaBuilder I) (column : Column) (name : Symbol)
      → IsGrown intern b1 b2
      → column.foreign_keys.start + column.foreign_keys.len ≤ length b2.foreign_key_pool
      → Covers (λ c. c.constraints) 0 (b2.columns ++ column ∷ []) (length b2.constraint_pool)
      → Covers (λ c. c.foreign_keys) 0 (b2.columns ++ column ∷ []) (length b2.foreign_key_pool)
      → (interner : I)
      → record b2 {
        interner = interner;
        columns = b2.columns ++ column ∷ [];
        column_names = b2.column_names ++ name ∷ [];
      }
        ≡ b3
      → IsBuilding b3 × (length b3.columns ≡ suc (length b1.columns))
  unfolding IsTableIn
  row_tail b1 b2 b3 column name grown fks checks_covered fks_covered interner e =
      let valid = grown.valid in
      let size : length (b2.columns ++ column ∷ []) ≡ suc (length b2.columns) =
        omega (arith, length-append b2.columns (column ∷ [])) in
      let names : length (b2.column_names ++ name ∷ []) ≡ suc (length b2.column_names) =
        omega (arith, length-append b2.column_names (name ∷ [])) in
      subst (λ c. IsBuilding c × (length c.columns ≡ suc (length b1.columns))) e
        (
          record {
            within = record {
              names = omega (arith, size, names, valid.names);
              cols_start = omega (arith, size, valid.cols_start);
              fk_start = valid.fk_start;
              tables = λ i t q.
                  let (cols, len, rest) = valid.tables i t q in
                  (omega (arith, cols, size), len, rest);
              column_fks = λ i c q. elim (get_elem?-append_one b2.columns column i c q) [
                | inl old ↦ valid.column_fks i c old
                | inr same ↦
                    subst
                      (λ d. d.foreign_keys.start + d.foreign_keys.len ≤ length b2.foreign_key_pool)
                      same fks
              ];
              unresolved = valid.unresolved;
            };
            constraints_in =
                Covers-AreIn (λ c. c.constraints) 0 (b2.columns ++ column ∷ [])
                  (length b2.constraint_pool) checks_covered;
            constraints = checks_covered;
            foreign_keys = fks_covered;
          },
          size ∙ ap (λ cs. suc (length cs)) grown.columns,
        )

  -- A row that is added adds one column, and the builder's ranges stay in its lists.
  pub add_row-IsBuilding :
      (row : Row) (b b' : DatabaseSchemaBuilder I)
      → IsBuilding b
      → add_row intern row b ≡ some b'
      → IsBuilding b' × (length b'.columns ≡ suc (length b.columns))
  unfolding add_row
  add_row-IsBuilding row b b' building h =
      let (p1, e1, h1) = >>=-eq-some (intern b.interner row.table_name) _ h in
      let b0 : DatabaseSchemaBuilder I = record b { interner = p1.1 } in
      let start =
        start_table_lem p1.0 b0
          (changed-IsOpen b p1.1 b.current_table_pk b.constraint_pool building.within) in
      let b1 = start_table p1.0 b0 in
      let (p2, e2, h2) = >>=-eq-some (intern b1.interner row.column_name) _ h1 in
      let (p3, e3, h3) =
        >>=-eq-some (intern_all intern (row.check_defs ++ row.domain_checks) p2.1) _ h2 in
      let pk =
        if row.is_primary
        then some ((length b1.columns - b1.current_table_cols_start) % 2 ^ 16)
        else b1.current_table_pk in
      let pool = b1.constraint_pool ++ p3.0 in
      let b1' : DatabaseSchemaBuilder I = record b1 {
        interner = p3.1;
        current_table_pk = pk;
        constraint_pool = pool;
      } in
      let v1' : IsOpen b1' = changed-IsOpen b1 p3.1 pk pool start.0 in
      let (b2, e4, h4) = >>=-eq-some (add_foreign_keys intern row.foreign_keys b1') _ h3 in
      let grown = add_foreign_keys-IsGrown intern row.foreign_keys b1' b2 v1' start.1 e4 in
      let (p5, e5, h5) = >>=-eq-some (type_of intern row.data_type b2.interner) _ h4 in
      let (p6, e6, h6) = >>=-eq-some (default_of intern row.default_expr p5.1) _ h5 in
      let columns : b2.columns ≡ b.columns = grown.columns ∙ start.2 in
      let checks : length b1.constraint_pool ≤ length pool =
        omega (arith, length-append b1.constraint_pool p3.0) in
      let (done, size) =
        row_tail b1' b2 b' _ p2.0 grown
          (ends_in (length b1.foreign_key_pool) (length b2.foreign_key_pool) grown.grows)
          (pushed (λ c. c.constraints) b.columns b2.columns (length b.constraint_pool)
            (length b1.constraint_pool) (length pool) (length b2.constraint_pool) _ columns
            (ap length start.3) (ap length grown.constraints) building.constraints checks
            (record { start = refl; len = refl }))
          (pushed (λ c. c.foreign_keys) b.columns b2.columns (length b.foreign_key_pool)
            (length b1.foreign_key_pool) (length b2.foreign_key_pool) (length b2.foreign_key_pool) _
            columns (ap length start.4) refl building.foreign_keys grown.grows
            (record { start = refl; len = refl }))
          p6.1 (some_injective h6) in
      (done, size ∙ ap (λ cs. suc (length cs)) start.2)

  -- Rows that are added leave the ranges of the tables and columns in the builder's lists, and the
  -- foreign keys in their order, if they were so, and add a column for each row. The ranges of the
  -- columns' constraints, and those of their foreign keys, then still follow one another in their pools
  -- without a gap, from the first item to the last, with both ends cast as the code casts them.
  pub add_rows-IsBuilding :
      (rows : List Row) (b b' : DatabaseSchemaBuilder I)
      → IsBuilding b
      → add_rows intern rows b ≡ some b'
      → IsBuilding b' × (length b'.columns ≡ length b.columns + length rows)
  unfolding add_rows
  add_rows-IsBuilding [] b b' valid h =
      subst (λ c. IsBuilding c × (length c.columns ≡ length b.columns + 0)) (some_injective h)
        (valid, omega arith)
  add_rows-IsBuilding (row ∷ rows) b b' valid h =
      let (mid, e, h1) = >>=-eq-some (add_row intern row b) _ h in
      let (valid1, size1) = add_row-IsBuilding row b mid valid e in
      let (valid2, size2) = add_rows-IsBuilding rows mid b' valid1 h1 in
      (valid2, omega (arith, size1, size2))
