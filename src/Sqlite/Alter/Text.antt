-- ===== src/Sqlite/Alter/Text.antt =====
-- The text of the plan of `alter_tables` in crates/database/src/dialect/sqlite.rs is always made.
use boomerang.Base.{
  ℕ, ◌%◌, ◌^◌, ◌<◌, ◌≡◌, refl, ap, ◌∙◌, inl, inr, ◌||◌, Option, none, some, List, [], ◌∷◌, ◌++◌,
  map, length, All, Bool-cases, arith,
}
use boomerang.Base.Order.{Str}
use boomerang.Base.Panic.{◌>>=◌}
use boomerang.Interner.Symbol.{Symbol}
use boomerang.Schema.Types.{DatabaseSchema}
use boomerang.Builder.Sort.{range}
use boomerang.Sqlite.Ddl.{each_text, write_create_table, write_hash_upsert}
use boomerang.Sqlite.Live.{Entries, LiveColumn, find, without, keys}
use boomerang.Sqlite.Alter.{
  Statement, create_table, drop_table, add_column, drop_column, any_key, change_table, table_plan,
  tables_plan, plan, add_text, statement_text, alter_sql,
}
use boomerang.Sqlite.Alter.Names.{Names, IsColumn, IsTable}
use boomerang.Sqlite.Alter.Columns.{scan_ends}

module _ {A : Type 0} (P : A → Type 0) where
  All-append : (xs ys : List A) → All P xs → All P ys → All P (xs ++ ys)
  All-append [] ys p q = q
  All-append (x ∷ xs) ys p q = (p.0, All-append xs ys p.1 q)

module _ {I : Type 0} (resolve : I → Symbol → Option Str) (schema : DatabaseSchema I) where
  abbrev IsWritten : Statement → Type 0
  IsWritten s = (text : Str) × (statement_text resolve schema s ≡ some text)

  abbrev pub IsCreated : ℕ → Type 0
  IsCreated i = (text : Str) × (write_create_table resolve schema i ≡ some text)

  pub each_text_ends :
      {A : Type 0} (f : A → Option Str) (xs : List A)
      → All (λ x. (text : Str) × (f x ≡ some text)) xs
      → (text : Str) × (each_text f xs ≡ some text)
  unfolding each_text
  each_text_ends f [] all = ([], refl)
  each_text_ends f (x ∷ xs) all =
      let (first, e) = all.0 in
      let (rest, e') = each_text_ends f xs all.1 in
      (first ++ rest, rw (each_text, e, ◌>>=◌, e') refl)

  drop_tables-IsWritten : (ds : List Str) → All IsWritten (map drop_table ds)
  unfolding statement_text
  drop_tables-IsWritten [] = tt
  drop_tables-IsWritten (d ∷ ds) = ((_, refl), drop_tables-IsWritten ds)

  drops-IsWritten : (m : Str) (ds : List Str) → All IsWritten (map (drop_column m) ds)
  unfolding statement_text
  drops-IsWritten m [] = tt
  drops-IsWritten m (d ∷ ds) = ((_, refl), drops-IsWritten m ds)

  module _ (names : Names) (order : List Str → List Str) where
    abbrev Reads : ℕ → Type 0
    Reads = IsColumn resolve schema names

    adds-IsWritten : (m : Str) (js : List ℕ) → All Reads js → All IsWritten (map (add_column m) js)
    unfolding statement_text add_text
    adds-IsWritten m [] all = tt
    adds-IsWritten m (j ∷ js) all =
        let is : Reads j = all.0 in
        (
          rw (statement_text, add_text, is.meta, ◌>>=◌, is.named, ◌>>=◌) (_, refl),
          adds-IsWritten m js all.1,
        )

    table_plan_ends :
        (i : ℕ) (found : Option (Entries LiveColumn))
        → IsTable resolve schema names i
        → IsCreated i
        → (ss : List Statement) × (table_plan resolve schema order i (names.table i) found
            ≡ some ss)
          × All IsWritten ss
    unfolding table_plan change_table statement_text
    table_plan_ends i none is created = (create_table i ∷ [], refl, (created, tt))
    table_plan_ends i (some live) is created =
        let (s, e, reads) = scan_ends resolve schema names (names.columns i) [] live is.each tt in
        let m = names.table i in
        let here = map (add_column m) s.added ++ map (drop_column m) (order (keys s.live_cols)) in
        elim (Bool-cases (s.rebuild || any_key s.live_cols)) [
          | inl rebuild ↦ (
            drop_table m ∷ create_table i ∷ [],
            rw (change_table, is.columns, ◌>>=◌, e, ◌>>=◌, rebuild) refl,
            ((_, refl), (created, tt)),
          )
          | inr keep ↦ (
            here,
            rw (change_table, is.columns, ◌>>=◌, e, ◌>>=◌, keep) refl,
            All-append IsWritten (map (add_column m) s.added) _ (adds-IsWritten m s.added reads)
                (drops-IsWritten m (order (keys s.live_cols))),
          )
        ]

    tables_plan_ends :
        (is : List ℕ) (existing : Entries (Entries LiveColumn))
        → All (IsTable resolve schema names) is
        → All IsCreated is
        → (ss : List Statement) × (tables_plan resolve schema order is existing ≡ some ss)
          × All IsWritten ss
    unfolding tables_plan
    tables_plan_ends [] existing each created = (
      map drop_table (order (keys existing)),
      refl,
      drop_tables-IsWritten (order (keys existing)),
    )
    tables_plan_ends (i ∷ is) existing each created =
        let m = names.table i in
        let table : IsTable resolve schema names i = each.0 in
        let (first, e, written) = table_plan_ends i (find m existing) table created.0 in
        let (rest, e', written') = tables_plan_ends is (without m existing) each.1 created.1 in
        (
          first ++ rest,
          rw (tables_plan, table.named, ◌>>=◌, e, ◌>>=◌, e') refl,
          All-append IsWritten first rest written written',
        )

    -- The text is made, and ends with the statement that stores the hash.
    pub alter_sql_ends :
        (existing : Entries (Entries LiveColumn))
        → length schema.tables < 2 ^ 16
        → All (IsTable resolve schema names) (range 0 (length schema.tables))
        → All IsCreated (range 0 (length schema.tables))
        → (ss : List Statement) × (front : Str) × (each_text (statement_text resolve schema) ss
            ≡ some front)
          × (alter_sql resolve schema order existing
              ≡ some (front ++ write_hash_upsert schema.hash))
    unfolding alter_sql plan
    alter_sql_ends existing few each created =
        let cast : length schema.tables % 2 ^ 16 ≡ length schema.tables = ground (arith, few) in
        let (ss, e, written) =
          tables_plan_ends (range 0 (length schema.tables)) existing each created in
        let planned : plan resolve schema order existing ≡ some ss =
          ap (λ k. tables_plan resolve schema order (range 0 k) existing) cast ∙ e in
        let (text, e') = each_text_ends (statement_text resolve schema) ss written in
        (ss, text, e', rw (alter_sql, planned, ◌>>=◌, e') refl)
