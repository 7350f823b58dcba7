-- ===== src/Sqlite/Open/Current.antt =====
-- What `SqliteDatabase::from` of crates/database/src/dialect/sqlite.rs leaves.
use boomerang.Base.{
  ℕ, ◌==◌, ◌%◌, ◌^◌, ◌<◌, ◌≡◌, refl, sym, ap, ◌∙◌, inl, inr, Option, some, List, [], ◌∷◌, ◌++◌,
  length, All, Bool-cases, Option-cases, arith,
}
use mathlib.Core.List.{append_assoc}
use boomerang.Base.Order.{Str, eq_str, eq_str_eq}
use boomerang.Interner.Symbol.{Symbol}
use boomerang.Schema.Types.{DatabaseSchema}
use boomerang.Builder.Sort.{range}
use boomerang.Sqlite.Ddl.{each_text, build_ddl, write_create_table, write_hash_upsert, sync_log_ddl}
use boomerang.Sqlite.Live.{Entries, LiveColumn, RawColumn, add_live, add_lives}
use boomerang.Sqlite.Alter.{Statement, statement_text}
use boomerang.Sqlite.Alter.Names.{Names, IsTable}
use boomerang.Sqlite.Alter.Text.{IsCreated, each_text_ends, alter_sql_ends}
use boomerang.Sqlite.Trigger
use boomerang.Sqlite.Open.{
  Sqlx, or_err, in_transaction, stored_schema_hash, drop_listed, drop_triggers, create_tables,
  rebuild_tables, execute_plan, alter_tables, update_tables, is_invalid, from,
}
use boomerang.Sqlite.Open.Ends.{Ends, Ends->>=, Ends-map, result_cases, or_err-Ends, or_fail-Ends}

module _ {D : Type 0} where
  add_live-Ends :
      (row : RawColumn D) (existing : Entries (Entries LiveColumn))
      → Ends (λ m. Unit) (add_live row existing)
  unfolding add_live Ends
  add_live-Ends row existing = Ends->>= _ _ _ _ (or_fail-Ends _ row.table) (λ table _ _.
      Ends->>= _ _ _ _ (or_fail-Ends _ row.column) (λ column _ _.
        Ends->>= _ _ _ _ (or_fail-Ends _ row.ty)
          (λ ty _ _. Ends->>= _ _ _ _ (or_fail-Ends _ row.pk) (λ pk _ _. inr (_, refl, tt)))))

  add_lives-Ends :
      (rows : List (RawColumn D)) (existing : Entries (Entries LiveColumn))
      → Ends (λ m. Unit) (add_lives rows existing)
  unfolding add_lives Ends
  add_lives-Ends [] existing = inr (existing, refl, tt)
  add_lives-Ends (row ∷ rows) existing =
      Ends->>= _ _ _ _ (add_live-Ends row existing) (λ more _ _. add_lives-Ends rows more)

any_transaction-Ends :
    {D F X T : Type 0} (sqlx : Sqlx D F X T) (step sql : Str) (x : X)
    → Ends (λ _. Unit) (in_transaction sqlx step sql x)
unfolding in_transaction
any_transaction-Ends sqlx step sql x = Ends->>= _ _ _ _ (or_err-Ends _ (sqlx.begin x)) (λ tx _ _.
    Ends->>= _ _ _ _ (or_fail-Ends _ (sqlx.execute sql tx))
      (λ done _ _. Ends-map _ _ _ (or_err-Ends _ (sqlx.commit done)) (λ _ _. tt)))

module _ {I D F X T : Type 0} (resolve : I → Symbol → Option Str) (schema : DatabaseSchema I)
    (order : List Str → List Str) (sqlx : Sqlx D F X T) where
  -- What is in front of the statement that stores the hash.
  pub data IsScript (front : Str) : Type 0 where
    created :
        (is : List ℕ) (tables : Str)
        → each_text (write_create_table resolve schema) is ≡ some tables
        → front ≡ tables ++ sync_log_ddl
        → IsScript front
    altered :
        (ss : List Statement)
        → each_text (statement_text resolve schema) ss ≡ some front
        → IsScript front

  -- The statement that stores the hash, behind such statements in a transaction that was committed,
  -- has stored it, and dropping triggers keeps it.
  pub record IsSqlx : Type 0 where
    pub stores :
        (front : Str) (tx done : T) (x : X)
        → IsScript front
        → sqlx.execute (front ++ write_hash_upsert schema.hash) tx ≡ inr done
        → sqlx.commit done ≡ some x
        → sqlx.stored_hash x ≡ some schema.hash
    pub keeps :
        (names : List Str) (x left : X)
        → sqlx.execute_at_once (Trigger.drop_triggers names) x ≡ inr left
        → sqlx.stored_hash left ≡ sqlx.stored_hash x

  unfoldable pub IsCurrent : X → Type 0
  IsCurrent x = sqlx.stored_hash x ≡ some schema.hash

  module _ (is : IsSqlx) where
    commit-Ends :
        {E : Type 0} (e : E) (front : Str) (tx done : T)
        → IsScript front
        → sqlx.execute (front ++ write_hash_upsert schema.hash) tx ≡ inr done
        → Ends IsCurrent (or_err e (sqlx.commit done))
    unfolding IsCurrent
    commit-Ends e front tx done script executed =
        Ends-map _ IsCurrent _ (or_err-Ends e (sqlx.commit done))
          (λ x committed. is.stores front tx done x script executed committed)

    in_transaction-Ends :
        (step front : Str) (x : X)
        → IsScript front
        → Ends IsCurrent (in_transaction sqlx step (front ++ write_hash_upsert schema.hash) x)
    unfolding in_transaction
    in_transaction-Ends step front x script =
        Ends->>= _ IsCurrent _ _ (or_err-Ends _ (sqlx.begin x)) (λ tx _ _.
          Ends->>= _ IsCurrent _ _
            (or_fail-Ends _ (sqlx.execute (front ++ write_hash_upsert schema.hash) tx))
            (λ done _ executed. commit-Ends _ front tx done script executed))

    module _ (few : length schema.tables < 2 ^ 16)
        (made : All (IsCreated resolve schema) (range 0 (length schema.tables))) where
      create_tables-Ends : (x : X) → Ends IsCurrent (create_tables resolve schema order sqlx x)
      unfolding create_tables build_ddl
      create_tables-Ends x =
          let all = range 0 (length schema.tables) in
          let cast : length schema.tables % 2 ^ 16 ≡ length schema.tables = ground (arith, few) in
          let (tables, e) =
            each_text_ends resolve schema (write_create_table resolve schema) all made in
          let counted : each_text (write_create_table resolve schema)
                (range 0 (length schema.tables % 2 ^ 16))
              ≡ some tables =
            ap (λ k. each_text (write_create_table resolve schema) (range 0 k)) cast ∙ e in
          let ddl : build_ddl resolve schema
              ≡ some ((tables ++ sync_log_ddl) ++ write_hash_upsert schema.hash) =
            rw (build_ddl, counted) (ap some (sym (append_assoc tables sync_log_ddl _))) in
          rw (create_tables, ddl)
            (in_transaction-Ends _ (tables ++ sync_log_ddl) x (created all tables e refl))

      rebuild_tables-Ends :
          (live : List Str) (x : X)
          → Ends IsCurrent (rebuild_tables resolve schema order sqlx live x)
      unfolding rebuild_tables
      rebuild_tables-Ends live x =
          Ends->>= (λ _. Unit) IsCurrent _ _ (any_transaction-Ends sqlx _ _ x)
            (λ empty _ _. create_tables-Ends empty)

      execute_plan-Ends :
          (front : Str) (live : List Str) (x : X)
          → IsScript front
          → Ends IsCurrent (
              execute_plan resolve schema order sqlx
                (front ++ write_hash_upsert schema.hash)
                live
                x)
      unfolding execute_plan
      execute_plan-Ends front live x script =
          Ends->>= _ IsCurrent _ _ (or_err-Ends _ (sqlx.begin x)) (λ tx _ _.
            elim (result_cases (sqlx.execute (front ++ write_hash_upsert schema.hash) tx)) [
              | inl (e, refused) ↦ rw refused (rebuild_tables-Ends live x)
              | inr (done, executed) ↦ rw executed (commit-Ends _ front tx done script executed)
            ])

      module _ (names : Names)
          (each : All (IsTable resolve schema names) (range 0 (length schema.tables)))
          (full : length schema.hash ≡ 32) where
        alter_tables-Ends : (x : X) → Ends IsCurrent (alter_tables resolve schema order sqlx x)
        unfolding alter_tables
        alter_tables-Ends x =
            Ends->>= _ IsCurrent _ _ (or_fail-Ends _ (sqlx.live_columns x)) (λ rows _ _.
              Ends->>= _ IsCurrent _ _ (add_lives-Ends rows []) (λ existing _ _.
                let (ss, front, e, planned) =
                  alter_sql_ends resolve schema names order existing few each made in
                rw (planned) (execute_plan-Ends front _ x (altered ss e))))

        update_tables-Ends : (x : X) → Ends IsCurrent (update_tables resolve schema order sqlx x)
        unfolding update_tables stored_schema_hash IsCurrent Ends
        update_tables-Ends x = elim (Option-cases (sqlx.stored_hash x)) [
          | inl no_hash ↦ rw (update_tables, stored_schema_hash, no_hash) (create_tables-Ends x)
          | inr (stored, found) ↦ elim (Bool-cases (length stored == 32)) [
            | inl fits ↦ elim (Bool-cases (eq_str stored schema.hash)) [
              | inl hit ↦
                  rw (update_tables, stored_schema_hash, found, fits, hit)
                    (inr (x, refl, found ∙ ap some (eq_str_eq stored schema.hash hit)))
              | inr miss ↦
                  rw (update_tables, stored_schema_hash, found, fits, miss) (alter_tables-Ends x)
            ]
            | inr short ↦
                rw (update_tables, stored_schema_hash, found, short) (create_tables-Ends x)
          ]
        ]

        drop_listed-Ends :
            (names : List Str) (x : X) → IsCurrent x → Ends IsCurrent (drop_listed sqlx names x)
        unfolding drop_listed Ends IsCurrent
        drop_listed-Ends [] x current = inr (x, refl, current)
        drop_listed-Ends (name ∷ rest) x current =
            Ends-map _ IsCurrent _ (or_fail-Ends _ (sqlx.execute_at_once _ x))
              (λ left dropped. is.keeps (name ∷ rest) x left dropped ∙ current)

        drop_triggers-Ends : (x : X) → IsCurrent x → Ends IsCurrent (drop_triggers sqlx x)
        unfolding drop_triggers
        drop_triggers-Ends x current =
            Ends->>= _ IsCurrent _ _ (or_fail-Ends _ (sqlx.live_triggers x))
              (λ names _ _. drop_listed-Ends names x current)

        -- from does not panic: it fails, or it returns a database whose stored hash is the schema's. The
        -- schema has fewer than 2 ^ 16 tables, its names and columns are read and the texts of its tables
        -- made, its hash has 32 bytes, and a committed text that ends by storing the hash has stored it,
        -- which the dropping of triggers keeps.
        pub from-IsCurrent :
            (bytes : List ℕ)
            → Ends
                (λ x. stored_schema_hash sqlx x ≡ some schema.hash)
                (from resolve schema order sqlx bytes)
        unfolding from Ends stored_schema_hash IsCurrent
        from-IsCurrent bytes = elim (Bool-cases (is_invalid bytes)) [
          | inl bad ↦ rw (from, bad) (inl (_, refl))
          | inr fine ↦
              rw (from, fine)
                (Ends-map IsCurrent _ _
                  (Ends->>= _ IsCurrent _ _ (or_err-Ends _ sqlx.new_file) (λ file _ _.
                    Ends->>= _ IsCurrent _ _ (or_err-Ends _ (sqlx.write_all bytes file))
                      (λ written _ _.
                        Ends->>= _ IsCurrent _ _ (or_err-Ends _ (sqlx.connect written)) (λ x _ _.
                          Ends->>= IsCurrent IsCurrent _ _ (update_tables-Ends (sqlx.optimize x))
                            (λ updated _ current. drop_triggers-Ends updated current)))))
                  (λ x current. rw (stored_schema_hash, current, full) refl))
        ]
