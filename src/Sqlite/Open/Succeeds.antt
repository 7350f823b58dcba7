-- ===== src/Sqlite/Open/Succeeds.antt =====
-- `alter_tables` of crates/database/src/dialect/sqlite.rs where its plan cannot be executed.
use boomerang.Base.{◌^◌, ◌<◌, ◌≡◌, refl, inl, inr, Option, some, List, [], ◌++◌, length, All}
use boomerang.Base.Order.{Str}
use boomerang.Base.Outcome.{ok}
use boomerang.Base.Text.{codes}
use boomerang.Interner.Symbol.{Symbol}
use boomerang.Schema.Types.{DatabaseSchema}
use boomerang.Builder.Sort.{range}
use boomerang.Sqlite.Ddl.{build_ddl, write_hash_upsert}
use boomerang.Sqlite.Live.{Entries, LiveColumn, RawColumn, keys, add_lives}
use boomerang.Sqlite.Alter.{drop_all}
use boomerang.Sqlite.Alter.Names.{Names, IsTable}
use boomerang.Sqlite.Alter.Text.{IsCreated, alter_sql_ends}
use boomerang.Sqlite.Open.{
  Sqlx, in_transaction, create_tables, rebuild_tables, execute_plan, alter_tables,
}
use boomerang.Sqlite.Open.Ends.{result_cases}

module _ {I D F X T : Type 0} (resolve : I → Symbol → Option Str) (schema : DatabaseSchema I)
    (order : List Str → List Str) (sqlx : Sqlx D F X T) where
  -- Transactions begin and are committed, the live columns are read, and the texts that drop tables and
  -- that create the schema's are executed. Nothing is said of the text of a plan.
  pub record IsServed : Type 0 where
    pub begins : (x : X) → (tx : T) × (sqlx.begin x ≡ some tx)
    pub commits : (tx : T) → (x : X) × (sqlx.commit tx ≡ some x)
    pub drops :
        (names : List Str) (tx : T) → (done : T) × (sqlx.execute (drop_all names) tx ≡ inr done)
    pub ddl : Str
    pub ddl_eq : build_ddl resolve schema ≡ some ddl
    pub creates : (tx : T) → (done : T) × (sqlx.execute ddl tx ≡ inr done)
    pub lives :
        (x : X)
        → (rows : List (RawColumn D)) × (existing : Entries (Entries LiveColumn))
          × (sqlx.live_columns x ≡ inr rows)
          × (add_lives rows [] ≡ ok existing)

  module _ (served : IsServed) where
    in_transaction_done :
        (step sql : Str) (x : X)
        → ((tx : T) → (done : T) × (sqlx.execute sql tx ≡ inr done))
        → (y : X) × (in_transaction sqlx step sql x ≡ ok y)
    unfolding in_transaction
    in_transaction_done step sql x executes =
        let (tx, begun) = served.begins x in
        let (done, executed) = executes tx in
        let (y, committed) = served.commits done in
        (y, rw (in_transaction, begun, executed, committed) refl)

    create_tables_done : (x : X) → (y : X) × (create_tables resolve schema order sqlx x ≡ ok y)
    unfolding create_tables
    create_tables_done x =
        let (y, e) =
          in_transaction_done (codes "creating sqlite tables") served.ddl x served.creates in
        (y, rw (create_tables, served.ddl_eq) e)

    rebuild_tables_done :
        (live : List Str) (x : X)
        → (y : X) × (rebuild_tables resolve schema order sqlx live x ≡ ok y)
    unfolding rebuild_tables
    rebuild_tables_done live x =
        let (empty, e) =
          in_transaction_done (codes "rebuilding sqlite tables") (drop_all live) x
            (served.drops live) in
        let (y, e') = create_tables_done empty in (y, rw (rebuild_tables, e) e')

    execute_plan_done :
        (sql : Str) (live : List Str) (x : X)
        → (y : X) × (execute_plan resolve schema order sqlx sql live x ≡ ok y)
    unfolding execute_plan
    execute_plan_done sql live x =
        let (tx, begun) = served.begins x in
        elim (result_cases (sqlx.execute sql tx)) [
          | inl (e, refused) ↦
              let (y, rebuilt) = rebuild_tables_done live x in
              (y, rw (execute_plan, begun, refused) rebuilt)
          | inr (done, executed) ↦
              let (y, committed) = served.commits done in
              (y, rw (execute_plan, begun, executed, committed) refl)
        ]

    -- alter_tables returns a database whether or not SQLite executes the text of its plan, where
    -- transactions begin and are committed, the live columns are read, and the texts that drop tables and
    -- create the schema's are executed, for a schema of fewer than 2 ^ 16 tables whose names and columns
    -- are read and the texts of whose tables are made.
    pub alter_tables_done :
        (names : Names) (x : X)
        → length schema.tables < 2 ^ 16
        → All (IsTable resolve schema names) (range 0 (length schema.tables))
        → All (IsCreated resolve schema) (range 0 (length schema.tables))
        → (y : X) × (alter_tables resolve schema order sqlx x ≡ ok y)
    unfolding alter_tables
    alter_tables_done names x few each made =
        let (rows, existing, read, added) = served.lives x in
        let (ss, front, _, planned) =
          alter_sql_ends resolve schema names order existing few each made in
        let (y, e) =
          execute_plan_done (front ++ write_hash_upsert schema.hash) (order (keys existing)) x in
        (y, rw (alter_tables, read, added, planned) e)
