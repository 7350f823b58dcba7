-- ===== src/Sqlite/Open.antt =====
-- The operations of `SqliteDatabase` in crates/database/src/dialect/sqlite.rs, on a file that sqlx and
-- tempfile keep: `F` is a temporary file, `X` a database, `T` a transaction and `D` sqlx's error.
use boomerang.Base.{
  ℕ, ◌==◌, Bool, true, false, ◌||◌, not, Option, none, some, List, [], ◌∷◌, ◌++◌, take, length, ltb,
  ◌⊎◌, inl, inr, if◌then◌else◌,
}
use boomerang.Base.Order.{Str, eq_str}
use boomerang.Base.Outcome.{Run, ok, err, panic, stuck, ◌>>=◌, or_fail}
use boomerang.Base.Text.{codes}
use boomerang.Interner.Symbol.{Symbol}
use boomerang.Schema.Types.{DatabaseSchema}
use boomerang.Dialect.{
  DatabaseError, connection_pool_failed, failed_to_acquire_transaction,
  failed_to_commit_transaction, setup_failed, invalid_sqlite_bytes,
}
use boomerang.Sqlite.Ddl.{build_ddl}
use boomerang.Sqlite.Live.{RawColumn, keys, add_lives}
use boomerang.Sqlite.Alter.{alter_sql, drop_all}
use boomerang.Sqlite.Trigger
use boomerang.Sqlite.Trigger.{triggers}
pub mod Ends
pub mod Current
pub mod Succeeds
mod Tests

-- What the calls of sqlx and tempfile answer. A transaction that is dropped changes no database.
pub record Sqlx (D F X T : Type 0) : Type 0 where
  pub new_file : Option F
  pub write_all : List ℕ → F → Option F
  pub connect : F → Option X
  pub optimize : X → X
  pub stored_hash : X → Option (List ℕ)
  pub live_columns : X → D ⊎ List (RawColumn D)
  pub live_triggers : X → D ⊎ List Str
  pub begin : X → Option T
  pub execute : Str → T → D ⊎ T
  pub commit : T → Option X
  pub execute_at_once : Str → X → D ⊎ X
  pub checkpoint : X → X
  pub read : X → D ⊎ List ℕ
  pub to_string : D → Str

-- `r.map_err(|_| e)?` of a result whose error is dropped.
abbrev pub or_err : {E A : Type 0} → E → Option A → Run E A
or_err e none = err e
or_err e (some a) = ok a

-- A call that may panic, in a call that may fail.
abbrev pub or_panic : {E A : Type 0} → Option A → Run E A
or_panic none = panic
or_panic (some a) = ok a

-- `bytes.len() < 100 || &bytes[0..16] != b"SQLite format 3\0"`
unfoldable pub is_invalid : List ℕ → Bool
unfolding eq_str
is_invalid bytes =
    ltb (length bytes) 100 || not (eq_str (take 16 bytes) (codes "SQLite format 3" ++ 0 ∷ []))

module _ {D F X T : Type 0} (sqlx : Sqlx D F X T) where
  -- A text that is executed in a transaction of its own.
  unfoldable pub in_transaction : Str → Str → X → Run (DatabaseError D) X
  in_transaction step sql x = or_err failed_to_acquire_transaction (sqlx.begin x) >>= λ tx.
      or_fail (λ e. setup_failed step (sqlx.to_string e)) (sqlx.execute sql tx) >>= λ done.
      or_err failed_to_commit_transaction (sqlx.commit done)

  unfoldable pub stored_schema_hash : X → Option (List ℕ)
  stored_schema_hash x = elim (sqlx.stored_hash x) [
    | none ↦ none
    | some bytes ↦ if length bytes == 32 then some bytes else none
  ]

  -- Without triggers nothing is executed.
  unfoldable pub drop_listed : List Str → X → Run (DatabaseError D) X
  unfolding Trigger.drop_triggers
  drop_listed [] x = ok x
  drop_listed (name ∷ names) x =
      or_fail (λ e. setup_failed (codes "dropping sqlite triggers") (sqlx.to_string e))
        (sqlx.execute_at_once (Trigger.drop_triggers (name ∷ names)) x)

  unfoldable pub drop_triggers : X → Run (DatabaseError D) X
  unfolding drop_listed
  drop_triggers x =
      or_fail (λ e. setup_failed (codes "listing sqlite triggers") (sqlx.to_string e))
        (sqlx.live_triggers x)
      >>= λ names. drop_listed names x

module _ {I D F X T : Type 0} (resolve : I → Symbol → Option Str) (schema : DatabaseSchema I)
    (order : List Str → List Str) (sqlx : Sqlx D F X T) where
  unfoldable pub create_tables : X → Run (DatabaseError D) X
  unfolding in_transaction
  create_tables x = or_panic (build_ddl resolve schema) >>= λ ddl.
      in_transaction sqlx (codes "creating sqlite tables") ddl x

  -- What is done when the plan could not be executed.
  unfoldable pub rebuild_tables : List Str → X → Run (DatabaseError D) X
  unfolding in_transaction create_tables drop_all
  rebuild_tables live_tables x =
      in_transaction sqlx (codes "rebuilding sqlite tables") (drop_all live_tables) x >>= λ empty.
      create_tables empty

  -- `alter_tables`, behind its query's rows.
  unfoldable pub execute_plan : Str → List Str → X → Run (DatabaseError D) X
  unfolding rebuild_tables
  execute_plan sql live_tables x = or_err failed_to_acquire_transaction (sqlx.begin x) >>= λ tx.
      elim (sqlx.execute sql tx) [
        | inr done ↦ or_err failed_to_commit_transaction (sqlx.commit done)
        | inl e ↦ rebuild_tables live_tables x
      ]

  unfoldable pub alter_tables : X → Run (DatabaseError D) X
  unfolding execute_plan add_lives keys
  alter_tables x =
      or_fail (λ e. setup_failed (codes "introspecting sqlite schema") (sqlx.to_string e))
        (sqlx.live_columns x)
      >>= λ rows. add_lives rows [] >>= λ existing.
          or_panic (alter_sql resolve schema order existing) >>= λ sql.
          execute_plan sql (order (keys existing)) x

  -- What `from` does by the stored hash.
  unfoldable pub update_tables : X → Run (DatabaseError D) X
  unfolding alter_tables create_tables stored_schema_hash eq_str
  update_tables x = elim (stored_schema_hash sqlx x) [
    | none ↦ create_tables x
    | some stored ↦ if eq_str stored schema.hash then ok x else alter_tables x
  ]

  unfoldable pub new : Run (DatabaseError D) X
  unfolding create_tables
  new = or_err connection_pool_failed sqlx.new_file >>= λ file.
      or_err connection_pool_failed (sqlx.connect file) >>= λ x. create_tables x

  unfoldable pub from : List ℕ → Run (DatabaseError D) X
  unfolding is_invalid update_tables drop_triggers
  from bytes =
      let opened = or_err connection_pool_failed sqlx.new_file >>= λ file.
      or_err invalid_sqlite_bytes (sqlx.write_all bytes file) >>= λ written.
      or_err connection_pool_failed (sqlx.connect written) >>= λ x.
      update_tables (sqlx.optimize x) >>= λ updated. drop_triggers sqlx updated in
      if is_invalid bytes then err invalid_sqlite_bytes else opened

  unfoldable pub setup_triggers : X → Run (DatabaseError D) X
  unfolding in_transaction triggers
  setup_triggers x = elim (triggers resolve schema) [
    | ok sql ↦ in_transaction sqlx (codes "creating sqlite triggers") sql x
    | err reason ↦ err (setup_failed (codes "creating sqlite triggers") reason)
    | panic ↦ panic
    | stuck ↦ stuck
  ]

  -- `bytes`, whose file is there: `_database_file` is taken by `bytes` and `close` alone, which take
  -- the database.
  unfoldable pub bytes : X → Run (DatabaseError D) (List ℕ)
  unfolding setup_triggers
  bytes x = setup_triggers x >>= λ ready.
      or_fail (λ e. setup_failed (codes "exporting sqlite database") (sqlx.to_string e))
        (sqlx.read (sqlx.checkpoint ready))
