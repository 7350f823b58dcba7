-- ===== src/Postgres/Setup.antt =====
-- `PostgresDatabase::new` and `remove_setup` of crates/database/src/dialect/postgres.rs, on what sqlx
-- answers. `P` is a pool, `T` a transaction and `D` sqlx's error.
use boomerang.Base.{
  ℕ, ◌%◌, ◌^◌, ◌⊎◌, Bool, false, Option, none, some, List, [], ◌∷◌, ◌++◌, length, ltb,
  if◌then◌else◌,
}
use boomerang.Base.Int.{ℤ, pos, negsuc}
use boomerang.Base.Order.{Str}
use boomerang.Base.Outcome.{Run, ok, err, ◌>>=◌, or_fail}
use boomerang.Base.Text.{codes}
use boomerang.Interner.Symbol.{Symbol}
use boomerang.Schema.Types.{DatabaseSchema}
use boomerang.Schema.Lookup.{table_name, column_name, primary_key}
use boomerang.Builder.Sort.{range}
use boomerang.Dialect.{
  DatabaseError, connection_pool_failed, failed_to_acquire_transaction,
  failed_to_commit_transaction, setup_failed, sqlx_error, backfill_failed,
}
use boomerang.Sql.Quote.{ident, lit}
use boomerang.Postgres.Load.{RawRow, or_panic, load_schema}

-- What the calls of sqlx answer. The queries whose text is constant have a field of their own.
pub record Postgres (D P T : Type 0) : Type 0 where
  pub connect : Str → Option P
  pub begin : P → Option T
  pub commit : T → Option P
  pub has_database_schema : T → D ⊎ Bool
  pub create_database_schema : T → D ⊎ T
  pub create_sync_log : T → D ⊎ T
  pub schema_rows : T → List (D ⊎ RawRow D)
  pub schema_hash : T → D ⊎ List ℕ
  pub set_sync_write : T → D ⊎ T
  pub log_row_count : T → D ⊎ ℤ
  pub touch_functions : T → D ⊎ List Str
  pub execute : Str → T → D ⊎ T
  pub execute_with : Str → Str → T → D ⊎ T
  pub to_string : D → Str

abbrev pub or_err : {E A : Type 0} → E → Option A → Run E A
or_err e none = err e
or_err e (some a) = ok a

unfoldable pub is_positive : ℤ → Bool
is_positive (pos n) = ltb 0 n
is_positive (negsuc n) = false

-- The lines of a text, with a line feed between two.
unfoldable pub lines : List Str → Str
lines [] = []
lines (s ∷ []) = s
lines (s ∷ t ∷ ss) = s ++ (10 ∷ lines (t ∷ ss))

unfoldable pub logged_name : Str → Str
logged_name table = codes "public." ++ table

unfoldable pub function_name : Str → Str
function_name table = codes "sync_log_touch_" ++ table

unfoldable pub trigger_name : Str → Str
trigger_name table = codes "trg_" ++ (table ++ codes "_sync_log")

unfoldable pub backfill_text : Str → Str → Str
unfolding lines ident
backfill_text table key = lines (
    []
    ∷ codes
        "                    INSERT INTO boomerang.sync_log (table_name, record_id, op_type, version, updated_at)"
    ∷ (codes "                    SELECT $1, "
        ++ (ident key ++ codes "::text, 'I', 1, (extract(epoch from now()) * 1000)::bigint"))
    ∷ (codes "                    FROM " ++ (ident (codes "public") ++ (codes "." ++ ident table)))
    ∷ codes "                    ON CONFLICT (table_name, record_id) DO NOTHING"
    ∷ codes "                "
    ∷ [])

unfoldable pub trigger_text : Str → Str → Str
unfolding lines ident lit logged_name function_name trigger_name
trigger_text table key = lines (
    []
    ∷ (codes "                    CREATE OR REPLACE FUNCTION "
        ++ (ident (function_name table) ++ codes "() RETURNS trigger"))
    ∷ codes "                    LANGUAGE plpgsql AS $$"
    ∷ codes "                    BEGIN"
    ∷ codes "                        IF current_setting('boomerang.sync_write', true) = 'true' THEN"
    ∷ codes "                            RETURN NULL;"
    ∷ codes "                        END IF;"
    ∷ []
    ∷ codes
        "                        INSERT INTO boomerang.sync_log AS l (table_name, record_id, op_type, version, updated_at)"
    ∷ codes "                        VALUES ("
    ∷ (codes "                            " ++ (lit (logged_name table) ++ codes ","))
    ∷ (codes "                            (CASE WHEN TG_OP = 'DELETE' THEN OLD."
        ++ (ident key ++ (codes " ELSE NEW." ++ (ident key ++ codes " END)::text,"))))
    ∷ codes "                            left(TG_OP, 1),"
    ∷ codes "                            1,"
    ∷ codes "                            (extract(epoch FROM clock_timestamp()) * 1000)::bigint"
    ∷ codes "                        )"
    ∷ codes "                        ON CONFLICT (table_name, record_id) DO UPDATE"
    ∷ codes "                        SET op_type    = EXCLUDED.op_type,"
    ∷ codes "                            version    = l.version + 1,"
    ∷ codes "                            updated_at = EXCLUDED.updated_at;"
    ∷ []
    ∷ codes "                        RETURN NULL;"
    ∷ codes "                    END $$;"
    ∷ []
    ∷ (codes "                    CREATE OR REPLACE TRIGGER " ++ ident (trigger_name table))
    ∷ (codes "                    AFTER INSERT OR UPDATE OR DELETE ON " ++ ident table)
    ∷ (codes "                    FOR EACH ROW EXECUTE FUNCTION "
        ++ (ident (function_name table) ++ codes "();"))
    ∷ codes "                 "
    ∷ [])

unfoldable pub remove_text : List Str → Str
unfolding ident
remove_text [] = codes "DROP SCHEMA IF EXISTS boomerang CASCADE;"
remove_text (name ∷ names) =
    codes "DROP FUNCTION IF EXISTS "
    ++ (ident name ++ (codes "() CASCADE;" ++ (10 ∷ remove_text names)))

module _ {D P T : Type 0} (pg : Postgres D P T) where
  -- `r.map_err(..)?` of a step of the setup.
  abbrev step : {A : Type 0} → Str → D ⊎ A → Run (DatabaseError D) A
  step name r = or_fail (λ e. setup_failed name (pg.to_string e)) r

  unfoldable pub perform_setup : T → Run (DatabaseError D) T
  perform_setup tx =
      step (codes "checking for database schema functions") (pg.has_database_schema tx) >>= λ found.
      (if found
        then ok tx
        else step (codes "creating database schema functions") (pg.create_database_schema tx))
      >>= λ ready. step (codes "creating sync log table") (pg.create_sync_log ready)

  unfoldable pub remove_setup : P → Run (DatabaseError D) P
  unfolding remove_text
  remove_setup pool = or_err failed_to_acquire_transaction (pg.begin pool) >>= λ tx.
      or_fail sqlx_error (pg.touch_functions tx) >>= λ functions.
      step (codes "removing postgres sync artifacts") (pg.execute (remove_text functions) tx)
      >>= λ done. or_err failed_to_commit_transaction (pg.commit done)

module _ {I D P T : Type 0} (resolve : I → Symbol → Option Str) (pg : Postgres D P T)
    (schema : DatabaseSchema I) where
  -- The body of the loop, for a table of this name and key.
  unfoldable pub backfill_key : Str → Option ℕ → T → Run (DatabaseError D) T
  backfill_key name none tx = err (backfill_failed name (codes "Table has no primary key"))
  backfill_key name (some column) tx =
      or_panic (column_name resolve schema column) >>= λ primary_col.
      or_fail sqlx_error (pg.execute_with (backfill_text name primary_col) (logged_name name) tx)

  unfoldable pub backfill_tables : List ℕ → T → Run (DatabaseError D) T
  backfill_tables [] tx = ok tx
  backfill_tables (table ∷ tables) tx = or_panic (table_name resolve schema table) >>= λ name.
      or_panic (primary_key schema table) >>= λ key.
      backfill_key name key tx >>= λ next. backfill_tables tables next

  unfoldable pub backfill_sync_logs : T → Run (DatabaseError D) T
  backfill_sync_logs tx = or_fail sqlx_error (pg.log_row_count tx) >>= λ log_row_count.
      if is_positive log_row_count
      then ok tx
      else backfill_tables (range 0 (length schema.tables % 2 ^ 16)) tx

  unfoldable pub trigger_key : Str → Option ℕ → T → Run (DatabaseError D) T
  trigger_key name none tx = err (
      setup_failed (codes "creating table trigger")
        (codes "Table " ++ (name ++ codes " has no primary key")))
  trigger_key name (some column) tx =
      or_panic (column_name resolve schema column) >>= λ primary_col.
      or_fail sqlx_error (pg.execute (trigger_text name primary_col) tx)

  unfoldable pub trigger_tables : List ℕ → T → Run (DatabaseError D) T
  trigger_tables [] tx = ok tx
  trigger_tables (table ∷ tables) tx = or_panic (table_name resolve schema table) >>= λ name.
      or_panic (primary_key schema table) >>= λ key.
      trigger_key name key tx >>= λ next. trigger_tables tables next

  unfoldable pub setup_triggers : T → Run (DatabaseError D) T
  setup_triggers tx = trigger_tables (range 0 (length schema.tables % 2 ^ 16)) tx

module _ {I D P T : Type 0} (resolve : I → Symbol → Option Str)
    (intern : I → Str → Option (Symbol × I)) (pg : Postgres D P T) where
  -- The pool, and the schema that it is of.
  unfoldable pub new : I → Str → Run (DatabaseError D) (P × DatabaseSchema I)
  new interner connection_url =
      or_err connection_pool_failed (pg.connect connection_url) >>= λ pool.
      or_err failed_to_acquire_transaction (pg.begin pool) >>= λ tx.
      perform_setup pg tx >>= λ ready.
      load_schema intern interner (pg.schema_rows ready) (pg.schema_hash ready) >>= λ schema.
      or_fail sqlx_error (pg.set_sync_write ready) >>= λ writing.
      backfill_sync_logs resolve pg schema writing >>= λ filled.
      setup_triggers resolve pg schema filled >>= λ done.
      or_err failed_to_commit_transaction (pg.commit done) >>= λ left. ok (left, schema)
