-- ===== src/Postgres/Tests.antt =====
-- The theorems about crates/database/src/dialect/postgres.rs at a concrete catalogue of one row, with an
-- interner that gives every text the same symbol.
use boomerang.Base.{
  ℕ, suc, All, ◌<◌, ◌^◌, ◌≡◌, inl, inr, refl, true, false, Option, none, some, [], ◌∷◌, length,
  arith,
}
use boomerang.Base.Int.{pos, negsuc}
use boomerang.Base.Order.{Str, eq_str}
use boomerang.Base.Outcome.{ok}
use boomerang.Base.Text.{codes}
use boomerang.Interner.Symbol.{Symbol, into_raw, eq_symbol}
use boomerang.Schema.Types.{cascade, restrict, action_to_u8, DatabaseSchema}
use boomerang.Builder.State.{DatabaseSchemaBuilder, Row, with_capacity}
use boomerang.Builder.Rows.{add_rows, finish_table}
use boomerang.Builder.Build.{build, no_start}
use boomerang.Builder.Sort.{range}
use boomerang.Postgres.Setup.{
  Postgres, new, perform_setup, backfill_sync_logs, setup_triggers, is_positive, backfill_tables,
  backfill_key, trigger_tables, trigger_key,
}
use boomerang.Base.Search.{binary_search}
use boomerang.Schema.Lookup.{table_name, primary_key, column_name}
use boomerang.Postgres.Keyed.{HasKey, new-HasKey}
use boomerang.Postgres.Load.{RawRow, cast_u8, action_of, foreign_keys_of, load_schema}
use boomerang.Postgres.Loaded.{AreForeignKeys, IsRead, AreRead, load_schema-build}

abbrev intern : ℕ → Str → Option (Symbol × ℕ)
intern count s = some (record { raw = 1 }, count)

abbrev nothing : DatabaseSchema ℕ
nothing = record {
  tables = [];
  by_name = [];
  columns = [];
  column_names = [];
  constraint_pool = [];
  foreign_key_pool = [];
  hash = [];
  interner = 0;
}

abbrev raw : RawRow ℕ
raw = record {
  table_name = inr (codes "items");
  column_name = inr (codes "id");
  data_type = inr (codes "uuid");
  nullable = inr false;
  is_primary = inr true;
  is_unique = inr false;
  default_expr = inl 7;
  fk_constraints = inr (codes "fk" ∷ []);
  fk_namespaces = inr (codes "public" ∷ []);
  fk_tables = inr (codes "items" ∷ []);
  fk_columns = inr (codes "id" ∷ []);
  fk_on_update = inr (pos 1 ∷ []);
  fk_on_delete = inr (negsuc 251 ∷ []);
  check_defs = inl 7;
  domain_checks = inr [];
}

abbrev row : Row
row = record {
  table_name = codes "items";
  column_name = codes "id";
  data_type = codes "uuid";
  nullable = false;
  is_primary = true;
  is_unique = false;
  default_expr = none;
  foreign_keys =
      record {
        constraint_name = codes "fk";
        namespace = codes "public";
        referenced_table = codes "items";
        referenced_column = codes "id";
        on_update = cascade;
        on_delete = restrict;
      }
      ∷ [];
  check_defs = [];
  domain_checks = [];
}

-- A negative number is cast to a byte.
cast_action : action_of (negsuc 254) ≡ some cascade
unfolding action_of
cast_action = refl

-- The shortest list ends them all.
shortest_test :
    foreign_keys_of (record raw { fk_constraints = inr (codes "fk" ∷ codes "more" ∷ []) })
    ≡ some row.foreign_keys
unfolding foreign_keys_of
shortest_test = refl

abbrev added : DatabaseSchemaBuilder ℕ
added = elim (add_rows intern (row ∷ []) (with_capacity 0)) [ none ↦ with_capacity 0 | some b ↦ b ]

added_lem : add_rows intern (row ∷ []) (with_capacity 0) ≡ some added
unfolding add_rows with_capacity eq_str
added_lem = refl

few : length (finish_table added).tables < 2 ^ 16
unfolding add_rows with_capacity eq_str finish_table
few = omega arith

small : length added.foreign_key_pool < no_start
unfolding add_rows with_capacity eq_str
small = omega arith

read : AreRead (inr raw ∷ []) (row ∷ [])
unfolding AreRead IsRead AreForeignKeys action_to_u8 cast_u8
read = (
  (
    raw,
    refl,
    (refl, refl, refl, refl, refl, refl, (refl, refl, refl, refl, refl, refl), refl, refl, refl),
  ),
  tt,
)

load_schema-build_example :
    (schema : DatabaseSchema ℕ) × (load_schema intern 0 (inr raw ∷ []) (inr []) ≡ ok schema)
    × (build added [] ≡ ok schema)
load_schema-build_example =
    load_schema-build intern (inr raw ∷ []) (row ∷ []) 0 added [] read added_lem few small

-- A transaction counts the texts that it executed.
abbrev pg : Postgres ℕ Unit ℕ
pg = record {
  connect = λ url. some tt;
  begin = λ pool. some 0;
  commit = λ tx. some tt;
  has_database_schema = λ tx. inr true;
  create_database_schema = λ tx. inr tx;
  create_sync_log = λ tx. inr tx;
  schema_rows = λ tx. inr raw ∷ [];
  schema_hash = λ tx. inr [];
  set_sync_write = λ tx. inr tx;
  log_row_count = λ tx. inr (pos 0);
  touch_functions = λ tx. inr [];
  execute = λ sql tx. inr (suc tx);
  execute_with = λ sql name tx. inr (suc tx);
  to_string = λ e. [];
}

abbrev resolve : ℕ → Symbol → Option Str
resolve count s = some (codes "items")

abbrev loaded : DatabaseSchema ℕ
loaded = elim (build added []) [ ok schema ↦ schema | _ ↦ nothing ]

new_lem : new resolve intern pg 0 [] ≡ ok (tt, loaded)
unfolding new load_schema eq_str perform_setup binary_search into_raw eq_symbol backfill_sync_logs
    is_positive backfill_tables table_name primary_key backfill_key column_name setup_triggers
    trigger_tables trigger_key add_rows
new_lem = refl

one : length loaded.tables < 2 ^ 16
unfolding add_rows with_capacity build eq_str binary_search into_raw eq_symbol
one = omega arith

new-HasKey_example : All (HasKey loaded) (range 0 (length loaded.tables))
new-HasKey_example = new-HasKey resolve pg intern 0 [] tt loaded new_lem one
