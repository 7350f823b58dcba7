-- ===== src/Sqlite/Ddl.antt =====
-- The texts that create the tables, in crates/database/src/dialect/sqlite.rs. `resolve` is
-- `StringInterner::resolve`; `none` of an outer option is a panic.
use boomerang.Base.{
  ℕ, ◌+◌, ◌/◌, ◌%◌, ◌^◌, Option, none, some, List, [], ◌∷◌, ◌++◌, length, get_elem?, ltb,
  if◌then◌else◌,
}
use boomerang.Base.Order.{Str}
use boomerang.Base.Panic.{◌>>=◌}
use boomerang.Base.Text.{codes}
use boomerang.Interner.Symbol.{Symbol}
use boomerang.Schema.Types.{
  Action, no_action, cascade, set_null, set_default, restrict, ForeignKey, Column, DatabaseSchema,
}
use boomerang.Schema.Lookup.{
  is_nullable, is_primary_key, is_unique, column_meta, column_constraints, column_foreign_keys,
  table_meta, table_column_names, table_at, table_name, column_name,
}
use boomerang.Builder.Sort.{range}
use boomerang.Sql.Quote.{ident}
use boomerang.Sqlite.Default.{sqlite_type, sqlite_default, before_cast}

abbrev pub meta_ddl : Str
meta_ddl =
    codes
      "CREATE TABLE IF NOT EXISTS __meta__ (key TEXT NOT NULL PRIMARY KEY,value BLOB NOT NULL) WITHOUT ROWID;"
    ++ 10 ∷ []

abbrev pub sync_log_ddl : Str
sync_log_ddl =
    codes
      "CREATE TABLE IF NOT EXISTS __sync_log__ (table_name  TEXT NOT NULL,record_id   TEXT NOT NULL,"
    ++ codes
        "op_type     TEXT NOT NULL CHECK (op_type IN ('I','U','D')),version     INTEGER NOT NULL DEFAULT 1,"
    ++ codes
        "updated_at  INTEGER NOT NULL,PRIMARY KEY (table_name, record_id)) WITHOUT ROWID, STRICT;"
    ++ 10 ∷ []

-- A digit of `{byte:02x}`.
unfoldable pub hex_digit : ℕ → ℕ
hex_digit d = if ltb d 10 then 48 + d else 87 + d

unfoldable pub hex : List ℕ → Str
unfolding hex_digit
hex [] = []
hex (b ∷ bs) = hex_digit (b / 16 % 16) ∷ hex_digit (b % 16) ∷ hex bs

-- What is in front of the digits, and behind them.
abbrev pub hash_head : Str
hash_head = codes "INSERT INTO __meta__ (key, value) VALUES ('schema_hash', X'"

abbrev pub hash_tail : Str
hash_tail = codes "') ON CONFLICT(key) DO UPDATE SET value = excluded.value;" ++ 10 ∷ []

-- What `write_hash_upsert` appends.
unfoldable pub write_hash_upsert : List ℕ → Str
unfolding hex
write_hash_upsert hash = meta_ddl ++ (hash_head ++ (hex hash ++ hash_tail))

-- `Display` of an action.
unfoldable pub action_text : Action → Str
action_text no_action = codes "NO ACTION"
action_text cascade = codes "CASCADE"
action_text set_null = codes "SET NULL"
action_text set_default = codes "SET DEFAULT"
action_text restrict = codes "RESTRICT"

-- The texts of a loop, one behind the other.
unfoldable pub each_text {ℓ} : {A : Type ℓ} → (A → Option Str) → List A → Option Str
each_text f [] = some []
each_text f (x ∷ xs) = do first ← f x; rest ← each_text f xs; some (first ++ rest)

module _ {I : Type 0} (resolve : I → Symbol → Option Str) (schema : DatabaseSchema I) where
  -- `table.columns()`
  unfoldable pub table_columns : ℕ → Option (List ℕ)
  unfolding range
  table_columns table = do t ← table_meta schema table; some (range t.columns_start t.columns_len)

  unfoldable pub default_text : Column → Str
  unfolding sqlite_default
  default_text c = elim c.default_value [
    | none ↦ []
    | some symbol ↦ elim (resolve schema.interner symbol) [
      | none ↦ []
      | some pg_default ↦ elim (sqlite_default pg_default) [
        | none ↦ []
        | some default_value ↦ codes " DEFAULT " ++ default_value
      ]
    ]
  ]

  unfoldable pub key_text : Column → Str
  unfolding is_primary_key is_unique is_nullable
  key_text c =
      if is_primary_key c
      then codes " PRIMARY KEY NOT NULL"
      else (if is_unique c then codes " UNIQUE" else [])
        ++ (if is_nullable c then [] else codes " NOT NULL")

  -- One round of the first loop, without the comma.
  unfoldable pub column_text : ℕ → Option Str
  unfolding column_name ident sqlite_type key_text default_text
  column_text column = do
    c ← column_meta schema column
    name ← column_name resolve schema column
    some (ident name ++ (32 ∷ sqlite_type c.data_type) ++ (key_text c ++ default_text c))

  -- The first loop: a comma stands in front of every column but the first.
  unfoldable pub columns_text : List ℕ → Option Str
  unfolding column_text each_text
  columns_text [] = some []
  columns_text (column ∷ columns) = do
    first ← column_text column
    rest ← each_text (λ c. do t ← column_text c; some (44 ∷ t)) columns
    some (first ++ rest)

  -- The body of the second loop, for one foreign key.
  unfoldable pub foreign_key_text : ℕ → ForeignKey → Option Str
  unfolding table_at table_column_names column_name table_name ident action_text
  foreign_key_text column fk = elim (table_at schema fk.table) [
    | none ↦ some []
    | some ref_table ↦ do
      names ← table_column_names schema ref_table
      elim (get_elem? names fk.column) [
        | none ↦ some []
        | some symbol ↦ elim (resolve schema.interner symbol) [
          | none ↦ some []
          | some ref_col ↦ do
            name ← column_name resolve schema column
            ref_name ← table_name resolve schema ref_table
            some (
                codes ",FOREIGN KEY("
                ++ (ident name
                    ++ (codes ") REFERENCES " ++ (ident ref_name ++ (40 ∷ ident ref_col))))
                ++ (codes ") ON UPDATE "
                    ++ (action_text fk.on_update
                        ++ (codes " ON DELETE " ++ action_text fk.on_delete))))
        ]
      ]
  ]

  unfoldable pub foreign_keys_text : ℕ → Option Str
  unfolding column_foreign_keys foreign_key_text each_text
  foreign_keys_text column = do
    fks ← column_foreign_keys schema column
    each_text (foreign_key_text column) fks

  -- The body of the third loop, for one constraint.
  unfoldable pub check_text : Symbol → Str
  unfolding before_cast
  check_text symbol = elim (resolve schema.interner symbol) [
    | none ↦ []
    | some check ↦ elim check [
      | [] ↦ []
      | c ∷ rest ↦ elim (before_cast (c ∷ rest)) [ none ↦ 44 ∷ c ∷ rest | some front ↦ [] ]
    ]
  ]

  unfoldable pub checks_text : ℕ → Option Str
  unfolding column_constraints check_text each_text
  checks_text column = do
    constraints ← column_constraints schema column
    each_text (λ c. some (check_text c)) constraints

  -- What `write_create_table` appends.
  unfoldable pub write_create_table : ℕ → Option Str
  unfolding table_name ident table_columns columns_text foreign_keys_text checks_text each_text
  write_create_table table = do
    name ← table_name resolve schema table
    columns ← table_columns table
    items ← columns_text columns
    fks ← each_text foreign_keys_text columns
    checks ← each_text checks_text columns
    some (
        codes "CREATE TABLE IF NOT EXISTS "
        ++ (ident name ++ (codes " (" ++ (items ++ (fks ++ (checks ++ (codes ");" ++ 10 ∷ [])))))))

  -- `schema.tables()` counts in u16.
  unfoldable pub build_ddl : Option Str
  unfolding write_create_table write_hash_upsert each_text range
  build_ddl = do
    tables ← each_text write_create_table (range 0 (length schema.tables % 2 ^ 16))
    some (tables ++ (sync_log_ddl ++ write_hash_upsert schema.hash))
