-- ===== src/Sqlite/Alter.antt =====
-- The plan of `alter_tables` in crates/database/src/dialect/sqlite.rs. The statements are written down
-- before their text, which is the same in their order. `order` is the order in which a `HashMap` is
-- iterated; `none` of an outer option is a panic.
use boomerang.Base.{
  ℕ, ◌%◌, ◌^◌, Bool, true, false, ◌||◌, not, Option, none, some, List, [], ◌∷◌, ◌++◌, map, length,
  if◌then◌else◌,
}
use boomerang.Base.Order.{Str}
use boomerang.Base.Panic.{◌>>=◌}
use boomerang.Base.Text.{codes}
use boomerang.Interner.Symbol.{Symbol}
use boomerang.Schema.Types.{DatabaseSchema}
use boomerang.Schema.Lookup.{
  is_nullable, is_primary_key, is_unique, column_meta, table_name, column_name,
}
use boomerang.Builder.Sort.{range}
use boomerang.Sql.Quote.{ident}
use boomerang.Sqlite.Default.{sqlite_type, eq_ignore_case}
use boomerang.Sqlite.Ddl.{
  each_text, table_columns, default_text, write_create_table, write_hash_upsert,
}
use boomerang.Sqlite.Live.{Entries, LiveColumn, find, without, keys}
pub mod Names
pub mod Columns
pub mod Wanted
pub mod Change
pub mod Reading
pub mod Text
pub mod Case
mod Tests

-- What a statement is of: a table of the schema, the name of a live one, a column of the schema or the
-- name of a live one.
pub data Statement : Type 0 where
  create_table : ℕ → Statement
  drop_table : Str → Statement
  add_column : Str → ℕ → Statement
  drop_column : Str → Str → Statement

abbrev pub differ : Bool → Bool → Bool
differ true b = not b
differ false b = b

-- Where the loop over the columns stands: `rebuild`, `added` and `live_cols`.
pub record Scan : Type 0 where
  pub rebuild : Bool
  pub added : List ℕ
  pub live_cols : Entries LiveColumn

-- `live_cols.values().any(|&(_, pk)| pk)`
unfoldable pub any_key : Entries LiveColumn → Bool
any_key [] = false
any_key (e ∷ es) = e.1.pk || any_key es

unfoldable pub drop_text : Str → Str
unfolding ident
drop_text name = codes "DROP TABLE IF EXISTS " ++ (ident name ++ (59 ∷ 10 ∷ []))

-- The text that is sent when the plan could not be executed.
unfoldable pub drop_all : List Str → Str
unfolding drop_text
drop_all [] = []
drop_all (name ∷ names) = drop_text name ++ drop_all names

unfoldable pub unique_text : Str → Str → Str
unfolding ident
unique_text table column =
    codes "CREATE UNIQUE INDEX IF NOT EXISTS "
    ++ (ident (codes "__uniq_" ++ (table ++ (95 ∷ (column ++ codes "__"))))
        ++ (codes " ON " ++ (ident table ++ (40 ∷ (ident column ++ (41 ∷ 59 ∷ 10 ∷ []))))))

module _ {I : Type 0} (resolve : I → Symbol → Option Str) (schema : DatabaseSchema I) where
  -- The loop over the columns of a table; it ends at the first that the table is rebuilt for.
  unfoldable pub scan : List ℕ → List ℕ → Entries LiveColumn → Option Scan
  scan [] added live_cols = some (record { rebuild = false; added = added; live_cols = live_cols })
  scan (column ∷ columns) added live_cols = do
    c ← column_meta schema column
    name ← column_name resolve schema column
    let rest = without name live_cols in
        let stop = some (record { rebuild = true; added = added; live_cols = rest }) in
        elim (find name live_cols) [
          | some live ↦
              let kept = scan columns added rest in
              if not (eq_ignore_case live.ty (sqlite_type c.data_type))
                || differ live.pk (is_primary_key c)
              then stop
              else kept
          | none ↦
              let more = scan columns (added ++ column ∷ []) rest in
              if is_primary_key c then stop else more
        ]

  -- The body of the loop over `added`.
  unfoldable pub add_text : Str → ℕ → Option Str
  add_text table column = do
    c ← column_meta schema column
    name ← column_name resolve schema column
    let default = default_text resolve schema c in
        some (
          codes "ALTER TABLE "
          ++ (ident table
              ++ (codes " ADD COLUMN "
                  ++ (ident name
                      ++ ((32 ∷ sqlite_type c.data_type)
                          ++ ((elim default [
                            | [] ↦ []
                            | d ∷ ds ↦ (d ∷ ds) ++ (if is_nullable c then [] else codes " NOT NULL")
                          ])
                              ++ ((59 ∷ 10 ∷ [])
                                  ++ (if is_unique c then unique_text table name else []))))))))

  unfoldable pub statement_text : Statement → Option Str
  statement_text (create_table table) = write_create_table resolve schema table
  statement_text (drop_table name) = some (drop_text name)
  statement_text (add_column table column) = add_text table column
  statement_text (drop_column table column) = some (
      codes "ALTER TABLE "
      ++ (ident table ++ (codes " DROP COLUMN " ++ (ident column ++ (59 ∷ 10 ∷ [])))))

module _ {I : Type 0} (resolve : I → Symbol → Option Str) (schema : DatabaseSchema I)
    (order : List Str → List Str) where
  -- What is done for a table that is live, with these columns.
  unfoldable pub change_table : ℕ → Str → Entries LiveColumn → Option (List Statement)
  change_table table name live = do
    columns ← table_columns resolve schema table
    s ← scan resolve schema columns [] live
    some (
        if s.rebuild || any_key s.live_cols
        then drop_table name ∷ create_table table ∷ []
        else map (add_column name) s.added ++ map (drop_column name) (order (keys s.live_cols)))

  -- The body of the loop over the tables, with what `existing.remove` answered.
  unfoldable pub table_plan : ℕ → Str → Option (Entries LiveColumn) → Option (List Statement)
  table_plan table name none = some (create_table table ∷ [])
  table_plan table name (some live) = change_table table name live

  unfoldable pub tables_plan : List ℕ → Entries (Entries LiveColumn) → Option (List Statement)
  tables_plan [] existing = some (map drop_table (order (keys existing)))
  tables_plan (table ∷ tables) existing = do
    name ← table_name resolve schema table
    first ← table_plan table name (find name existing)
    rest ← tables_plan tables (without name existing)
    some (first ++ rest)

  -- `schema.tables()` counts in u16.
  unfoldable pub plan : Entries (Entries LiveColumn) → Option (List Statement)
  plan = tables_plan (range 0 (length schema.tables % 2 ^ 16))

  -- The text that is executed first.
  unfoldable pub alter_sql : Entries (Entries LiveColumn) → Option Str
  alter_sql existing = do
    statements ← plan existing
    text ← each_text (statement_text resolve schema) statements
    some (text ++ write_hash_upsert schema.hash)
