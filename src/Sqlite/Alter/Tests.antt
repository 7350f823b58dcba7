-- ===== src/Sqlite/Alter/Tests.antt =====
-- The plan of `alter_tables` at concrete inputs.
use boomerang.Base.{
  ◌≡◌, refl, Bool, true, false, some, List, [], ◌∷◌, ◌++◌, arith, if◌then◌else◌, Option, ap, ◌∙◌,
}
use boomerang.Base.Order.{Str, eq_str}
use boomerang.Base.Text.{codes}
use boomerang.Schema.Types.{contains}
use boomerang.Schema.Lookup.{table_name, column_name, is_primary_key, is_unique}
use boomerang.Sql.Quote.{ident}
use boomerang.Builder.Sort.{range}
use boomerang.Sqlite.Default.{eq_ignore_case, sqlite_type}
use boomerang.Sqlite.Ddl.{table_columns, default_text}
use boomerang.Sqlite.Live.{Entries, LiveColumn, find, without, keys, has}
use boomerang.Sqlite.Sample.{resolve, schema, names, each}
use boomerang.Sqlite.Alter.{
  Statement, create_table, drop_table, add_column, drop_column, plan, any_key, statement_text,
  tables_plan, table_plan, change_table, scan, add_text, drop_text,
}
use boomerang.Sqlite.Alter.Wanted.{table_changes}
use boomerang.Sqlite.Alter.Reading.{Reading, drops, read_statement, read_drop}
use boomerang.Sqlite.Alter.Case.{drop_sql, executes, plan_lost}

abbrev in_order : List Str → List Str
in_order ks = ks

abbrev live : Bool → LiveColumn
live pk = record { ty = codes "integer"; pk = pk }

-- `a` lacks `v` and has a `w`, and there is a `c`.
abbrev existing : Entries (Entries LiveColumn)
existing =
    (codes "a", (codes "k", live true) ∷ (codes "w", live false) ∷ [])
    ∷ (codes "c", (codes "k", live true) ∷ [])
    ∷ []

planned_test :
    plan resolve schema in_order existing
    ≡ some (
        add_column (codes "a") 1
        ∷ drop_column (codes "a") (codes "w")
        ∷ create_table 1
        ∷ drop_table (codes "c")
        ∷ [])
unfolding plan contains tables_plan range table_name table_plan find eq_str change_table
    table_columns scan column_name eq_ignore_case sqlite_type is_primary_key without any_key keys
planned_test = refl

added_test :
    statement_text resolve schema (add_column (codes "a") 1)
    ≡ some (codes "ALTER TABLE \"a\" ADD COLUMN \"v\" INTEGER;" ++ 10 ∷ [])
unfolding statement_text contains add_text column_name ident sqlite_type default_text is_unique
added_test = refl

-- The table `a` is changed, and not created again.
changes_test :
    table_changes names in_order (range 0 2) existing
    ≡ add_column (codes "a") 1 ∷ drop_column (codes "a") (codes "w") ∷ create_table 1 ∷ []
unfolding table_changes contains range find eq_str eq_ignore_case sqlite_type is_primary_key any_key
    keys
changes_test = refl

-- A database is seen as whether it has a table of the name `a`; a text that is not read as a drop of a
-- table may create it.
abbrev execute_reading : Option Reading → Bool → Bool
execute_reading (some (drops k)) db = if eq_ignore_case k (codes "a") then false else db
execute_reading _ db = true

abbrev execute : Str → Bool → Bool
execute text db = execute_reading (read_statement text) db

abbrev IsAbsent : Bool → Type 0
IsAbsent db = db ≡ false

read_drop_sql : (k : Str) → read_statement (drop_sql k) ≡ some (drops k)
unfolding drop_text
read_drop_sql k = read_drop k

drops_it :
    (k : Str) (db : Bool) → eq_ignore_case k (codes "a") ≡ true → IsAbsent (execute (drop_sql k) db)
drops_it k db s =
    ap (λ r. execute_reading r db) (read_drop_sql k) ∙ ap (λ b. if b then false else db) s

execute-IsAbsent : (k : Str) (db : Bool) → IsAbsent db → IsAbsent (execute (drop_sql k) db)
execute-IsAbsent k db gone =
    ap (λ r. execute_reading r db) (read_drop_sql k)
    ∙ dropped (eq_ignore_case k (codes "a")) db gone
  where
    dropped : (b db : Bool) → db ≡ false → (if b then false else db) ≡ false
    dropped true db gone = refl
    dropped false db gone = gone

-- `A` is live.
plan_lost_example :
    (ss : List Statement) × (plan resolve schema in_order
        ((codes "A", (codes "k", live true) ∷ []) ∷ [])
      ≡ some ss)
    × ((db : Bool) → IsAbsent (executes resolve schema execute ss db))
unfolding eq_ignore_case has keys eq_str range
plan_lost_example =
    plan_lost resolve schema in_order eq_ignore_case names (codes "a") (codes "A") execute IsAbsent
      drops_it execute-IsAbsent ((codes "A", (codes "k", live true) ∷ []) ∷ []) (omega arith) each
      ((λ e. ground (arith, e)), ((λ e. ground (arith, e)), tt)) refl refl (λ k ks. refl)
