-- ===== src/Sqlite/Alter/Case.antt =====
-- The plan of `alter_tables` in crates/database/src/dialect/sqlite.rs on a table whose live name differs
-- from the schema's in case alone. The plan tells them apart, SQLite does not. SQLite is an argument:
-- what it makes of a database by executing a text, and its equality `same` of names.
use boomerang.Base.{
  ℕ, ◌%◌, ◌^◌, ◌<◌, ◌≡◌, refl, sym, ap, ◌∙◌, ◌≢◌, inl, inr, Bool, true, Option, none, some, List,
  [], ◌∷◌, ◌++◌, map, length, All, Bool-cases, Option-cases, arith,
}
use mathlib.Core.Path.{subst}
use boomerang.Base.Order.{Str, eq_str, eq_str_eq}
use boomerang.Base.Panic.{◌>>=◌}
use boomerang.Base.Text.{codes}
use boomerang.Interner.Symbol.{Symbol}
use boomerang.Schema.Types.{DatabaseSchema}
use boomerang.Builder.Sort.{range}
use boomerang.Sql.Quote.{ident}
use boomerang.Sqlite.Live.{Entries, LiveColumn, find, without, keys, has, has-without_other}
use boomerang.Sqlite.Alter.{
  Statement, drop_table, drop_text, statement_text, change_table, table_plan, tables_plan, plan,
}
use boomerang.Sqlite.Alter.Names.{Names, IsTable}
use boomerang.Sqlite.Alter.Columns.{scan_ends}

-- SQL's statement that drops the table of a name, if there is one.
abbrev pub drop_sql : Str → Str
drop_sql name = codes "DROP TABLE IF EXISTS " ++ (ident name ++ (59 ∷ 10 ∷ []))

module _ {I S : Type 0} (resolve : I → Symbol → Option Str) (schema : DatabaseSchema I)
    (execute : Str → S → S) where
  -- What executing the texts of the statements makes of a database, each behind those before it. A
  -- statement without a text is left out.
  unfoldable pub executes : List Statement → S → S
  executes [] db = db
  executes (s ∷ ss) db = elim (statement_text resolve schema s) [
    | none ↦ executes ss db
    | some text ↦ executes ss (execute text db)
  ]

  executes-append :
      (ss ts : List Statement) (db : S) → executes (ss ++ ts) db ≡ executes ts (executes ss db)
  unfolding executes
  executes-append [] ts db = refl
  executes-append (s ∷ ss) ts db = elim (Option-cases (statement_text resolve schema s)) [
    | inl e ↦ rw (executes, e) (executes-append ss ts db)
    | inr (text, e) ↦ rw (executes, e) (executes-append ss ts (execute text db))
  ]

module _ {I S : Type 0} (resolve : I → Symbol → Option Str) (schema : DatabaseSchema I)
    (order : List Str → List Str) (same : Str → Str → Bool) (names : Names) (n m : Str)
    (execute : Str → S → S) (IsAbsent : S → Type 0) where
  abbrev Runs : List Statement → S → S
  Runs = executes resolve schema execute

  -- A table is planned for.
  planned :
      (i : ℕ) (found : Option (Entries LiveColumn))
      → IsTable resolve schema names i
      → (ss : List Statement) × (table_plan resolve schema order i (names.table i) found ≡ some ss)
  unfolding table_plan change_table
  planned i none is = (_, refl)
  planned i (some live) is =
      let (s, e, _) = scan_ends resolve schema names (names.columns i) [] live is.each tt in
      rw (change_table, is.columns, ◌>>=◌, e, ◌>>=◌) (_, refl)

  module _ (takes_away : (k : Str) (db : S) → same k n ≡ true → IsAbsent (execute (drop_sql k) db))
      (keeps_absence : (k : Str) (db : S) → IsAbsent db → IsAbsent (execute (drop_sql k) db)) where
    drops_keep : (ds : List Str) (db : S) → IsAbsent db → IsAbsent (Runs (map drop_table ds) db)
    unfolding executes statement_text drop_text
    drops_keep [] db gone = gone
    drops_keep (d ∷ ds) db gone = drops_keep ds (execute (drop_sql d) db) (keeps_absence d db gone)

    drops_lose :
        (ds : List Str) (db : S)
        → has m ds ≡ true
        → same m n ≡ true
        → IsAbsent (Runs (map drop_table ds) db)
    unfolding executes statement_text drop_text has
    drops_lose [] db h s = cc
    drops_lose (d ∷ ds) db h s = elim (Bool-cases (eq_str d m)) [
      | inl hit ↦
          let e : d ≡ m = eq_str_eq d m hit in
          drops_keep ds (execute (drop_sql d) db) (takes_away d db (ap (λ k. same k n) e ∙ s))
      | inr miss ↦ drops_lose ds (execute (drop_sql d) db) (rw (has, miss) at h) s
    ]

    tables_plan_lost :
        (is : List ℕ) (existing : Entries (Entries LiveColumn))
        → All (IsTable resolve schema names) is
        → All (λ i. names.table i ≢ m) is
        → has m (keys existing) ≡ true
        → same m n ≡ true
        → ((k : Str) (ks : List Str) → has k (order ks) ≡ has k ks)
        → (ss : List Statement) × (tables_plan resolve schema order is existing ≡ some ss)
          × ((db : S) → IsAbsent (Runs ss db))
    unfolding tables_plan
    tables_plan_lost [] existing each apart live s has-order = (
      map drop_table (order (keys existing)),
      refl,
      λ db. drops_lose (order (keys existing)) db (has-order m (keys existing) ∙ live) s,
    )
    tables_plan_lost (i ∷ is) existing each apart live s has-order =
        let k = names.table i in
        let table : IsTable resolve schema names i = each.0 in
        let (first, e) = planned i (find k existing) table in
        let stays = has-without_other m k existing (λ at. apart.0 (sym at)) ∙ live in
        let (rest, e', lost) =
          tables_plan_lost is (without k existing) each.1 apart.1 stays s has-order in
        (
          first ++ rest,
          rw (tables_plan, table.named, ◌>>=◌, e, ◌>>=◌, e') refl,
          λ db.
              subst IsAbsent (sym (executes-append resolve schema execute first rest db))
                (lost (Runs first db)),
        )

    -- In a schema of fewer than 2 ^ 16 tables, whose names and columns are read, alter_tables makes a
    -- plan, and executing its statements' texts one behind the other leaves no table of a name that a live
    -- table has to SQLite, whatever the database, where no table of the schema has exactly the live
    -- table's name: a table that was renamed in case alone is lost. It holds of every `execute` by which
    -- DROP TABLE IF EXISTS leaves no table of the name, and a table missing that is missing.
    pub plan_lost :
        (existing : Entries (Entries LiveColumn))
        → length schema.tables < 2 ^ 16
        → All (IsTable resolve schema names) (range 0 (length schema.tables))
        → All (λ i. names.table i ≢ m) (range 0 (length schema.tables))
        → has m (keys existing) ≡ true
        → same m n ≡ true
        → ((k : Str) (ks : List Str) → has k (order ks) ≡ has k ks)
        → (ss : List Statement) × (plan resolve schema order existing ≡ some ss)
          × ((db : S) → IsAbsent (executes resolve schema execute ss db))
    unfolding plan
    plan_lost existing few each apart live s has-order =
        let cast : length schema.tables % 2 ^ 16 ≡ length schema.tables = ground (arith, few) in
        let (ss, e, lost) =
          tables_plan_lost (range 0 (length schema.tables)) existing each apart live s has-order in
        (ss, ap (λ k. tables_plan resolve schema order (range 0 k) existing) cast ∙ e, lost)
