-- ===== src/Sqlite/Alter/Names.antt =====
-- The accessors of a schema, as `alter_tables` of crates/database/src/dialect/sqlite.rs uses them.
use boomerang.Base.{ℕ, ◌≡◌, ◌≢◌, Option, some, List, [], ◌∷◌, All}
use boomerang.Base.Order.{Str}
use boomerang.Interner.Symbol.{Symbol}
use boomerang.Schema.Types.{Column, DatabaseSchema}
use boomerang.Schema.Lookup.{column_meta, table_name, column_name}
use boomerang.Sqlite.Ddl.{table_columns}

-- What the accessors of a schema answer.
pub record Names : Type 0 where
  pub table : ℕ → Str
  pub columns : ℕ → List ℕ
  pub column : ℕ → Column
  pub name : ℕ → Str

module _ {I : Type 0} (resolve : I → Symbol → Option Str) (schema : DatabaseSchema I)
    (names : Names) where
  pub record IsColumn (j : ℕ) : Type 0 where
    pub meta : column_meta schema j ≡ some (names.column j)
    pub named : column_name resolve schema j ≡ some (names.name j)

  -- The names of two columns differ.
  unfoldable pub Differ : List ℕ → Type 0
  Differ [] = Unit
  Differ (j ∷ js) = All (λ i. names.name i ≢ names.name j) js × Differ js

  -- The accessors answer so of the table, and its columns' names differ.
  pub record IsTable (i : ℕ) : Type 0 where
    pub named : table_name resolve schema i ≡ some (names.table i)
    pub columns : table_columns resolve schema i ≡ some (names.columns i)
    pub each : All IsColumn (names.columns i)
    pub differ : Differ (names.columns i)

-- The names of two tables differ.
unfoldable pub TablesDiffer : Names → List ℕ → Type 0
TablesDiffer names [] = Unit
TablesDiffer names (i ∷ is) = All (λ j. names.table j ≢ names.table i) is × TablesDiffer names is
