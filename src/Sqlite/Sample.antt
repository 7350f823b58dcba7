-- ===== src/Sqlite/Sample.antt =====
-- A schema at which theorems about crates/database/src/dialect/sqlite.rs are tried: the tables `a`, with
-- the columns `k` and `v`, and `b`, with the column `k`. A symbol is resolved by its place in a list.
use boomerang.Base.{
  ℕ, zero, suc, ◌-◌, refl, Option, none, some, List, [], ◌∷◌, get_elem?, All, arith,
}
use boomerang.Base.Order.{Str}
use boomerang.Base.Text.{codes}
use boomerang.Interner.Symbol.{Symbol}
use boomerang.Schema.Types.{int, Column, TableMeta, DatabaseSchema}
use boomerang.Schema.Lookup.{table_name, column_name}
use boomerang.Builder.Sort.{range}
use boomerang.Sqlite.Ddl.{table_columns}
use boomerang.Sqlite.Alter.Names.{Names, IsTable, Differ}

abbrev pub repeat : ℕ → ℕ → List ℕ
repeat zero b = []
repeat (suc n) b = b ∷ repeat n b

abbrev pub resolve : List Str → Symbol → Option Str
resolve texts s = get_elem? texts (s.raw - 1)

abbrev pub table : ℕ → ℕ → ℕ → TableMeta
table name start len = record {
  name = record { raw = name };
  columns_start = start;
  columns_len = len;
  primary_key = some 0;
  fk_start = 0;
  fk_len = 0;
}

abbrev pub column : ℕ → ℕ → Column
column name bits = record {
  name = record { raw = name };
  data_type = int;
  default_value = none;
  flags = record { bits = bits };
  constraints = record { start = 0; len = 0 };
  foreign_keys = record { start = 0; len = 0 };
}

abbrev pub schema : DatabaseSchema (List Str)
schema = record {
  tables = table 1 0 2 ∷ table 2 2 1 ∷ [];
  by_name = 0 ∷ 1 ∷ [];
  columns = column 3 2 ∷ column 4 1 ∷ column 3 2 ∷ [];
  column_names = record { raw = 3 } ∷ record { raw = 4 } ∷ record { raw = 3 } ∷ [];
  constraint_pool = [];
  foreign_key_pool = [];
  hash = repeat 32 7;
  interner = codes "a" ∷ codes "b" ∷ codes "k" ∷ codes "v" ∷ [];
}

abbrev pub table_of : ℕ → Str
table_of zero = codes "a"
table_of (suc i) = codes "b"

abbrev pub columns_of : ℕ → List ℕ
columns_of zero = 0 ∷ 1 ∷ []
columns_of (suc i) = 2 ∷ []

abbrev pub column_of : ℕ → Column
column_of zero = column 3 2
column_of (suc zero) = column 4 1
column_of (suc (suc j)) = column 3 2

abbrev pub name_of : ℕ → Str
name_of zero = codes "k"
name_of (suc zero) = codes "v"
name_of (suc (suc j)) = codes "k"

abbrev pub names : Names
names = record { table = table_of; columns = columns_of; column = column_of; name = name_of }

pub each : All (IsTable resolve schema names) (range 0 2)
unfolding range table_name table_columns column_name Differ
each = (first, (second, tt))
  where
    first : IsTable resolve schema names 0
    first = record {
      named = refl;
      columns = refl;
      each = (record { meta = refl; named = refl }, (record { meta = refl; named = refl }, tt));
      differ = (((λ e. ground (arith, e)), tt), (tt, tt));
    }

    second : IsTable resolve schema names 1
    second = record {
      named = refl;
      columns = refl;
      each = (record { meta = refl; named = refl }, tt);
      differ = (tt, tt);
    }
