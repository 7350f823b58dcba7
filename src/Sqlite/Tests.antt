-- ===== src/Sqlite/Tests.antt =====
-- The theorems about crates/database/src/dialect/sqlite.rs at concrete inputs. A symbol is resolved by
-- its place in a list of texts.
use boomerang.Base.{
  ℕ, zero, suc, ◌-◌, ◌<◌, ◌≡◌, ◌⊎◌, refl, Option, none, some, List, [], ◌∷◌, ◌++◌, get_elem?, arith,
}
use boomerang.Base.Order.{Str}
use boomerang.Base.Text.{codes}
use boomerang.Interner.Symbol.{Symbol}
use boomerang.Schema.Types.{contains, int, Column, TableMeta, DatabaseSchema}
use boomerang.Schema.Lookup.{table_name, column_name, primary_key}
use boomerang.Sqlite.Default.{sqlite_default}
use boomerang.Sqlite.Ddl.{meta_ddl, hash_head, hash_tail, write_hash_upsert, write_create_table}
use boomerang.Sqlite.Trigger.{triggers}
use boomerang.Sqlite.Hex.{read_blob, read_blob-write_hash_upsert}
use boomerang.Sqlite.Cut.{sqlite_default_cut}
use boomerang.Sqlite.Keys.{IsNamed, IsAccepted, IsRefused, triggers_lem}

abbrev resolve : List Str → Symbol → Option Str
resolve texts s = get_elem? texts (s.raw - 1)

abbrev table : ℕ → ℕ → ℕ → Option ℕ → TableMeta
table name start len key = record {
  name = record { raw = name };
  columns_start = start;
  columns_len = len;
  primary_key = key;
  fk_start = 0;
  fk_len = 0;
}

abbrev column : ℕ → ℕ → Column
column name bits = record {
  name = record { raw = name };
  data_type = int;
  default_value = none;
  flags = record { bits = bits };
  constraints = record { start = 0; len = 0 };
  foreign_keys = record { start = 0; len = 0 };
}

-- The second table has no primary key.
abbrev schema : DatabaseSchema (List Str)
schema = record {
  tables = table 1 0 1 (some 0) ∷ table 3 1 1 none ∷ [];
  by_name = 0 ∷ 1 ∷ [];
  columns = column 2 2 ∷ column 4 1 ∷ [];
  column_names = record { raw = 2 } ∷ record { raw = 4 } ∷ [];
  constraint_pool = [];
  foreign_key_pool = [];
  hash = [];
  interner = codes "items" ∷ codes "id" ∷ codes "notes" ∷ codes "n" ∷ [];
}

created :
    write_create_table resolve schema 0
    ≡ some (
        codes "CREATE TABLE IF NOT EXISTS \"items\" (\"id\" INTEGER PRIMARY KEY NOT NULL);"
        ++ 10 ∷ [])
unfolding write_create_table contains
created = refl

read_blob-write_hash_upsert_example :
    (blob : Str) × (write_hash_upsert (0 ∷ 255 ∷ 18 ∷ []) ≡ meta_ddl ++ (hash_head ++ blob))
    × (read_blob blob ≡ (0 ∷ 255 ∷ 18 ∷ [], hash_tail))
read_blob-write_hash_upsert_example =
    read_blob-write_hash_upsert (0 ∷ 255 ∷ 18 ∷ []) (omega arith, (omega arith, (omega arith, tt)))

-- The default `'a::b'` becomes `'a`.
sqlite_default_cut_example :
    sqlite_default (39 ∷ (97 ∷ [] ++ 58 ∷ 58 ∷ 98 ∷ []) ++ 39 ∷ []) ≡ some (39 ∷ 97 ∷ [])
sqlite_default_cut_example =
    sqlite_default_cut (97 ∷ []) (98 ∷ []) ((omega arith, omega arith, λ e. ground (arith, e)), tt)

named : IsNamed resolve schema
unfolding table_name column_name primary_key
named = record { tables = tables; keys = keys }
  where
    tables : (i : ℕ) → i < 2 → (name : Str) × (table_name resolve schema i ≡ some name)
    tables zero h = (codes "items", refl)
    tables (suc zero) h = (codes "notes", refl)
    tables (suc (suc i)) h = absurd (ground (arith, h))

    keys :
        (i c : ℕ)
        → primary_key schema i ≡ some (some c)
        → (name : Str) × (column_name resolve schema c ≡ some name)
    keys zero zero e = (codes "id", refl)
    keys zero (suc c) e = absurd (ground (arith, e))
    keys (suc zero) c e = cc
    keys (suc (suc i)) c e = cc

triggers_lem_example :
    IsAccepted resolve schema 0 2 (triggers resolve schema)
    ⊎ IsRefused resolve schema 0 2 (triggers resolve schema)
triggers_lem_example = triggers_lem resolve schema named (omega arith)
