-- ===== src/Sqlite/Open/Tests.antt =====
-- The operations of `SqliteDatabase` at a concrete engine, which executes every text and then has the
-- schema's hash. A database is the hash that it has stored.
use boomerang.Base.{
  ℕ, ◌≡◌, refl, Option, none, some, List, [], ◌∷◌, ◌++◌, All, inl, inr, ◌==◌, if◌then◌else◌, arith,
}
use boomerang.Base.Outcome.{ok}
use boomerang.Base.Int.{pos}
use boomerang.Base.Order.{Str}
use boomerang.Base.Text.{codes}
use boomerang.Schema.Types.{contains}
use boomerang.Builder.Sort.{range}
use boomerang.Sqlite.Ddl.{build_ddl, write_create_table}
use boomerang.Sqlite.Alter.Text.{IsCreated}
use boomerang.Sqlite.Sample.{repeat, resolve, schema, names, each}
use boomerang.Sqlite.Live.{add_lives}
use boomerang.Sqlite.Alter.{drop_all, drop_text}
use boomerang.Sqlite.Open.Succeeds.{IsServed, alter_tables_done}
use boomerang.Sqlite.Open.{alter_tables, Sqlx, stored_schema_hash, from}
use boomerang.Sqlite.Open.Ends.{Ends}
use boomerang.Sqlite.Open.Current.{IsSqlx, from-IsCurrent}

abbrev Hash : Type 0
Hash = Option (List ℕ)

abbrev in_order : List Str → List Str
in_order ks = ks

-- The file was made from another schema, in which `a` had the column `k` alone.
abbrev sqlx : Sqlx Str Unit Hash Unit
sqlx = record {
  new_file = some tt;
  write_all = λ bytes file. some file;
  connect = λ file. some (some (repeat 32 9));
  optimize = λ x. x;
  stored_hash = λ x. x;
  live_columns = λ x. inr (
      record {
        table = inr (codes "a");
        column = inr (codes "k");
        ty = inr (codes "INTEGER");
        pk = inr (pos 1);
      }
      ∷ []);
  live_triggers = λ x. inr (codes "__trg_a_INSERT_sync_log__" ∷ []);
  begin = λ x. some tt;
  execute = λ sql tx. inr tx;
  commit = λ tx. some (some schema.hash);
  execute_at_once = λ sql x. inr x;
  checkpoint = λ x. x;
  read = λ x. inr [];
  to_string = λ e. e;
}

abbrev file : List ℕ
file = codes "SQLite format 3" ++ repeat 85 0

sqlx-IsSqlx : IsSqlx resolve schema in_order sqlx
sqlx-IsSqlx = record {
  stores = λ front tx done x script executed committed. cc;
  keeps = λ names x left dropped. cc;
}

made : All (IsCreated resolve schema) (range 0 2)
unfolding range write_create_table contains
made = ((_, refl), ((_, refl), tt))

from-IsCurrent_example :
    Ends
      (λ x. stored_schema_hash sqlx x ≡ some schema.hash)
      (from resolve schema in_order sqlx file)
from-IsCurrent_example =
    from-IsCurrent resolve schema in_order sqlx sqlx-IsSqlx (omega arith) made names each refl file

-- An engine that refuses a text that starts with an `A`, as the text of the plan here does.
abbrev refusing : Sqlx Str Unit Hash Unit
refusing = record sqlx {
  execute = λ sql tx. elim sql [
    | [] ↦ inr tx
    | b ∷ rest ↦ if b == 65 then inl (codes "refused") else inr tx
  ];
}

abbrev ddl : Str
ddl = elim (build_ddl resolve schema) [ none ↦ [] | some sql ↦ sql ]

served : IsServed resolve schema in_order refusing
unfolding build_ddl drop_all drop_text add_lives
served = record {
  begins = λ x. (tt, refl);
  commits = λ tx. (_, refl);
  drops = drops;
  ddl = ddl;
  ddl_eq = refl;
  creates = λ tx. (tx, refl);
  lives = λ x. (_, _, refl, refl);
}
  where
    drops :
        (listed : List Str) (tx : Unit)
        → (done : Unit) × (refusing.execute (drop_all listed) tx ≡ inr done)
    drops [] tx = (tx, refl)
    drops (name ∷ listed) tx = (tx, refl)

alter_tables_done_example :
    (y : Hash) × (alter_tables resolve schema in_order refusing (some (repeat 32 9)) ≡ ok y)
alter_tables_done_example =
    alter_tables_done resolve schema in_order refusing served names (some (repeat 32 9))
      (omega arith) each made
