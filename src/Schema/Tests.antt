-- ===== src/Schema/Tests.antt =====
-- The theorems about crates/database/src/core/schema.rs at concrete inputs. The interner is taken as
-- its bytes.
use boomerang.Base.{ℕ, ◌≡◌, ◌≢◌, refl, none, some, List, [], ◌∷◌, ◌++◌, drop, arith}
use boomerang.Base.Outcome.{Run, ok, panic}
use boomerang.Interner.Symbol.{Symbol, into_raw}
use boomerang.Schema.Types.{
  cascade, restrict, custom, text, ForeignKey, PoolRange, Column, DatabaseSchema,
}
use boomerang.Schema.Codec.Bytes.{Fault, missing}
use boomerang.Base.LittleEndian.{le_bytes}
use boomerang.Schema.Codec.Write.{
  encode, write_sym, write_u8, write_u16, write_each, write_table, write_column, write_foreign_key,
}
use boomerang.Schema.Codec.Read.{decode, decode_unchecked, read_foreign_key}
use boomerang.Schema.Codec.Fields.{IsForeignKey}
use boomerang.Schema.Codec.RoundTrip.{IsEncodable, decode-encode}
use boomerang.Schema.Codec.Prefix.{decode_truncated}
use boomerang.Schema.Codec.BadAction.{foreign_key_panics}

abbrev sym : ℕ → Symbol
sym n = record { raw = n }

abbrev fk : ForeignKey
fk = record {
  constraint_name = sym 5;
  namespace = sym 6;
  table = 0;
  column = 1;
  on_update = cascade;
  on_delete = restrict;
}

abbrev pool : ℕ → ℕ → PoolRange
pool start len = record { start = start; len = len }

abbrev id_column : Column
id_column = record {
  name = sym 2;
  data_type = text;
  default_value = none;
  flags = record { bits = 2 };
  constraints = pool 0 1;
  foreign_keys = pool 0 0;
}

abbrev kind_column : Column
kind_column = record {
  name = sym 3;
  data_type = custom (sym 70000);
  default_value = some (sym 4);
  flags = record { bits = 1 };
  constraints = pool 1 0;
  foreign_keys = pool 0 1;
}

abbrev hash : List ℕ
hash = le_bytes 32 123456789

abbrev sample : DatabaseSchema (List ℕ)
sample = record {
  tables =
      record {
        name = sym 1;
        columns_start = 0;
        columns_len = 2;
        primary_key = some 0;
        fk_start = 0;
        fk_len = 1;
      }
      ∷ [];
  by_name = 0 ∷ [];
  columns = id_column ∷ kind_column ∷ [];
  column_names = sym 2 ∷ sym 3 ∷ [];
  constraint_pool = sym 9 ∷ [];
  foreign_key_pool = fk ∷ [];
  hash = hash;
  interner = 16 ∷ 0 ∷ 0 ∷ 0 ∷ [];
}

abbrev bytes : List ℕ → List ℕ
bytes i = i

abbrev load : List ℕ → Run Fault (List ℕ)
load bs = ok bs

fk-IsForeignKey : IsForeignKey fk
fk-IsForeignKey = omega arith

sample-IsEncodable : IsEncodable bytes sample
unfolding le_bytes
sample-IsEncodable = record {
  hash = refl;
  interner = omega arith;
  tables = omega arith;
  by_name = omega arith;
  columns = omega arith;
  column_names = omega arith;
  constraint_pool = omega arith;
  foreign_key_pool = omega arith;
}

decode-encode_example :
    (decode load (encode bytes sample ++ (7 ∷ [])) ≡ ok sample)
    × (decode_unchecked load (encode bytes sample ++ (7 ∷ [])) ≡ ok sample)
decode-encode_example =
    decode-encode bytes load load sample (16 ∷ 0 ∷ 0 ∷ 0 ∷ []) (7 ∷ []) sample-IsEncodable refl refl

decode_truncated_example :
    ((t : DatabaseSchema (List ℕ)) → decode load hash ≢ ok t) × (decode load hash ≢ panic)
unfolding encode write_each le_bytes into_raw write_table write_column write_foreign_key
decode_truncated_example =
    decode_truncated bytes load sample (16 ∷ 0 ∷ 0 ∷ 0 ∷ []) hash (drop 33 (encode bytes sample)) 4
      sample-IsEncodable refl refl

foreign_key_panics_example :
    read_foreign_key missing (
      write_sym (sym 5)
      ++ (write_sym (sym 6) ++ (write_u16 0 ++ (write_u16 1 ++ (write_u8 5 ++ (0 ∷ []))))))
    ≡ panic
foreign_key_panics_example =
    foreign_key_panics missing fk 5 (0 ∷ []) fk-IsForeignKey (omega arith) (omega arith)
