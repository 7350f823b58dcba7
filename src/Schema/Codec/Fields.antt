-- ===== src/Schema/Codec/Fields.antt =====
-- Each field and record that `encode` of crates/database/src/core/schema.rs writes, read back.
use boomerang.Base.{ℕ, ◌^◌, ◌<◌, ◌≡◌, Option, none, some, List, [], ◌++◌, length, All, arith}
use boomerang.Base.Outcome.{Run, ok}
use mathlib.Core.List.{append_assoc}
use boomerang.Interner.Symbol.{Symbol, from_raw, into_raw}
use boomerang.Schema.Types.{
  Action, no_action, cascade, set_null, set_default, restrict, action_to_u8, action_from_u8,
  ForeignKey, Column, TableMeta,
}
use boomerang.Schema.Types.{ValueType, custom}
use boomerang.Base.LittleEndian.{le_bytes}
use boomerang.Schema.Codec.Bytes.{Fault, Decoder, ◌>>=◌, pure, lift, read_uint, read_uint-le_bytes}
use boomerang.Schema.Codec.Write.{
  u16_max, write_u8, write_sym, write_sym_opt, write_primary_key, write_table, write_foreign_key,
}
use boomerang.Schema.Codec.Read.{
  read_sym, read_sym_opt, read_action, read_primary_key, read_table, read_foreign_key,
}

-- The decoder takes the bytes off the front of any input, and returns the value.
pub record ReadsBack {A : Type 0} (d : Decoder A) (bs : List ℕ) (a : A) : Type 0 where
  pub at : (rest : List ℕ) → d (bs ++ rest) ≡ ok (a, rest)

module _ {A B : Type 0} where
  pub ReadsBack-bind :
      (d : Decoder A) (f : A → Decoder B) {bs cs : List ℕ} {a : A} {b : B}
      → ReadsBack d bs a
      → ReadsBack (f a) cs b
      → ReadsBack (d >>= f) (bs ++ cs) b
  ReadsBack-bind d f {bs} {cs} p q = record {
    at = λ rest. rw (append_assoc bs cs rest, p.at (cs ++ rest), q.at rest);
  }

  pub ReadsBack-map :
      (d : Decoder A) (g : A → B) {bs : List ℕ} {a : A}
      → ReadsBack d bs a
      → ReadsBack (d >>= λ x. pure (g x)) bs (g a)
  ReadsBack-map d g p = record { at = λ rest. rw (p.at rest) }

pub ReadsBack-lift : {A : Type 0} {r : Run Fault A} {a : A} → r ≡ ok a → ReadsBack (lift r) [] a
ReadsBack-lift e = record { at = λ rest. rw e }

-- A value that the encoding holds: every number is in the range of its Rust type, and a symbol's
-- is not 0.
abbrev pub IsSym : Symbol → Type 0
IsSym s = (0 < s.raw) × (s.raw < 2 ^ 32)

abbrev pub IsU16 : ℕ → Type 0
IsU16 v = v < 2 ^ 16

abbrev pub IsU32 : ℕ → Type 0
IsU32 v = v < 2 ^ 32

abbrev pub IsSymOpt : Option Symbol → Type 0
IsSymOpt none = Unit {0}
IsSymOpt (some s) = IsSym s

-- 65535 stands for a table without a primary key.
abbrev pub IsPrimaryKey : Option ℕ → Type 0
IsPrimaryKey none = Unit {0}
IsPrimaryKey (some i) = i < u16_max

abbrev pub IsType : ValueType → Type 0
IsType (custom s) = IsSym s
IsType _ = Unit {0}

pub record IsTable (t : TableMeta) : Type 0 where
  pub name : IsSym t.name
  pub columns_start : IsU32 t.columns_start
  pub columns_len : IsU16 t.columns_len
  pub primary_key : IsPrimaryKey t.primary_key
  pub fk_start : IsU32 t.fk_start
  pub fk_len : IsU16 t.fk_len

pub record IsColumn (c : Column) : Type 0 where
  pub name : IsSym c.name
  pub data_type : IsType c.data_type
  pub default_value : IsSymOpt c.default_value
  pub bits : c.flags.bits < 2 ^ 8
  pub constraints : IsU32 c.constraints.start × IsU16 c.constraints.len
  pub foreign_keys : IsU32 c.foreign_keys.start × IsU16 c.foreign_keys.len

pub record IsForeignKey (fk : ForeignKey) : Type 0 where
  pub constraint_name : IsSym fk.constraint_name
  pub namespace : IsSym fk.namespace
  pub table : IsU16 fk.table
  pub column : IsU16 fk.column

abbrev pub IsListOf : {A : Type 0} → (A → Type 0) → List A → Type 0
IsListOf P xs = (length xs < 2 ^ 32) × All P xs

module _ (fault : Fault) where
  pub uint-ReadsBack : (n v : ℕ) → v < 256 ^ n → ReadsBack (read_uint fault n) (le_bytes n v) v
  uint-ReadsBack n v h = record { at = λ rest. read_uint-le_bytes fault n v rest h }

  from_raw-into_raw : (s : Symbol) → IsSym s → from_raw (into_raw s) ≡ some s
  unfolding from_raw into_raw
  from_raw-into_raw s h = ground arith

  pub sym-ReadsBack : (s : Symbol) → IsSym s → ReadsBack (read_sym fault) (write_sym s) s
  unfolding read_sym into_raw
  sym-ReadsBack s h = record {
    at = λ rest. rw (read_uint-le_bytes fault 4 s.raw rest h.1) (rw (from_raw-into_raw s h));
  }

  pub sym_opt-ReadsBack :
      (o : Option Symbol) → IsSymOpt o → ReadsBack (read_sym_opt fault) (write_sym_opt o) o
  unfolding read_sym_opt write_sym_opt into_raw
  sym_opt-ReadsBack none h = record {
    at = λ rest. rw (read_uint-le_bytes fault 4 0 rest (omega arith));
  }
  sym_opt-ReadsBack (some s) h = record {
    at = λ rest.
        rw (read_uint-le_bytes fault 4 s.raw rest h.1) (ground (arith, from_raw-into_raw s h));
  }

  action-ReadsBack : (a : Action) → ReadsBack (read_action fault) (write_u8 (action_to_u8 a)) a
  unfolding read_action action_to_u8 action_from_u8
  action-ReadsBack no_action = record {
    at = λ rest. rw (read_uint-le_bytes fault 1 0 rest (omega arith));
  }
  action-ReadsBack cascade = record {
    at = λ rest. rw (read_uint-le_bytes fault 1 1 rest (omega arith));
  }
  action-ReadsBack set_null = record {
    at = λ rest. rw (read_uint-le_bytes fault 1 2 rest (omega arith));
  }
  action-ReadsBack set_default = record {
    at = λ rest. rw (read_uint-le_bytes fault 1 3 rest (omega arith));
  }
  action-ReadsBack restrict = record {
    at = λ rest. rw (read_uint-le_bytes fault 1 4 rest (omega arith));
  }

  primary_key-ReadsBack :
      (o : Option ℕ) → IsPrimaryKey o → ReadsBack (read_primary_key fault) (write_primary_key o) o
  unfolding read_primary_key write_primary_key
  primary_key-ReadsBack none h = record {
    at = λ rest. rw (read_uint-le_bytes fault 2 65535 rest (omega arith));
  }
  primary_key-ReadsBack (some i) h = record {
    at = λ rest. rw (read_uint-le_bytes fault 2 i rest (omega arith)) (ground arith);
  }

  pub table-ReadsBack : (t : TableMeta) → IsTable t → ReadsBack (read_table fault) (write_table t) t
  unfolding read_table write_table
  table-ReadsBack t h = ReadsBack-bind _ _ (sym-ReadsBack t.name h.name) (
      ReadsBack-bind _ _ (uint-ReadsBack 4 t.columns_start h.columns_start) (
        ReadsBack-bind _ _ (uint-ReadsBack 2 t.columns_len h.columns_len) (
          ReadsBack-bind _ _ (primary_key-ReadsBack t.primary_key h.primary_key) (
            ReadsBack-bind _ _ (uint-ReadsBack 4 t.fk_start h.fk_start)
              (ReadsBack-map _ _ (uint-ReadsBack 2 t.fk_len h.fk_len))))))

  pub foreign_key-ReadsBack :
      (fk : ForeignKey)
      → IsForeignKey fk
      → ReadsBack (read_foreign_key fault) (write_foreign_key fk) fk
  unfolding read_foreign_key write_foreign_key
  foreign_key-ReadsBack fk h =
      ReadsBack-bind _ _ (sym-ReadsBack fk.constraint_name h.constraint_name) (
        ReadsBack-bind _ _ (sym-ReadsBack fk.namespace h.namespace) (
          ReadsBack-bind _ _ (uint-ReadsBack 2 fk.table h.table) (
            ReadsBack-bind _ _ (uint-ReadsBack 2 fk.column h.column) (
              ReadsBack-bind _ _ (action-ReadsBack fk.on_update)
                (ReadsBack-map _ _ (action-ReadsBack fk.on_delete))))))
