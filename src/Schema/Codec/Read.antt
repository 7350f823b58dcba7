-- ===== src/Schema/Codec/Read.antt =====
-- `DatabaseSchema::decode` and `decode_unchecked` of crates/database/src/core/schema.rs. The two
-- read the same fields in the same order; where `decode` returns `None`, the behaviour of
-- `decode_unchecked` is undefined, so they are one text over the fault.
use boomerang.Base.{ℕ, Option, none, some, List, ◌==◌, if◌then◌else◌}
use boomerang.Base.Outcome.{Run, ok, err, panic, stuck}
use boomerang.Interner.Symbol.{Symbol, from_raw}
use boomerang.Schema.Types.{
  Action, action_from_u8, ForeignKey, PoolRange, Column, TableMeta, DatabaseSchema,
}
use boomerang.Schema.Types.{
  ValueType, null, bool, int, float, decimal, text, blob, json, uuid, timestamp, timestamp_tz, date,
  time, time_tz, custom, bool_array, int_array, float_array, decimal_array, text_array,
}
use boomerang.Schema.Codec.Bytes.{
  Fault, missing, undefined, Decoder, ◌>>=◌, pure, lift, read_bytes, read_uint, read_many,
}
use boomerang.Schema.Codec.Write.{u16_max}

-- The tags of the types without a symbol.
unfoldable pub plain_type : ℕ → Option ValueType
plain_type tag =
    if tag == 0
    then some null
    else if tag == 1
    then some bool
    else if tag == 2
    then some int
    else if tag == 3
    then some float
    else if tag == 4
    then some decimal
    else if tag == 5
    then some text
    else if tag == 6
    then some blob
    else if tag == 7
    then some json
    else if tag == 8
    then some uuid
    else if tag == 9
    then some timestamp
    else if tag == 10
    then some timestamp_tz
    else if tag == 11
    then some date
    else if tag == 12
    then some time
    else if tag == 13
    then some time_tz
    else if tag == 15
    then some bool_array
    else if tag == 16
    then some int_array
    else if tag == 17
    then some float_array
    else if tag == 18
    then some decimal_array
    else if tag == 19
    then some text_array
    else none

module _ (fault : Fault) where
  abbrev pub read_u8 : Decoder ℕ
  read_u8 = read_uint fault 1

  abbrev pub read_u16 : Decoder ℕ
  read_u16 = read_uint fault 2

  abbrev pub read_u32 : Decoder ℕ
  read_u32 = read_uint fault 4

  -- `?` on an `Option`, or `unwrap_unchecked`.
  abbrev pub present : {A : Type 0} → Option A → Run Fault A
  present none = err fault
  present (some a) = ok a

  unfoldable pub read_sym : Decoder Symbol
  read_sym = do raw ← read_u32; lift (present (from_raw raw))

  unfoldable pub read_sym_opt : Decoder (Option Symbol)
  read_sym_opt = do raw ← read_u32; if raw == 0 then pure none else pure (from_raw raw)

  -- `Action::from`, which panics on a value above 4.
  abbrev pub known_action : Option Action → Run Fault Action
  known_action none = panic
  known_action (some a) = ok a

  unfoldable pub read_action : Decoder Action
  read_action = do v ← read_u8; lift (known_action (action_from_u8 v))

  unfoldable pub read_primary_key : Decoder (Option ℕ)
  read_primary_key = do v ← read_u16; pure (if v == u16_max then none else some v)

  unfoldable pub read_table : Decoder TableMeta
  read_table = do
    name ← read_sym
    columns_start ← read_u32
    columns_len ← read_u16
    primary_key ← read_primary_key
    fk_start ← read_u32
    fk_len ← read_u16
    pure (record {
      name = name;
      columns_start = columns_start;
      columns_len = columns_len;
      primary_key = primary_key;
      fk_start = fk_start;
      fk_len = fk_len;
    })

  unfoldable pub read_type : ℕ → Decoder ValueType
  read_type tag =
      if tag == 14 then (do s ← read_sym; pure (custom s)) else lift (present (plain_type tag))

  unfoldable pub read_pool_range : Decoder PoolRange
  read_pool_range = do start ← read_u32; len ← read_u16; pure (record { start = start; len = len })

  unfoldable pub read_column : Decoder Column
  read_column = do
    name ← read_sym
    tag ← read_u8
    data_type ← read_type tag
    default_value ← read_sym_opt
    bits ← read_u8
    constraints ← read_pool_range
    foreign_keys ← read_pool_range
    pure (record {
      name = name;
      data_type = data_type;
      default_value = default_value;
      flags = record { bits = bits };
      constraints = constraints;
      foreign_keys = foreign_keys;
    })

  unfoldable pub read_foreign_key : Decoder ForeignKey
  read_foreign_key = do
    constraint_name ← read_sym
    namespace ← read_sym
    table ← read_u16
    column ← read_u16
    on_update ← read_action
    on_delete ← read_action
    pure (record {
      constraint_name = constraint_name;
      namespace = namespace;
      table = table;
      column = column;
      on_update = on_update;
      on_delete = on_delete;
    })

  -- A length, and that many items.
  unfoldable pub read_list : {A : Type 0} → Decoder A → Decoder (List A)
  read_list d = do n ← read_u32; read_many n d

  -- `load` is `StringInterner::from_bytes`.
  unfoldable pub read_schema : {I : Type 0} → (List ℕ → Run Fault I) → Decoder (DatabaseSchema I)
  read_schema load = do
    hash ← read_bytes fault 32
    interner_len ← read_u32
    interner_bytes ← read_bytes fault interner_len
    interner ← lift (load interner_bytes)
    tables ← read_list read_table
    by_name ← read_list read_u16
    columns ← read_list read_column
    column_names ← read_list read_sym
    constraint_pool ← read_list read_sym
    foreign_key_pool ← read_list read_foreign_key
    pure (record {
      tables = tables;
      by_name = by_name;
      columns = columns;
      column_names = column_names;
      constraint_pool = constraint_pool;
      foreign_key_pool = foreign_key_pool;
      hash = hash;
      interner = interner;
    })

-- What is left of the bytes is not looked at.
abbrev pub value : {A : Type 0} → Run Fault (A × List ℕ) → Run Fault A
value (ok (a, rest)) = ok a
value (err e) = err e
value panic = panic
value stuck = stuck

-- `err missing` is `None`.
unfoldable pub decode :
    {I : Type 0} → (List ℕ → Run Fault I) → List ℕ → Run Fault (DatabaseSchema I)
decode load bytes = value (read_schema missing load bytes)

-- `load` is `StringInterner::from_bytes_unchecked`; `err undefined` is undefined behaviour.
unfoldable pub decode_unchecked :
    {I : Type 0} → (List ℕ → Run Fault I) → List ℕ → Run Fault (DatabaseSchema I)
decode_unchecked load bytes = value (read_schema undefined load bytes)
