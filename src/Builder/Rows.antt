-- ===== src/Builder/Rows.antt =====
-- `DatabaseSchemaBuilder::add_row` and `finish_table` of
-- crates/database/src/core/schema_builder.rs. `intern` is `StringInterner::get_or_intern`; `none` is
-- its panic. The u32 differences of lengths do not go below 0 while the lists have fewer than 2 ^ 32
-- items.
use boomerang.Base.{
  ◌-◌, ◌%◌, ◌^◌, Bool, true, false, Option, none, some, List, [], ◌∷◌, ◌++◌, length, if◌then◌else◌,
}
use boomerang.Base.Order.{Str, eq_str}
use boomerang.Base.Panic.{◌>>=◌}
use boomerang.Base.Text.{codes}
use Prim.Native.String.{String}
use boomerang.Interner.Symbol.{Symbol, eq_symbol}
use boomerang.Schema.Types.{
  Column, ColumnFlags, nullable_flag, primary_key_flag, unique_flag, set_flag,
}
use boomerang.Schema.Types.{
  ValueType, bool, int, float, decimal, text, blob, json, uuid, timestamp, timestamp_tz, date, time,
  time_tz, custom, bool_array, int_array, float_array, decimal_array, text_array,
}
use boomerang.Builder.State.{RawForeignKey, DatabaseSchemaBuilder, Row}

unfoldable pub one_of : Str → List String → Bool
one_of name [] = false
one_of name (s ∷ ss) = let rest = one_of name ss in if eq_str name (codes s) then true else rest

-- The `match` on the type's name, but for its last arm.
unfoldable pub known_type : Str → Option ValueType
unfolding one_of
known_type name =
    if one_of name ("boolean" ∷ "bool" ∷ [])
    then some bool
    else if one_of name (
        "smallint" ∷ "integer" ∷ "bigint" ∷ "int2" ∷ "int4" ∷ "int8" ∷ "serial" ∷ "bigserial"
        ∷ "smallserial" ∷ "oid" ∷ [])
    then some int
    else if one_of name ("real" ∷ "double precision" ∷ "float4" ∷ "float8" ∷ [])
    then some float
    else if one_of name ("numeric" ∷ "decimal" ∷ [])
    then some decimal
    else if one_of name
        ("text" ∷ "character varying" ∷ "varchar" ∷ "character" ∷ "char" ∷ "name" ∷ "bpchar" ∷ [])
    then some text
    else if one_of name ("bytea" ∷ [])
    then some blob
    else if one_of name ("json" ∷ "jsonb" ∷ [])
    then some json
    else if one_of name ("uuid" ∷ [])
    then some uuid
    else if one_of name ("timestamp without time zone" ∷ "timestamp" ∷ [])
    then some timestamp
    else if one_of name ("timestamp with time zone" ∷ "timestamptz" ∷ [])
    then some timestamp_tz
    else if one_of name ("date" ∷ [])
    then some date
    else if one_of name ("time without time zone" ∷ "time" ∷ [])
    then some time
    else if one_of name ("time with time zone" ∷ "timetz" ∷ [])
    then some time_tz
    else if one_of name ("_bool" ∷ [])
    then some bool_array
    else if one_of name ("_int2" ∷ "_int4" ∷ "_int8" ∷ "_oid" ∷ [])
    then some int_array
    else if one_of name ("_float4" ∷ "_float8" ∷ [])
    then some float_array
    else if one_of name ("_numeric" ∷ [])
    then some decimal_array
    else if one_of name ("_text" ∷ "_varchar" ∷ "_bpchar" ∷ "_name" ∷ [])
    then some text_array
    else none

-- The flags of a new column.
unfoldable pub flags_of : Row → ColumnFlags
flags_of row =
    set_flag
      (set_flag (set_flag (record { bits = 0 }) nullable_flag row.nullable) primary_key_flag
        row.is_primary)
      unique_flag row.is_unique

-- `Some(t_sym) == self.current_table`
unfoldable pub is_current : Symbol → Option Symbol → Bool
is_current name none = false
is_current name (some current) = eq_symbol name current

module _ {I : Type 0} where
  -- The table of the rows so far, if there is one.
  unfoldable pub finish_table : DatabaseSchemaBuilder I → DatabaseSchemaBuilder I
  finish_table b = elim b.current_table [
    | none ↦ b
    | some name ↦ record b {
      tables =
          b.tables
          ++ record {
            name = name;
            columns_start = b.current_table_cols_start;
            columns_len = (length b.columns % 2 ^ 32 - b.current_table_cols_start) % 2 ^ 16;
            primary_key = b.current_table_pk;
            fk_start = b.current_table_fk_start;
            fk_len = (length b.foreign_key_pool % 2 ^ 32 - b.current_table_fk_start) % 2 ^ 16;
          }
            ∷ [];
    }
  ]

  -- The `if` on the table's name.
  unfoldable pub start_table : Symbol → DatabaseSchemaBuilder I → DatabaseSchemaBuilder I
  unfolding finish_table is_current
  start_table name b = if is_current name b.current_table then b else record (finish_table b) {
    current_table = some name;
    current_table_cols_start = length b.columns % 2 ^ 32;
    current_table_fk_start = length b.foreign_key_pool % 2 ^ 32;
    current_table_pk = none;
  }

module _ {I : Type 0} (intern : I → Str → Option (Symbol × I)) where
  unfoldable pub intern_all : List Str → I → Option (List Symbol × I)
  intern_all [] interner = some ([], interner)
  intern_all (s ∷ ss) interner = do
    (symbol, interner') ← intern interner s
    (symbols, interner'') ← intern_all ss interner'
    some (symbol ∷ symbols, interner'')

  -- One round of the loop over `foreign_keys`.
  unfoldable pub add_foreign_key :
      RawForeignKey → DatabaseSchemaBuilder I → Option (DatabaseSchemaBuilder I)
  add_foreign_key fk b = do
    (constraint_sym, i1) ← intern b.interner fk.constraint_name
    (ns_sym, i2) ← intern i1 fk.namespace
    (ref_table_sym, i3) ← intern i2 fk.referenced_table
    (ref_column_sym, i4) ← intern i3 fk.referenced_column
    some (record b {
      interner = i4;
      foreign_key_pool =
          b.foreign_key_pool
          ++ record {
            constraint_name = constraint_sym;
            namespace = ns_sym;
            table = 0;
            column = 0;
            on_update = fk.on_update;
            on_delete = fk.on_delete;
          }
            ∷ [];
      unresolved_fks =
          b.unresolved_fks
          ++ record {
            pool_index = length b.foreign_key_pool;
            source_table_idx = length b.tables;
            ref_table_sym = ref_table_sym;
            ref_column_sym = ref_column_sym;
          }
            ∷ [];
    })

  unfoldable pub add_foreign_keys :
      List RawForeignKey → DatabaseSchemaBuilder I → Option (DatabaseSchemaBuilder I)
  unfolding add_foreign_key
  add_foreign_keys [] b = some b
  add_foreign_keys (fk ∷ fks) b = do b' ← add_foreign_key fk b; add_foreign_keys fks b'

  unfoldable pub type_of : Str → I → Option (ValueType × I)
  unfolding known_type
  type_of name interner = elim (known_type name) [
    | some t ↦ some (t, interner)
    | none ↦ do (symbol, interner') ← intern interner name; some (custom symbol, interner')
  ]

  unfoldable pub default_of : Option Str → I → Option (Option Symbol × I)
  default_of none interner = some (none, interner)
  default_of (some d) interner = do
    (symbol, interner') ← intern interner d
    some (some symbol, interner')

  unfoldable pub add_row : Row → DatabaseSchemaBuilder I → Option (DatabaseSchemaBuilder I)
  unfolding start_table intern_all add_foreign_keys type_of default_of flags_of
  add_row row b0 = do
    (t_sym, i1) ← intern b0.interner row.table_name
    let b1 = start_table t_sym (record b0 { interner = i1 })
    (col_sym, i2) ← intern b1.interner row.column_name
    let col_idx_in_table = (length b1.columns - b1.current_table_cols_start) % 2 ^ 16
    let pk = if row.is_primary then some col_idx_in_table else b1.current_table_pk
    (checks, i3) ← intern_all (row.check_defs ++ row.domain_checks) i2
    let pool = b1.constraint_pool ++ checks
    b2 ←
        add_foreign_keys row.foreign_keys
          (record b1 { interner = i3; current_table_pk = pk; constraint_pool = pool })
    (data_type, i4) ← type_of row.data_type b2.interner
    (default_value, i5) ← default_of row.default_expr i4
    let column : Column = record {
      name = col_sym;
      data_type = data_type;
      default_value = default_value;
      flags = flags_of row;
      constraints = record {
        start = length b1.constraint_pool % 2 ^ 32;
        len = (length pool % 2 ^ 32 - length b1.constraint_pool % 2 ^ 32) % 2 ^ 16;
      };
      foreign_keys = record {
        start = length b1.foreign_key_pool % 2 ^ 32;
        len = (length b2.foreign_key_pool % 2 ^ 32 - length b1.foreign_key_pool % 2 ^ 32) % 2 ^ 16;
      };
    }
    some (record b2 {
      interner = i5;
      columns = b2.columns ++ column ∷ [];
      column_names = b2.column_names ++ col_sym ∷ [];
    })

  unfoldable pub add_rows : List Row → DatabaseSchemaBuilder I → Option (DatabaseSchemaBuilder I)
  unfolding add_row
  add_rows [] b = some b
  add_rows (row ∷ rows) b = do b' ← add_row row b; add_rows rows b'
