-- ===== src/Schema/Types.antt =====
-- The data of crates/database/src/core/schema.rs, and `ValueType` of core/value.rs. Fields that are
-- u8, u16 or u32 are numbers, and `Interner` is the type of the string interner.
use Prim.Native.Nat.{bit_and, bit_or}
use boomerang.Base.{ℕ, ◌-◌, Bool, Option, List, ◌==◌, if◌then◌else◌, some, none}
use boomerang.Interner.Symbol.{Symbol}

pub data ValueType : Type 0 where
  null bool int float decimal text blob json uuid timestamp timestamp_tz date time time_tz :
      ValueType
  custom : Symbol → ValueType
  bool_array int_array float_array decimal_array text_array : ValueType

-- The discriminant.
unfoldable pub to_u8 : ValueType → ℕ
to_u8 null = 0
to_u8 bool = 1
to_u8 int = 2
to_u8 float = 3
to_u8 decimal = 4
to_u8 text = 5
to_u8 blob = 6
to_u8 json = 7
to_u8 uuid = 8
to_u8 timestamp = 9
to_u8 timestamp_tz = 10
to_u8 date = 11
to_u8 time = 12
to_u8 time_tz = 13
to_u8 (custom s) = 14
to_u8 bool_array = 15
to_u8 int_array = 16
to_u8 float_array = 17
to_u8 decimal_array = 18
to_u8 text_array = 19

pub data Action : Type 0 where
  no_action cascade set_null set_default restrict : Action

unfoldable pub action_to_u8 : Action → ℕ
action_to_u8 no_action = 0
action_to_u8 cascade = 1
action_to_u8 set_null = 2
action_to_u8 set_default = 3
action_to_u8 restrict = 4

-- `None` is the panic of `unreachable!`.
unfoldable pub action_from_u8 : ℕ → Option Action
action_from_u8 v =
    if v == 0
    then some no_action
    else if v == 1
    then some cascade
    else if v == 2
    then some set_null
    else if v == 3
    then some set_default
    else if v == 4
    then some restrict
    else none

pub record ForeignKey : Type 0 where
  pub constraint_name : Symbol
  pub namespace : Symbol
  pub table : ℕ
  pub column : ℕ
  pub on_update : Action
  pub on_delete : Action

pub record ColumnFlags : Type 0 where
  pub bits : ℕ

pub record PoolRange : Type 0 where
  pub start : ℕ
  pub len : ℕ

pub record Column : Type 0 where
  pub name : Symbol
  pub data_type : ValueType
  pub default_value : Option Symbol
  pub flags : ColumnFlags
  pub constraints : PoolRange
  pub foreign_keys : PoolRange

pub record TableMeta : Type 0 where
  pub name : Symbol
  pub columns_start : ℕ
  pub columns_len : ℕ
  pub primary_key : Option ℕ
  pub fk_start : ℕ
  pub fk_len : ℕ

pub record DatabaseSchema (Interner : Type 0) : Type 0 where
  pub tables : List TableMeta
  pub by_name : List ℕ
  pub columns : List Column
  pub column_names : List Symbol
  pub constraint_pool : List Symbol
  pub foreign_key_pool : List ForeignKey
  pub hash : List ℕ
  pub interner : Interner

-- The methods of `ColumnFlags`, on a byte: `!b` is 255 - b.
abbrev pub nullable_flag : ColumnFlags
nullable_flag = record { bits = 1 }

abbrev pub primary_key_flag : ColumnFlags
primary_key_flag = record { bits = 2 }

abbrev pub unique_flag : ColumnFlags
unique_flag = record { bits = 4 }

unfoldable pub contains : ColumnFlags → ColumnFlags → Bool
contains self other = bit_and self.bits other.bits == other.bits

unfoldable pub with_flag : ColumnFlags → ColumnFlags → ColumnFlags
with_flag self other = record { bits = bit_or self.bits other.bits }

unfoldable pub set_flag : ColumnFlags → ColumnFlags → Bool → ColumnFlags
set_flag self other enabled =
    if enabled
    then record { bits = bit_or self.bits other.bits }
    else record { bits = bit_and self.bits (255 - other.bits) }
