-- ===== src/Value.antt =====
-- `Value` of crates/database/src/core/value.rs. The types of other crates are an argument, with their
-- equality. A float is its 64 bits.
use boomerang.Base.{
  ℕ, ◌%◌, ◌*◌, ◌^◌, ◌≡◌, refl, ap, Bool, true, false, ◌&&◌, ◌||◌, not, List, [], ◌∷◌, ◌==◌, ==_refl,
  ltb, arith, if◌then◌else◌,
}
use boomerang.Base.Int.{ℤ, pos, negsuc}
use boomerang.Base.Order.{Str, eq_str, eq_str_self}
use boomerang.Interner.Symbol.{Symbol, eq_symbol, eq_symbol_self, eq_symbol_eq}
use boomerang.Schema.Types.{ValueType}
pub mod Equal
mod Tests

-- The types of rust_decimal, serde_json, uuid and chrono that a value has.
pub data ForeignType : Type 0 where
  decimal_type json_type uuid_type naive_date_time utc_date_time naive_date naive_time
        fixed_date_time :
      ForeignType

pub record Foreign : Type 1 where
  pub carrier : ForeignType → Type 0
  pub eq : (t : ForeignType) → carrier t → carrier t → Bool

pub record CustomValue : Type 0 where
  pub name : Symbol
  pub value : Str

-- `==` of the types of Rust.
unfoldable pub eq_bool : Bool → Bool → Bool
eq_bool true b = b
eq_bool false b = not b

unfoldable pub eq_int : ℤ → ℤ → Bool
eq_int (pos a) (pos b) = a == b
eq_int (negsuc a) (negsuc b) = a == b
eq_int _ _ = false

unfoldable pub is_nan : ℕ → Bool
is_nan bits = ltb (2047 * 2 ^ 52) (bits % 2 ^ 63)

-- `==` of f64: a zero equals the other zero, NaN equals nothing.
unfoldable pub eq_float : ℕ → ℕ → Bool
unfolding is_nan
eq_float a b =
    not (is_nan a) && (not (is_nan b) && (a == b || (a % 2 ^ 63 == 0 && b % 2 ^ 63 == 0)))

unfoldable pub eq_custom : CustomValue → CustomValue → Bool
unfolding eq_symbol eq_str
eq_custom a b = eq_symbol a.name b.name && eq_str a.value b.value

unfoldable pub eq_list : {A : Type 0} → (A → A → Bool) → List A → List A → Bool
eq_list f [] [] = true
eq_list f (x ∷ xs) (y ∷ ys) = f x y && eq_list f xs ys
eq_list f _ _ = false

pub data Value (foreign : Foreign) : Type 0 where
  null : Value foreign
  bool : Bool → Value foreign
  int : ℤ → Value foreign
  float : ℕ → Value foreign
  decimal : foreign.carrier decimal_type → Value foreign
  text : Str → Value foreign
  blob : List ℕ → Value foreign
  json : foreign.carrier json_type → Value foreign
  uuid : foreign.carrier uuid_type → Value foreign
  timestamp : foreign.carrier naive_date_time → Value foreign
  timestamp_tz : foreign.carrier utc_date_time → Value foreign
  date : foreign.carrier naive_date → Value foreign
  time : foreign.carrier naive_time → Value foreign
  time_tz : foreign.carrier fixed_date_time → Value foreign
  custom : CustomValue → Value foreign
  bool_array : List Bool → Value foreign
  int_array : List ℤ → Value foreign
  float_array : List ℕ → Value foreign
  decimal_array : List (foreign.carrier decimal_type) → Value foreign
  text_array : List Str → Value foreign

module _ (foreign : Foreign) where
  unfoldable pub kind : Value foreign → ValueType
  kind null = ValueType.null
  kind (bool a) = ValueType.bool
  kind (int a) = ValueType.int
  kind (float a) = ValueType.float
  kind (decimal a) = ValueType.decimal
  kind (text a) = ValueType.text
  kind (blob a) = ValueType.blob
  kind (json a) = ValueType.json
  kind (uuid a) = ValueType.uuid
  kind (timestamp a) = ValueType.timestamp
  kind (timestamp_tz a) = ValueType.timestamp_tz
  kind (date a) = ValueType.date
  kind (time a) = ValueType.time
  kind (time_tz a) = ValueType.time_tz
  kind (custom a) = ValueType.custom a.name
  kind (bool_array a) = ValueType.bool_array
  kind (int_array a) = ValueType.int_array
  kind (float_array a) = ValueType.float_array
  kind (decimal_array a) = ValueType.decimal_array
  kind (text_array a) = ValueType.text_array

  unfoldable pub is_null : Value foreign → Bool
  is_null null = true
  is_null _ = false

  unfoldable pub eq_value : Value foreign → Value foreign → Bool
  unfolding eq_bool eq_int eq_float eq_custom eq_list eq_str
  eq_value null null = true
  eq_value (bool a) (bool b) = eq_bool a b
  eq_value (int a) (int b) = eq_int a b
  eq_value (float a) (float b) = a == b
  eq_value (decimal a) (decimal b) = foreign.eq decimal_type a b
  eq_value (text a) (text b) = eq_str a b
  eq_value (blob a) (blob b) = eq_str a b
  eq_value (json a) (json b) = foreign.eq json_type a b
  eq_value (uuid a) (uuid b) = foreign.eq uuid_type a b
  eq_value (timestamp a) (timestamp b) = foreign.eq naive_date_time a b
  eq_value (timestamp_tz a) (timestamp_tz b) = foreign.eq utc_date_time a b
  eq_value (date a) (date b) = foreign.eq naive_date a b
  eq_value (time a) (time b) = foreign.eq naive_time a b
  eq_value (time_tz a) (time_tz b) = foreign.eq fixed_date_time a b
  eq_value (custom a) (custom b) = eq_custom a b
  eq_value (bool_array a) (bool_array b) = eq_list eq_bool a b
  eq_value (int_array a) (int_array b) = eq_list eq_int a b
  eq_value (float_array a) (float_array b) = eq_list eq_float a b
  eq_value (decimal_array a) (decimal_array b) = eq_list (foreign.eq decimal_type) a b
  eq_value (text_array a) (text_array b) = eq_list eq_str a b
  eq_value _ _ = false

  -- `From`. Every integer type that has it fits into i64.
  unfoldable pub from_int : ℤ → Value foreign
  from_int value = int value

  unfoldable pub from_float : ℕ → Value foreign
  from_float value = float value

  unfoldable pub from_bool : Bool → Value foreign
  from_bool value = bool value

  unfoldable pub from_string : Str → Value foreign
  from_string value = text value

  unfoldable pub from_blob : List ℕ → Value foreign
  from_blob value = blob value

  unfoldable pub from_json : foreign.carrier json_type → Value foreign
  from_json value = json value

  unfoldable pub from_naive_date_time : foreign.carrier naive_date_time → Value foreign
  from_naive_date_time value = timestamp value

  unfoldable pub from_date_time : foreign.carrier utc_date_time → Value foreign
  from_date_time value = timestamp_tz value

  unfoldable pub from_uuid : foreign.carrier uuid_type → Value foreign
  from_uuid value = uuid value

  unfoldable pub from_decimal : foreign.carrier decimal_type → Value foreign
  from_decimal value = decimal value

  unfoldable pub from_ints : List ℤ → Value foreign
  from_ints value = int_array value

  unfoldable pub from_floats : List ℕ → Value foreign
  from_floats value = float_array value

  unfoldable pub from_bools : List Bool → Value foreign
  from_bools value = bool_array value

  unfoldable pub from_decimals : List (foreign.carrier decimal_type) → Value foreign
  from_decimals value = decimal_array value

  unfoldable pub from_strings : List Str → Value foreign
  from_strings value = text_array value
