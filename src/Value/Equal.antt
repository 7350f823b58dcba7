-- ===== src/Value/Equal.antt =====
-- `==` of `Value` in crates/database/src/core/value.rs.
use boomerang.Base.{ℕ, ◌≡◌, refl, Bool, true, false, ◌||◌, not, List, [], ◌∷◌, ==_refl, arith}
use boomerang.Base.Int.{ℤ, pos, negsuc}
use boomerang.Base.Order.{eq_str, eq_str_self}
use boomerang.Interner.Symbol.{eq_symbol_self}
use boomerang.Value.{
  ForeignType, Foreign, CustomValue, Value, eq_bool, eq_int, is_nan, eq_float, eq_custom, eq_list,
  eq_value, blob, bool, bool_array, custom, date, decimal, decimal_array, float, float_array, int,
  int_array, json, null, text, text_array, time, time_tz, timestamp, timestamp_tz, uuid,
  decimal_type, json_type, uuid_type, naive_date_time, utc_date_time, naive_date, naive_time,
  fixed_date_time,
}

-- Whether the value is an array that has a NaN.
unfoldable pub any_nan : List ℕ → Bool
unfolding is_nan
any_nan [] = false
any_nan (b ∷ bs) = is_nan b || any_nan bs

unfoldable pub has_nan : {foreign : Foreign} → Value foreign → Bool
unfolding any_nan
has_nan (float_array bs) = any_nan bs
has_nan _ = false

eq_bool_self : (a : Bool) → eq_bool a a ≡ true
unfolding eq_bool
eq_bool_self true = refl
eq_bool_self false = refl

eq_int_self : (a : ℤ) → eq_int a a ≡ true
unfolding eq_int
eq_int_self (pos n) = ==_refl n
eq_int_self (negsuc n) = ==_refl n

eq_custom_self : (a : CustomValue) → eq_custom a a ≡ true
unfolding eq_custom
eq_custom_self a = ground (arith, eq_symbol_self a.name, eq_str_self a.value)

eq_list_self :
    {A : Type 0} (f : A → A → Bool)
    → ((a : A) → f a a ≡ true)
    → (xs : List A) → eq_list f xs xs ≡ true
unfolding eq_list
eq_list_self f h [] = refl
eq_list_self f h (x ∷ xs) = ground (arith, h x, eq_list_self f h xs)

eq_float_self : (a : ℕ) → eq_float a a ≡ not (is_nan a)
unfolding eq_float
eq_float_self a = ground (arith, ==_refl a)

eq_list_floats : (bs : List ℕ) → eq_list eq_float bs bs ≡ not (any_nan bs)
unfolding eq_list any_nan
eq_list_floats [] = refl
eq_list_floats (b ∷ bs) = ground (arith, eq_float_self b, eq_list_floats bs)

module _ (foreign : Foreign)
    (law : (t : ForeignType) (a : foreign.carrier t) → foreign.eq t a a ≡ true) where
  -- A value equals itself exactly if it is no array of floats with a NaN, where the values of the other
  -- crates equal themselves.
  pub eq_value_self : (v : Value foreign) → eq_value foreign v v ≡ not (has_nan v)
  unfolding eq_value has_nan
  eq_value_self null = refl
  eq_value_self (bool a) = eq_bool_self a
  eq_value_self (int a) = eq_int_self a
  eq_value_self (float a) = ==_refl a
  eq_value_self (decimal a) = law decimal_type a
  eq_value_self (text a) = eq_str_self a
  eq_value_self (blob a) = eq_str_self a
  eq_value_self (json a) = law json_type a
  eq_value_self (uuid a) = law uuid_type a
  eq_value_self (timestamp a) = law naive_date_time a
  eq_value_self (timestamp_tz a) = law utc_date_time a
  eq_value_self (date a) = law naive_date a
  eq_value_self (time a) = law naive_time a
  eq_value_self (time_tz a) = law fixed_date_time a
  eq_value_self (custom a) = eq_custom_self a
  eq_value_self (bool_array a) = eq_list_self eq_bool eq_bool_self a
  eq_value_self (int_array a) = eq_list_self eq_int eq_int_self a
  eq_value_self (float_array a) = eq_list_floats a
  eq_value_self (decimal_array a) = eq_list_self (foreign.eq decimal_type) (law decimal_type) a
  eq_value_self (text_array a) = eq_list_self eq_str eq_str_self a
