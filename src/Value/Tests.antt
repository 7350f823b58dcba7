-- ===== src/Value/Tests.antt =====
-- `==` of `Value` at concrete values, with types of other crates that have one value.
use boomerang.Base.{◌≡◌, refl, true, not, [], ◌∷◌, ◌*◌, ◌^◌}
use boomerang.Value.{Foreign, Value, float_array, eq_value}
use boomerang.Value.Equal.{has_nan, eq_value_self}

abbrev foreign : Foreign
foreign = record { carrier = λ t. Unit; eq = λ t a b. true }

-- The bits of a NaN, behind those of 0.
abbrev some_nan : Value foreign
some_nan = float_array (0 ∷ 4095 * 2 ^ 51 ∷ [])

eq_value_self_example : eq_value foreign some_nan some_nan ≡ not (has_nan some_nan)
eq_value_self_example = eq_value_self foreign (λ t a. refl) some_nan
