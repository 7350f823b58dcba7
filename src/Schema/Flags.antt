-- ===== src/Schema/Flags.antt =====
-- `ColumnFlags` of crates/database/src/core/schema.rs: each flag is a bit of its own. A byte has 256
-- values, and the law is checked on each.
use boomerang.Base.{ℕ, zero, suc, ◌<◌, ◌≡◌, refl, Bool, true, false, if◌then◌else◌, arith}
use boomerang.Schema.Types.{
  ColumnFlags, nullable_flag, primary_key_flag, unique_flag, contains, set_flag,
}

-- The three constants.
pub data Flag : Type 0 where
  nullable primary_key unique : Flag

abbrev pub flag : Flag → ColumnFlags
flag nullable = nullable_flag
flag primary_key = primary_key_flag
flag unique = unique_flag

abbrev pub same_flag : Flag → Flag → Bool
same_flag nullable nullable = true
same_flag primary_key primary_key = true
same_flag unique unique = true
same_flag _ _ = false

abbrev eq_bool : Bool → Bool → Bool
eq_bool true b = b
eq_bool false true = false
eq_bool false false = true

-- A test of each number up to `top`, from the top down.
passes : (ℕ → Bool) → ℕ → Bool
passes test zero = test 0
passes test (suc top) = if test (suc top) then passes test top else false

passes-lt : (test : ℕ → Bool) (top v : ℕ) → v < suc top → passes test top ≡ true → test v ≡ true
unfolding passes
passes-lt test zero zero lt h = h
passes-lt test zero (suc v) lt h = absurd (omega arith)
passes-lt test (suc top) v lt h = ground (arith, passes-lt test top v)

eq_bool-eq : (a b : Bool) → eq_bool a b ≡ true → a ≡ b
eq_bool-eq true true h = refl
eq_bool-eq true false h = cc
eq_bool-eq false true h = cc
eq_bool-eq false false h = refl

abbrev law : Flag → Flag → Bool → ℕ → Bool
law x y e b =
    eq_bool (contains (set_flag (record { bits = b }) (flag x) e) (flag y))
      (if same_flag x y then e else contains (record { bits = b }) (flag y))

law_table : (x y : Flag) (e : Bool) → passes (law x y e) 255 ≡ true
unfolding passes contains set_flag
law_table nullable nullable true = refl
law_table nullable nullable false = refl
law_table nullable primary_key true = refl
law_table nullable primary_key false = refl
law_table nullable unique true = refl
law_table nullable unique false = refl
law_table primary_key nullable true = refl
law_table primary_key nullable false = refl
law_table primary_key primary_key true = refl
law_table primary_key primary_key false = refl
law_table primary_key unique true = refl
law_table primary_key unique false = refl
law_table unique nullable true = refl
law_table unique nullable false = refl
law_table unique primary_key true = refl
law_table unique primary_key false = refl
law_table unique unique true = refl
law_table unique unique false = refl

-- After `set`, in any flags that are a byte, `contains` tells of the flag that was set whether it was
-- enabled, and of every other flag what it told before.
pub contains-set_flag :
    (b : ℕ) (x y : Flag) (e : Bool)
    → b < 256
    → contains (set_flag (record { bits = b }) (flag x) e) (flag y)
      ≡ (if same_flag x y then e else contains (record { bits = b }) (flag y))
contains-set_flag b x y e h = eq_bool-eq _ _ (passes-lt (law x y e) 255 b h (law_table x y e))
