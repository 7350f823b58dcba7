-- ===== src/Sqlite/Default.antt =====
-- `sqlite_type` and `sqlite_default` of crates/database/src/dialect/sqlite.rs, on texts as bytes in
-- UTF-8.
use boomerang.Base.{
  ℕ, ◌+◌, Bool, true, false, ◌&&◌, ◌||◌, Option, none, some, [], ◌∷◌, leb, ◌==◌, if◌then◌else◌,
}
use boomerang.Base.Order.{Str}
use boomerang.Base.Text.{codes}
use boomerang.Schema.Types.{
  ValueType, null, bool, int, float, decimal, text, blob, json, uuid, timestamp, timestamp_tz, date,
  time, time_tz, custom, bool_array, int_array, float_array, decimal_array, text_array,
}

unfoldable pub sqlite_type : ValueType → Str
sqlite_type bool = codes "INTEGER"
sqlite_type int = codes "INTEGER"
sqlite_type float = codes "REAL"
sqlite_type blob = codes "BLOB"
sqlite_type null = codes "BLOB"
sqlite_type decimal = codes "TEXT"
sqlite_type text = codes "TEXT"
sqlite_type json = codes "TEXT"
sqlite_type uuid = codes "TEXT"
sqlite_type timestamp = codes "TEXT"
sqlite_type timestamp_tz = codes "TEXT"
sqlite_type date = codes "TEXT"
sqlite_type time = codes "TEXT"
sqlite_type time_tz = codes "TEXT"
sqlite_type (custom s) = codes "TEXT"
sqlite_type bool_array = codes "TEXT"
sqlite_type int_array = codes "TEXT"
sqlite_type float_array = codes "TEXT"
sqlite_type decimal_array = codes "TEXT"
sqlite_type text_array = codes "TEXT"

-- The characters that `trim` takes off: those of Unicode's White_Space, of one, two or three bytes.
unfoldable pub is_white1 : ℕ → Bool
is_white1 a = (leb 9 a && leb a 13) || a == 32

unfoldable pub is_white2 : ℕ → ℕ → Bool
is_white2 a b = a == 194 && (b == 133 || b == 160)

unfoldable pub is_white3 : ℕ → ℕ → ℕ → Bool
is_white3 a b c =
    (a == 225 && (b == 154 && c == 128))
    || ((a == 226
          && ((b == 128 && (leb 128 c && leb c 138 || (c == 168 || c == 169) || c == 175))
              || (b == 129 && c == 159)))
        || (a == 227 && (b == 128 && c == 128)))

unfoldable pub trim_start : Str → Str
unfolding is_white1 is_white2 is_white3
trim_start [] = []
trim_start (a ∷ []) = if is_white1 a then [] else a ∷ []
trim_start (a ∷ b ∷ []) =
    let rest = trim_start (b ∷ []) in
    if is_white1 a then rest else if is_white2 a b then [] else a ∷ b ∷ []
trim_start (a ∷ b ∷ c ∷ s) =
    let rest1 = trim_start (b ∷ c ∷ s) in
    let rest2 = trim_start (c ∷ s) in
    let rest3 = trim_start s in
    if is_white1 a
    then rest1
    else if is_white2 a b
    then rest2
    else if is_white3 a b c
    then rest3
    else a ∷ b ∷ c ∷ s

-- Whether only such characters are left.
unfoldable pub is_blank : Str → Bool
unfolding trim_start
is_blank s = elim (trim_start s) [ [] ↦ true | c ∷ rest ↦ false ]

unfoldable pub trim_end : Str → Str
unfolding is_blank
trim_end [] = []
trim_end (c ∷ s) = let rest = trim_end s in if is_blank (c ∷ s) then [] else c ∷ rest

-- What is in front of the first `::`, if there is one.
unfoldable pub before_cast : Str → Option Str
before_cast [] = none
before_cast (c ∷ []) = none
before_cast (c ∷ d ∷ s) =
    let rest : Option Str = elim (before_cast (d ∷ s)) [ none ↦ none | some r ↦ some (c ∷ r) ] in
    if c == 58 && d == 58 then some [] else rest

unfoldable pub is_digit : ℕ → Bool
is_digit b = leb 48 b && leb b 57

unfoldable pub to_lower : ℕ → ℕ
to_lower b = if leb 65 b && leb b 90 then b + 32 else b

unfoldable pub eq_ignore_case : Str → Str → Bool
unfolding to_lower
eq_ignore_case [] [] = true
eq_ignore_case [] (d ∷ t) = false
eq_ignore_case (c ∷ s) [] = false
eq_ignore_case (c ∷ s) (d ∷ t) = let rest = eq_ignore_case s t in to_lower c == to_lower d && rest

-- `expr[1..].bytes().next().is_some_and(..)`
unfoldable pub starts_digit : Str → Bool
unfolding is_digit
starts_digit [] = false
starts_digit (c ∷ s) = is_digit c

-- `is_literal`; `first` is 39 for a quote, 45 for a minus.
unfoldable pub is_literal : ℕ → Str → Bool
unfolding is_digit starts_digit eq_ignore_case
is_literal first rest =
    first == 39
    || (is_digit first
        || ((first == 45 && starts_digit rest)
            || (eq_ignore_case (first ∷ rest) (codes "true")
                || (eq_ignore_case (first ∷ rest) (codes "false")
                    || (eq_ignore_case (first ∷ rest) (codes "null")
                        || eq_ignore_case (first ∷ rest) (codes "current_timestamp"))))))

-- The expression without its cast.
unfoldable pub without_cast : Str → Str
unfolding before_cast trim_end
without_cast expr = elim (before_cast expr) [ none ↦ expr | some front ↦ trim_end front ]

unfoldable pub sqlite_default : Str → Option Str
unfolding trim_start trim_end without_cast is_literal
sqlite_default pg_default = elim (without_cast (trim_end (trim_start pg_default))) [
  | [] ↦ none
  | first ∷ rest ↦ if is_literal first rest then some (first ∷ rest) else none
]
