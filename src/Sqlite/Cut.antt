-- ===== src/Sqlite/Cut.antt =====
-- What `sqlite_default` of crates/database/src/dialect/sqlite.rs makes of a quoted text.
use boomerang.Base.{ℕ, ◌≤◌, ◌<◌, ◌≡◌, ◌≢◌, refl, ap, ◌∙◌, false, some, [], ◌∷◌, ◌++◌, All, arith}
use boomerang.Base.Order.{Str}
use boomerang.Sqlite.Default.{
  is_white1, is_white2, is_white3, trim_start, is_blank, trim_end, before_cast, is_literal,
  without_cast, sqlite_default,
}

-- A visible ASCII character that is not a colon.
abbrev pub IsPlain : ℕ → Type 0
IsPlain c = (33 ≤ c) × (c < 128) × (c ≢ 58)

trim_start-plain : (c : ℕ) (s : Str) → 33 ≤ c → c < 128 → trim_start (c ∷ s) ≡ c ∷ s
unfolding trim_start is_white1 is_white2 is_white3
trim_start-plain c [] low high =
    let n : is_white1 c ≡ false = ground arith in rw (trim_start, n) refl
trim_start-plain c (d ∷ []) low high =
    let n : is_white1 c ≡ false = ground arith in
    let m : is_white2 c d ≡ false = ground arith in rw (trim_start, n, m) refl
trim_start-plain c (d ∷ e ∷ s) low high =
    let n : is_white1 c ≡ false = ground arith in
    let m : is_white2 c d ≡ false = ground arith in
    let k : is_white3 c d e ≡ false = ground arith in rw (trim_start, n, m, k) refl

is_blank-plain : (c : ℕ) (s : Str) → 33 ≤ c → c < 128 → is_blank (c ∷ s) ≡ false
unfolding is_blank
is_blank-plain c s low high = rw (is_blank, trim_start-plain c s low high) refl

trim_end-plain : (s : Str) → All IsPlain s → trim_end s ≡ s
unfolding trim_end
trim_end-plain [] all = refl
trim_end-plain (c ∷ s) (p, all) =
    rw (trim_end, is_blank-plain c s p.0 p.1, trim_end-plain s all) refl

-- A text in quotes loses nothing at its end.
is_blank-quoted : (s : Str) → is_blank (s ++ 39 ∷ []) ≡ false
unfolding is_blank trim_start is_white1 is_white2 is_white3
is_blank-quoted [] = refl
is_blank-quoted (a ∷ []) = let m : is_white2 a 39 ≡ false = ground arith in ground (arith, m)
is_blank-quoted (a ∷ b ∷ []) =
    let m : is_white2 b 39 ≡ false = ground arith in
    let k : is_white3 a b 39 ≡ false = ground arith in ground (arith, m, k)
is_blank-quoted (a ∷ b ∷ c ∷ s) =
    ground (arith, is_blank-quoted (b ∷ c ∷ s), is_blank-quoted (c ∷ s), is_blank-quoted s)

trim_end-quoted : (s : Str) → trim_end (s ++ 39 ∷ []) ≡ s ++ 39 ∷ []
unfolding trim_end
trim_end-quoted [] = refl
trim_end-quoted (c ∷ s) = rw (trim_end, is_blank-quoted (c ∷ s), trim_end-quoted s) refl

before_cast-plain : (a rest : Str) → All IsPlain a → before_cast (a ++ 58 ∷ 58 ∷ rest) ≡ some a
unfolding before_cast
before_cast-plain [] rest all = refl
before_cast-plain (c ∷ []) rest ((low, high, other), all) = ground (arith, other)
before_cast-plain (c ∷ d ∷ s) rest ((low, high, other), all) =
    ground (arith, other, before_cast-plain (d ∷ s) rest all)

append_behind : (a b : Str) → (a ++ 58 ∷ 58 ∷ b) ++ 39 ∷ [] ≡ a ++ 58 ∷ 58 ∷ (b ++ 39 ∷ [])
append_behind [] b = refl
append_behind (c ∷ a) b = ap (λ s. c ∷ s) (append_behind a b)

-- A quoted text that holds two colons, behind visible ASCII characters that are not colons: what is
-- kept of it is the quote and those characters, without the quote at the end.
pub sqlite_default_cut :
    (a b : Str)
    → All IsPlain a
    → sqlite_default (39 ∷ (a ++ 58 ∷ 58 ∷ b) ++ 39 ∷ []) ≡ some (39 ∷ a)
unfolding sqlite_default without_cast is_literal
sqlite_default_cut a b all =
    let whole = 39 ∷ (a ++ 58 ∷ 58 ∷ b) in
    let start = trim_start-plain 39 ((a ++ 58 ∷ 58 ∷ b) ++ 39 ∷ []) (omega arith) (omega arith) in
    let end = trim_end-quoted whole in
    let plain : All IsPlain (39 ∷ a) = ((omega arith, omega arith, λ e. ground (arith, e)), all) in
    let cast : before_cast (whole ++ 39 ∷ []) ≡ some (39 ∷ a) =
      ap (λ s. before_cast (39 ∷ s)) (append_behind a b)
      ∙ before_cast-plain (39 ∷ a) (b ++ 39 ∷ []) plain in
    rw (sqlite_default, start, end, without_cast, cast, trim_end-plain (39 ∷ a) plain) refl
