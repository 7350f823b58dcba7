-- ===== src/Interner/Utf8.antt =====
-- The UTF-8 that `str::from_utf8` accepts, for the texts that `from_bytes` and `resolve_raw_offset`
-- of crates/database/src/core/string_interner.rs read.
use boomerang.Base.{
  ℕ, zero, suc, Bool, true, false, ◌&&◌, Option, none, some, List, [], ◌∷◌, ltb, leb, ◌==◌,
  if◌then◌else◌,
}
use boomerang.Base.Order.{Str}

abbrev between : ℕ → ℕ → ℕ → Bool
between a b x = leb a x && leb x b

abbrev is_continuation : ℕ → Bool
is_continuation = between 0x80 0xbf

-- How a character goes on after its first byte: the bounds of its second byte, and the number of
-- continuation bytes behind that. `none` is a byte that begins no character of two bytes or more.
unfoldable pub lead : ℕ → Option (ℕ × ℕ × ℕ)
lead b =
    if between 0xc2 0xdf b
    then some (0x80, 0xbf, 0)
    else if b == 0xe0
    then some (0xa0, 0xbf, 1)
    else if b == 0xed
    then some (0x80, 0x9f, 1)
    else if between 0xe1 0xef b
    then some (0x80, 0xbf, 1)
    else if b == 0xf0
    then some (0x90, 0xbf, 2)
    else if b == 0xf4
    then some (0x80, 0x8f, 2)
    else if between 0xf1 0xf3 b
    then some (0x80, 0xbf, 2)
    else none

-- What is still owed when a byte is read: nothing, or bounds for the next byte and how many
-- continuation bytes come after it.
unfoldable pub valid_from : Option (ℕ × ℕ × ℕ) → Str → Bool
unfolding lead
valid_from none [] = true
valid_from (some _) [] = false
valid_from none (b ∷ bs) =
    let ascii = valid_from none bs in
    let multi = valid_from (lead b) bs in
    if ltb b 0x80 then ascii else elim (lead b) [ none ↦ false | some _ ↦ multi ]
valid_from (some (low, high, zero)) (b ∷ bs) =
    let rest = valid_from none bs in between low high b && rest
valid_from (some (low, high, suc n)) (b ∷ bs) =
    let rest = valid_from (some (0x80, 0xbf, n)) bs in between low high b && rest

unfoldable pub is_utf8 : Str → Bool
unfolding valid_from
is_utf8 bs = valid_from none bs

unfoldable pub from_utf8 : List ℕ → Option Str
unfolding is_utf8
from_utf8 bs = if is_utf8 bs then some bs else none
