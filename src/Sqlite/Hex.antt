-- ===== src/Sqlite/Hex.antt =====
-- The hash in the text of `write_hash_upsert` of crates/database/src/dialect/sqlite.rs, as SQL reads it.
use boomerang.Base.{
  ℕ, ◌+◌, ◌*◌, ◌-◌, ◌/◌, ◌%◌, ◌<◌, ◌≡◌, refl, inl, inr, ◌&&◌, Option, none, some, List, [], ◌∷◌,
  ◌++◌, All, ltb, leb, if◌then◌else◌, arith, Bool-cases,
}
use boomerang.Base.Order.{Str}
use boomerang.Sqlite.Ddl.{meta_ddl, hash_head, hash_tail, hex_digit, hex, write_hash_upsert}

-- The value of a digit.
unfoldable pub digit_value : ℕ → Option ℕ
digit_value c =
    if leb 48 c && leb c 57
    then some (c - 48)
    else if leb 97 c && leb c 102
    then some (c - 87)
    else none

-- The bytes of a blob literal `X'..'`, up to the first pair that is not two digits, and what is left.
unfoldable pub read_blob : Str → List ℕ × Str
unfolding digit_value
read_blob [] = ([], [])
read_blob (c ∷ []) = ([], c ∷ [])
read_blob (c ∷ d ∷ s) =
    let rest = read_blob s in
    elim (digit_value c) [
      | none ↦ ([], c ∷ d ∷ s)
      | some high ↦ elim (digit_value d) [
        | none ↦ ([], c ∷ d ∷ s)
        | some low ↦ ((16 * high + low) ∷ rest.0, rest.1)
      ]
    ]

digit_value-hex_digit : (d : ℕ) → d < 16 → digit_value (hex_digit d) ≡ some d
unfolding digit_value hex_digit
digit_value-hex_digit d h = elim (Bool-cases (ltb d 10)) [
  | inl e ↦ let sub : 48 + d - 48 ≡ d = omega arith in ground (arith, e, sub)
  | inr e ↦ let sub : 87 + d - 87 ≡ d = omega arith in ground (arith, e, h, sub)
]

pub read_blob-hex :
    (bytes : List ℕ) (rest : Str)
    → All (λ b. b < 256) bytes
    → digit_value 39 ≡ none
    → read_blob (hex bytes ++ 39 ∷ rest) ≡ (bytes, 39 ∷ rest)
unfolding read_blob hex digit_value
read_blob-hex [] [] all quote = refl
read_blob-hex [] (c ∷ rest) all quote = refl
read_blob-hex (b ∷ bs) rest (small, all) quote =
    let high = digit_value-hex_digit (b / 16 % 16) (omega arith) in
    let low = digit_value-hex_digit (b % 16) (omega arith) in
    let byte : 16 * (b / 16 % 16) + b % 16 ≡ b = omega (arith, small) in
    rw (read_blob, high, low, read_blob-hex bs rest all quote, byte) refl

-- The blob in the statement that stores a hash of bytes is read as those bytes, and the rest of the
-- statement is behind it.
pub read_blob-write_hash_upsert :
    (hash : List ℕ)
    → All (λ b. b < 256) hash
    → (blob : Str) × (write_hash_upsert hash ≡ meta_ddl ++ (hash_head ++ blob))
      × (read_blob blob ≡ (hash, hash_tail))
unfolding write_hash_upsert digit_value
read_blob-write_hash_upsert hash all = (hex hash ++ hash_tail, refl, read_blob-hex hash _ all refl)
