-- ===== src/Interner/Symbol.antt =====
-- `Symbol` of crates/database/src/core/string_interner.rs: a nonzero u32, the shard's number in the
-- top eight bits and the index plus one in the low 24.
use boomerang.Base.{
  ℕ, ◌+◌, ◌-◌, ◌*◌, ◌/◌, ◌%◌, ◌^◌, ◌<◌, ◌≡◌, Bool, true, Option, none, some, ltb, ◌==◌,
  if◌then◌else◌, arith,
}

pub record Symbol : Type 0 where
  pub raw : ℕ

abbrev pub index_mask : ℕ
index_mask = 0x00ff_ffff

-- `None` is the panic of the `assert!`. The two halves of the `|` have no bit in common, since
-- `index + 1` is below 2 ^ 24, so it is a sum.
unfoldable pub new : ℕ → ℕ → Option Symbol
new shard_id index =
    if ltb index index_mask then some (record { raw = shard_id * 2 ^ 24 + (index + 1) }) else none

unfoldable pub shard_id : Symbol → ℕ
shard_id s = s.raw / 2 ^ 24

-- `None` is the overflow of `- 1` where the low bits are 0.
unfoldable pub index : Symbol → Option ℕ
index s = if s.raw % 2 ^ 24 == 0 then none else some (s.raw % 2 ^ 24 - 1)

unfoldable pub into_raw : Symbol → ℕ
into_raw s = s.raw

-- `NonZeroU32::new(raw).map(Symbol)`
unfoldable pub from_raw : ℕ → Option Symbol
from_raw raw = if raw == 0 then none else some (record { raw = raw })

unfoldable pub eq_symbol : Symbol → Symbol → Bool
eq_symbol a b = a.raw == b.raw

pub eq_symbol_self : (a : Symbol) → eq_symbol a a ≡ true
unfolding eq_symbol
eq_symbol_self a = ground arith

pub eq_symbol_eq : (a b : Symbol) → eq_symbol a b ≡ true → a ≡ b
unfolding eq_symbol
eq_symbol_eq a b h = let e : a.raw ≡ b.raw = ground arith in λ i. record { raw = e i }

-- The parts of a new symbol.
pub new_parts :
    (shard i : ℕ) (s : Symbol)
    → shard < 256
    → new shard i ≡ some s
    → (i < 2 ^ 24) × (shard_id s ≡ shard) × (index s ≡ some i)
unfolding new shard_id index
new_parts shard i s h e =
    let fits : i + 1 < 2 ^ 24 = ground (arith, e) in
    let raw : shard * 2 ^ 24 + (i + 1) ≡ s.raw = ground (arith, e) in
    let low : s.raw % 2 ^ 24 ≡ i + 1 = omega arith in
    (omega arith, omega arith, rw (low) (ground arith))
