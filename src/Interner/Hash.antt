-- ===== src/Interner/Hash.antt =====
-- The prefix and the hash of a text in crates/database/src/core/string_interner.rs, on a
-- little-endian machine. `hash_one` is that of rustc_hash's `FxBuildHasher`, and a parameter.
pub mod Injective
use boomerang.Base.{ℕ, ◌+◌, ◌-◌, ◌*◌, ◌/◌, ◌%◌, ◌^◌, length, take, drop, leb, if◌then◌else◌}
use Prim.Native.Nat.{bit_xor}
use boomerang.Base.Order.{Str}
use boomerang.Base.LittleEndian.{from_le_bytes}

-- `read_unaligned` of an integer of `n` bytes, from the byte `i` on.
unfoldable pub load : ℕ → ℕ → Str → ℕ
unfolding from_le_bytes
load n i bytes = from_le_bytes (take n (drop i bytes))

unfoldable pub prefix8 : Str → ℕ
unfolding load
prefix8 bytes =
    let len = length bytes in
    if leb 8 len
    then load 8 0 bytes
    else if leb 4 len
    then load 4 (len - 4) bytes * 2 ^ 32 + load 4 0 bytes
    else if leb 2 len
    then load 1 (len - 1) bytes * 2 ^ 16 + load 2 0 bytes
    else 0

abbrev pub multiplier : ℕ
multiplier = 0x517cc1b727220a95

unfoldable pub short_hash : ℕ → ℕ
short_hash prefix = let h = prefix * multiplier % 2 ^ 64 in bit_xor h (h / 2 ^ 32)

unfoldable pub hash_of : (Str → ℕ) → Str → ℕ
unfolding short_hash prefix8
hash_of hash_one text = if leb (length text) 8 then short_hash (prefix8 text) else hash_one text
