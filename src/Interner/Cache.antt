-- ===== src/Interner/Cache.antt =====
-- `ThreadLocalCache` of crates/database/src/core/string_interner.rs, as `get_or_intern` and `get` use
-- it: lines of four slots, all read by one thread. A slot is one index of the six arrays.
pub mod Remembers
use boomerang.Base.{
  ℕ, ◌+◌, ◌*◌, ◌/◌, ◌%◌, ◌^◌, Bool, ◌&&◌, Option, none, some, leb, ◌==◌, if◌then◌else◌,
}
use boomerang.Base.Order.{Str, eq_str}
use boomerang.Interner.Symbol.{Symbol, from_raw, into_raw}
use boomerang.Interner.Pool.{Memory, read}

abbrev pub cache_capacity : ℕ
cache_capacity = 1024

pub record Slot : Type 0 where
  pub interner_id : ℕ
  pub hash : ℕ
  pub len : ℕ
  pub offset : ℕ
  pub symbol : ℕ
  pub prefix : ℕ

abbrev pub ThreadLocalCache : Type 0
ThreadLocalCache = ℕ → Slot

abbrev pub new : ThreadLocalCache
new idx = record { interner_id = 0; hash = 0; len = 0; offset = 0; symbol = 0; prefix = 0 }

-- What a call looks for: the interner, the text's hash, its length and its prefix.
pub record Key : Type 0 where
  pub interner_id : ℕ
  pub hash : ℕ
  pub len : ℕ
  pub prefix : ℕ

-- `hash & CACHE_MASK`
abbrev pub cache_index : Key → ℕ
cache_index k = k.hash % cache_capacity

-- `cache_index & !3`
abbrev pub cache_line_base : Key → ℕ
cache_line_base k = cache_index k / 4 * 4

-- The four comparisons: the hash and the length are compared as u32.
unfoldable pub matches : Key → Slot → Bool
matches k s =
    s.interner_id == k.interner_id
    && (s.hash == k.hash % 2 ^ 32 && (s.len == k.len % 2 ^ 32 && s.prefix == k.prefix))

-- The loop over a line: the first of its four slots that passes the test.
unfoldable pub first_slot : (Slot → Bool) → ThreadLocalCache → ℕ → Option ℕ
first_slot test cache base =
    if test (cache base)
    then some base
    else if test (cache (base + 1))
    then some (base + 1)
    else if test (cache (base + 2))
    then some (base + 2)
    else if test (cache (base + 3))
    then some (base + 3)
    else none

unfoldable pub candidate : Key → ThreadLocalCache → Option ℕ
unfolding first_slot
candidate k cache = first_slot (matches k) cache (cache_line_base k)

-- The closure that looks a text up. `from_raw(..).unwrap()` panics on 0: the inner `none`.
unfoldable pub cached : Memory → Key → Str → ThreadLocalCache → Option (Option Symbol)
unfolding candidate read
cached mem k text cache = elim (candidate k cache) [
  | none ↦ none
  | some idx ↦
      if leb k.len 8
      then some (from_raw (cache idx).symbol)
      else if eq_str (read mem ((cache idx).offset + 4) k.len) text
      then some (from_raw (cache idx).symbol)
      else none
]

abbrev pub is_free : Slot → Bool
is_free s = s.interner_id == 0

-- The slot that is filled: the first free one of the line, or the text's own.
unfoldable pub slot_to_fill : Key → ThreadLocalCache → ℕ
unfolding first_slot
slot_to_fill k cache = elim (first_slot is_free cache (cache_line_base k)) [
  | none ↦ cache_index k
  | some idx ↦ idx
]

unfoldable pub entry : Key → ℕ → Symbol → Slot
entry k offset symbol = record {
  interner_id = k.interner_id;
  hash = k.hash % 2 ^ 32;
  len = k.len % 2 ^ 32;
  offset = offset;
  symbol = into_raw symbol;
  prefix = k.prefix;
}

-- The closure that remembers a text: its offset and its symbol.
unfoldable pub fill : Key → ℕ → Symbol → ThreadLocalCache → ThreadLocalCache
unfolding slot_to_fill entry
fill k offset symbol cache idx =
    if idx == slot_to_fill k cache then entry k offset symbol else cache idx
