-- ===== src/Interner/Cache/Remembers.antt =====
-- What the thread-local cache of crates/database/src/core/string_interner.rs answers after a fill.
use boomerang.Base.{
  ℕ, ◌+◌, ◌≤◌, ◌<◌, ◌≡◌, ◌≢◌, true, false, none, some, leb, ◌==◌, if◌then◌else◌, arith,
}
use boomerang.Base.Order.{Str, eq_str}
use boomerang.Interner.Symbol.{Symbol, from_raw, into_raw}
use boomerang.Interner.Pool.{Memory, read}
use boomerang.Interner.Strings.{text_at}
use boomerang.Interner.Cache.{
  ThreadLocalCache, Key, cache_line_base, matches, first_slot, candidate, cached, slot_to_fill,
  entry, fill,
}

-- The slot that is filled is in the line, and no slot before it is free.
slot_to_fill-lt :
    (k : Key) (cache : ThreadLocalCache)
    → (cache_line_base k ≤ slot_to_fill k cache) × (slot_to_fill k cache < cache_line_base k + 4)
unfolding slot_to_fill first_slot
slot_to_fill-lt k cache = ground arith

matches-entry : (k : Key) (offset : ℕ) (symbol : Symbol) → matches k (entry k offset symbol) ≡ true
unfolding matches entry
matches-entry k offset symbol = ground arith

-- Where no slot of the line matched, the filled slot is the one that matches.
candidate-fill :
    (k : Key) (offset : ℕ) (symbol : Symbol) (cache : ThreadLocalCache)
    → candidate k cache ≡ none
    → candidate k (fill k offset symbol cache) ≡ some (slot_to_fill k cache)
unfolding candidate first_slot fill
candidate-fill k offset symbol cache h =
    let (low, high) = slot_to_fill-lt k cache in ground (arith, matches-entry k offset symbol)

cached-fill :
    (mem : Memory) (k : Key) (text : Str) (offset : ℕ) (symbol : Symbol) (cache : ThreadLocalCache)
    → candidate k cache ≡ none
    → cached mem k text (fill k offset symbol cache) ≡ (
        if leb k.len 8
        then some (from_raw symbol.raw)
        else if eq_str (read mem (offset + 4) k.len) text
        then some (from_raw symbol.raw)
        else none)
unfolding cached fill entry into_raw
cached-fill mem k text offset symbol cache h =
    rw (cached, candidate-fill k offset symbol cache h) (ground (arith))

-- A text of at most eight bytes whose line held no matching slot is found in the cache after it was
-- filled, with the symbol that it was filled with, if that is not 0.
pub cached-fill_short :
    (mem : Memory) (k : Key) (text : Str) (offset : ℕ) (symbol : Symbol) (cache : ThreadLocalCache)
    → candidate k cache ≡ none
    → k.len ≤ 8
    → symbol.raw ≢ 0
    → cached mem k text (fill k offset symbol cache) ≡ some (some symbol)
unfolding from_raw
cached-fill_short mem k text offset symbol cache h short nonzero =
    let n : leb k.len 8 ≡ true = ground arith in
    let z : (symbol.raw == 0) ≡ false = ground arith in
    rw (cached-fill mem k text offset symbol cache h, n, z)

-- A longer text whose line held no matching slot, remembered by where it starts, as `get` and
-- `get_or_intern` do, is found in the cache afterwards exactly if it equals the bytes that begin four
-- after its own start.
pub cached-fill_long :
    (mem : Memory) (k : Key) (text : Str) (offset : ℕ) (symbol : Symbol) (cache : ThreadLocalCache)
    → candidate k cache ≡ none
    → 8 < k.len
    → symbol.raw ≢ 0
    → cached mem k text (fill k (text_at mem offset).ptr symbol cache)
      ≡ (if eq_str (read mem (offset + 8) k.len) text then some (some symbol) else none)
unfolding from_raw text_at
cached-fill_long mem k text offset symbol cache h long nonzero =
    let n : leb k.len 8 ≡ false = ground arith in
    let z : (symbol.raw == 0) ≡ false = ground arith in
    let e : offset + 4 + 4 ≡ offset + 8 = omega arith in
    rw (cached-fill mem k text (offset + 4) symbol cache h, n, z, e)
