-- ===== src/Interner/Pool.antt =====
-- `MemoryPool` of crates/database/src/core/string_interner.rs: one allocation, a header of four bytes
-- and a region for each shard. An address is counted from the start of the allocation, and the
-- content before a write is whatever the allocator returned. A call returns `none` where it panics,
-- and the pool that it leaves; `debug` says whether debug assertions are compiled in.
pub mod Memory
pub mod Alloc
pub mod Grows
pub mod Create
use boomerang.Base.{
  ℕ, zero, suc, ◌+◌, ◌-◌, ◌*◌, ◌/◌, ◌%◌, ◌^◌, Bool, true, false, ◌&&◌, ◌||◌, not, Option, none,
  some, List, [], ◌∷◌, ◌++◌, length, get_elem?, set, take, ltb, leb, ◌==◌, if◌then◌else◌,
}
use Prim.Native.Nat.{min}
use boomerang.Base.Order.{Str}
use boomerang.Base.LittleEndian.{le_bytes, from_le_bytes}

abbrev pub Memory : Type 0
Memory = ℕ → ℕ

-- `slice::from_raw_parts(ptr, n)`
unfoldable pub read : Memory → ℕ → ℕ → List ℕ
read mem ptr zero = []
read mem ptr (suc n) = mem ptr ∷ read mem (suc ptr) n

-- `copy_nonoverlapping`, and `write_unaligned` of an integer's bytes.
unfoldable pub write : Memory → ℕ → List ℕ → Memory
write mem ptr [] at = mem at
write mem ptr (b ∷ bs) at = if at == ptr then b else write mem (suc ptr) bs at

pub record ShardCursor : Type 0 where
  pub value : ℕ
  pub poisoned : Bool

pub record MemoryPool : Type 0 where
  pub mem : Memory
  pub cursors : List ShardCursor
  pub region_size : ℕ
  pub header_size : ℕ
  pub capacity : ℕ

abbrev pub header_size_bytes : ℕ
header_size_bytes = 4

-- `!3` clears the two low bits.
abbrev pub align_down : ℕ → ℕ
align_down n = n / 4 * 4

unfoldable pub padded_record_size : ℕ → ℕ
padded_record_size len = align_down ((len + 4 + 3) % 2 ^ 32)

abbrev pub new_cursor : ShardCursor
new_cursor = record { value = 0; poisoned = false }

unfoldable pub new_cursors : ℕ → List ShardCursor
new_cursors zero = []
new_cursors (suc n) = new_cursor ∷ new_cursors n

-- `fresh` is what the allocator returned. `none` is a failed `assert!`.
unfoldable pub new : Memory → ℕ → ℕ → Option MemoryPool
unfolding new_cursors
new fresh capacity shard_count =
    let region_size = align_down ((capacity - header_size_bytes) / shard_count) in
    if ltb 0 shard_count && (ltb header_size_bytes capacity && ltb 0 region_size)
    then some (record {
      mem = write fresh 0 (le_bytes 4 shard_count);
      cursors = new_cursors shard_count;
      region_size = region_size;
      header_size = header_size_bytes;
      capacity = capacity;
    })
    else none

-- The store to `poisoned`, before the panic of `pool_exhausted`.
unfoldable pub poison : MemoryPool → ℕ → ShardCursor → MemoryPool
poison pool shard_id shard = record pool {
  cursors = set pool.cursors shard_id (record shard { poisoned = true });
}

-- The length and the text at `global_offset`, and the cursor behind them.
unfoldable pub commit : MemoryPool → ℕ → ShardCursor → ℕ → ℕ → Str → MemoryPool
unfolding write
commit pool shard_id shard global_offset size text = record pool {
  mem = write (write pool.mem global_offset (le_bytes 4 (length text))) (global_offset + 4) text;
  cursors = set pool.cursors shard_id (record shard { value = shard.value + size });
}

unfoldable pub global_offset : MemoryPool → ℕ → ShardCursor → ℕ
global_offset pool shard_id shard =
    (pool.header_size + shard_id * pool.region_size + shard.value) % 2 ^ 32

module _ (debug : Bool) where
  -- `alloc` behind the test of `poisoned`.
  unfoldable pub alloc_record : MemoryPool → ℕ → ShardCursor → Str → Option ℕ × MemoryPool
  unfolding padded_record_size poison commit global_offset
  alloc_record pool shard_id shard text =
      let size = padded_record_size (length text % 2 ^ 32) in
      let offset = global_offset pool shard_id shard in
      if debug && not (ltb (length text) (2 ^ 32 - 8))
      then (none, pool)
      else if ltb pool.region_size shard.value || ltb (pool.region_size - shard.value) size
      then (none, poison pool shard_id shard)
      else if debug && not (leb (offset + size) pool.capacity)
      then (none, pool)
      else (some offset, commit pool shard_id shard offset size text)

  -- A shard without a cursor is an index out of bounds.
  unfoldable pub alloc : MemoryPool → ℕ → Str → Option ℕ × MemoryPool
  unfolding alloc_record
  alloc pool shard_id text = elim (get_elem? pool.cursors shard_id) [
    | none ↦ (none, pool)
    | some shard ↦ if shard.poisoned then (none, pool) else alloc_record pool shard_id shard text
  ]

-- The second loop of `committed_bytes`, from shard `shard_id` on.
unfoldable pub committed_regions : MemoryPool → ℕ → List ShardCursor → List ℕ
unfolding read
committed_regions pool shard_id [] = []
committed_regions pool shard_id (c ∷ cs) =
    read pool.mem (pool.header_size + shard_id * pool.region_size) (min c.value pool.region_size)
    ++ committed_regions pool (suc shard_id) cs

unfoldable pub committed_bytes : MemoryPool → List ℕ
unfolding committed_regions
committed_bytes pool = read pool.mem 0 pool.header_size ++ committed_regions pool 0 pool.cursors

unfoldable pub read_shard_count_header : List ℕ → Option ℕ
read_shard_count_header bytes =
    if leb 4 (length bytes) then some (from_le_bytes (take 4 bytes)) else none
