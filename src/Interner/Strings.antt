-- ===== src/Interner/Strings.antt =====
-- `LockFreeStringArray` of crates/database/src/core/string_interner.rs: the offsets of a shard's
-- strings, in chunks that are allocated when they are first written. One call runs at a time, so the
-- compare-and-swap finds the null that was just read. The thread's LAST_CHUNK holds the pointer that
-- the chunk table holds, which never changes once it is set, and is left out.
pub mod Push
use boomerang.Base.{ℕ, suc, ◌+◌, ◌/◌, ◌%◌, Option, none, some, ltb, leb, ◌==◌, if◌then◌else◌}
use boomerang.Base.Order.{Str}
use boomerang.Base.LittleEndian.{from_le_bytes}
use boomerang.Interner.Pool.{Memory, read}

-- 2 ^ CHUNK_SHIFT
abbrev pub chunk_size : ℕ
chunk_size = 4096

abbrev pub num_chunks : ℕ
num_chunks = 4096

abbrev pub StringChunk : Type 0
StringChunk = ℕ → ℕ

-- `none` is a null pointer.
pub record LockFreeStringArray : Type 0 where
  pub chunks : ℕ → Option StringChunk
  pub len : ℕ

-- A `&str`: where it stands in the pool, and the bytes there.
pub record Text : Type 0 where
  pub ptr : ℕ
  pub bytes : Str

abbrev pub new : LockFreeStringArray
new = record { chunks = λ i. none; len = 0 }

unfoldable pub load_chunk : LockFreeStringArray → ℕ → Option StringChunk
load_chunk strings chunk_idx = strings.chunks chunk_idx

-- The text of the record at an offset.
unfoldable pub text_at : Memory → ℕ → Text
unfolding read
text_at mem offset = record {
  ptr = offset + 4;
  bytes = read mem (offset + 4) (from_le_bytes (read mem offset 4));
}

unfoldable pub get_from_chunk : StringChunk → ℕ → Memory → Option Text
get_from_chunk chunk slot_idx mem =
    if chunk slot_idx == 0 then none else some (text_at mem (chunk slot_idx))

unfoldable pub get : LockFreeStringArray → ℕ → Memory → Option Text
unfolding get_from_chunk load_chunk
get strings index mem =
    if leb strings.len index then none else elim (load_chunk strings (index / chunk_size)) [
      | none ↦ none
      | some chunk ↦ get_from_chunk chunk (index % chunk_size) mem
    ]

-- `none` is undefined behaviour: a null pointer is read.
unfoldable pub get_unchecked : LockFreeStringArray → ℕ → Memory → Option Text
unfolding load_chunk
get_unchecked strings index mem = elim (load_chunk strings (index / chunk_size)) [
  | none ↦ none
  | some chunk ↦ some (text_at mem (chunk (index % chunk_size)))
]

-- The chunk that `push` writes to: a new one is filled with zeros.
unfoldable pub chunk_to_fill : LockFreeStringArray → ℕ → StringChunk
chunk_to_fill strings chunk_idx = elim (strings.chunks chunk_idx) [
  | none ↦ λ i. 0
  | some chunk ↦ chunk
]

unfoldable pub store : StringChunk → ℕ → ℕ → StringChunk
store chunk slot_idx offset i = if i == slot_idx then offset else chunk i

unfoldable pub put_chunk : (ℕ → Option StringChunk) → ℕ → StringChunk → ℕ → Option StringChunk
put_chunk chunks chunk_idx chunk i = if i == chunk_idx then some chunk else chunks i

-- `none` is a panic: there is no chunk of that number. The length was increased before.
unfoldable pub push : LockFreeStringArray → ℕ → Option ℕ × LockFreeStringArray
unfolding chunk_to_fill store put_chunk
push strings offset =
    let index = strings.len in
    let chunk_idx = index / chunk_size in
    if ltb chunk_idx num_chunks
    then (
      some index,
      record {
        chunks =
            put_chunk strings.chunks chunk_idx
              (store (chunk_to_fill strings chunk_idx) (index % chunk_size) offset);
        len = suc index;
      },
    )
    else (none, record strings { len = suc index })
