-- ===== src/Interner/Pool/Grows.antt =====
-- What `MemoryPool::alloc` of crates/database/src/core/string_interner.rs leaves in memory.
use boomerang.Base.{
  ℕ, zero, suc, ◌+◌, ◌*◌, ◌%◌, ◌^◌, ◌≤◌, ◌<◌, ◌⊎◌, inl, inr, ◌≡◌, sym, ap, ◌∙◌, Bool, some, length,
  ◌≢◌, get_elem?, get_elem?-set_self, get_elem?-set_ne, arith, lt-length,
}
use native.Mathlib.Nat.{suc-mul}
use boomerang.Base.Order.{Str}
use boomerang.Base.LittleEndian.{le_bytes, from_le_bytes, length-le_bytes, from_le_bytes-le_bytes}
use boomerang.Interner.Pool.{
  Memory, read, write, ShardCursor, MemoryPool, padded_record_size, commit, global_offset, alloc,
}
use boomerang.Interner.Strings.{text_at}
use boomerang.Interner.Pool.Memory.{read-write_ne, read-write_self}
use boomerang.Interner.Pool.Alloc.{IsPool, alloc-Allocated}

-- The regions before one end where it begins.
mul_lt : (r i n : ℕ) → i < n → i * r + r ≤ n * r
mul_lt r i zero h = absurd (omega arith)
mul_lt r i (suc n) h = rw (suc-mul n r) (ground (arith, mul_lt r i n))

module _ (pool : MemoryPool) (valid : IsPool pool) where
  region-le :
      (i : ℕ) (c : ShardCursor)
      → get_elem? pool.cursors i ≡ some c
      → i * pool.region_size + pool.region_size + 4 ≤ pool.capacity
  region-le i c at =
      let m = mul_lt pool.region_size i (length pool.cursors) (lt-length pool.cursors i at) in
      let room = valid.room in omega arith

  -- No overflow in the offset.
  pub global_offset_lem :
      (i : ℕ) (c : ShardCursor)
      → get_elem? pool.cursors i ≡ some c
      → global_offset pool i c ≡ 4 + i * pool.region_size + c.value
  unfolding global_offset
  global_offset_lem i c at =
      let m = region-le i c at in
      let small = valid.small in let inside = valid.inside i c at in rw (valid.header) (omega arith)

pub padded-le : (n : ℕ) → n + 8 < 2 ^ 32 → n + 4 ≤ padded_record_size (n % 2 ^ 32)
unfolding padded_record_size
padded-le n h = omega arith

order_cases : (a b : ℕ) → (a < b) ⊎ ((a ≡ b) ⊎ (b < a))
order_cases a b = omega arith

-- The length of a text and the text, written at an offset.
module _ (mem : Memory) (offset : ℕ) (text : Str) where
  abbrev written : Memory
  written = write (write mem offset (le_bytes 4 (length text))) (offset + 4) text

  read_header-written : read written offset 4 ≡ le_bytes 4 (length text)
  read_header-written =
      let hdr = le_bytes 4 (length text) in
      read-write_ne (write mem offset hdr) (offset + 4) text offset 4 (inl (omega arith))
      ∙ (ap (λ k. read (write mem offset hdr) offset k) (sym (length-le_bytes 4 (length text)))
          ∙ read-write_self mem offset hdr)

  text_at-written :
      length text < 2 ^ 32 → text_at written offset ≡ record { ptr = offset + 4; bytes = text }
  unfolding text_at
  text_at-written h = rw (
    read_header-written,
    from_le_bytes-le_bytes 4 (length text) h,
    read-write_self (write mem offset (le_bytes 4 (length text))) (offset + 4) text,
  )

  read-written_ne :
      (at n : ℕ)
      → (at + n ≤ offset) ⊎ (offset + 4 + length text ≤ at)
      → read written at n ≡ read mem at n
  read-written_ne at n h =
      let hdr = le_bytes 4 (length text) in
      let len = length-le_bytes 4 (length text) in
      read-write_ne (write mem offset hdr) (offset + 4) text at n (omega arith)
      ∙ read-write_ne mem offset hdr at n (omega arith)

module _ (debug : Bool) (pool : MemoryPool) (valid : IsPool pool) (shard_id : ℕ) (text : Str)
    (short : length text + 8 < 2 ^ 32) (offset : ℕ)
    (h : (alloc debug pool shard_id text).0 ≡ some offset) where
  -- In a pool of less than 4 GiB whose regions fit and whose cursors stand inside their regions, a
  -- text shorter than 4 GiB less eight bytes that `alloc` returned an offset for is read back at that
  -- offset.
  pub text_at-alloc :
      text_at (alloc debug pool shard_id text).1.mem offset
      ≡ record { ptr = offset + 4; bytes = text }
  unfolding commit
  text_at-alloc =
      let a = alloc-Allocated debug pool shard_id text h in
      rw (a.after_eq) (text_at-written pool.mem offset text (omega arith))

  pub header-alloc :
      from_le_bytes (read (alloc debug pool shard_id text).1.mem offset 4) ≡ length text
  unfolding commit
  header-alloc =
      let a = alloc-Allocated debug pool shard_id text h in
      rw (a.after_eq, read_header-written pool.mem offset text)
        (from_le_bytes-le_bytes 4 (length text) (omega arith))

  pub body-alloc : read (alloc debug pool shard_id text).1.mem (offset + 4) (length text) ≡ text
  unfolding commit
  body-alloc =
      let a = alloc-Allocated debug pool shard_id text h in
      rw (a.after_eq)
        (read-write_self (write pool.mem offset (le_bytes 4 (length text))) (offset + 4) text)

  -- What stands in a region up to its cursor stays.
  pub read-alloc_within :
      (i : ℕ) (c : ShardCursor) (start n : ℕ)
      → get_elem? pool.cursors i ≡ some c
      → 4 + i * pool.region_size ≤ start
      → start + n ≤ 4 + i * pool.region_size + c.value
      → read (alloc debug pool shard_id text).1.mem start n ≡ read pool.mem start n
  unfolding commit
  read-alloc_within i c start n at lower upper =
      let a = alloc-Allocated debug pool shard_id text h in
      let o = a.offset_eq ∙ global_offset_lem pool valid shard_id a.cursor a.at in
      let fits = a.fits in
      let inside = valid.inside i c at in
      let padded = padded-le (length text) short in
      let apart : (start + n ≤ offset) ⊎ (offset + 4 + length text ≤ start) =
        elim (order_cases i shard_id) [
          | inl lt ↦ let m = mul_lt pool.region_size i shard_id lt in omega arith
          | inr (inl same) ↦
              let p : get_elem? pool.cursors i ≡ some a.cursor = rw (same) a.at in
              let q : c.value ≡ a.cursor.value = ground (arith, at, p) in
              let r : i * pool.region_size ≡ shard_id * pool.region_size =
                ap (λ k. k * pool.region_size) same in
              omega arith
          | inr (inr gt) ↦ let m = mul_lt pool.region_size shard_id i gt in omega arith
        ] in
      rw (a.after_eq) (read-written_ne pool.mem offset text start n apart)

  -- In a pool of less than 4 GiB whose regions fit and whose cursors stand inside their regions, an
  -- `alloc` of a text shorter than 4 GiB less eight bytes that returned leaves the bytes of every
  -- shard up to its old cursor as they were.
  pub read-alloc :
      (i : ℕ) (c : ShardCursor)
      → get_elem? pool.cursors i ≡ some c
      → read (alloc debug pool shard_id text).1.mem (4 + i * pool.region_size) c.value
        ≡ read pool.mem (4 + i * pool.region_size) c.value
  read-alloc i c at =
      read-alloc_within i c (4 + i * pool.region_size) c.value at (omega arith) (omega arith)

  pub region_size-alloc : (alloc debug pool shard_id text).1.region_size ≡ pool.region_size
  unfolding commit
  region_size-alloc =
      let a = alloc-Allocated debug pool shard_id text h in
      ap (λ (p : MemoryPool). p.region_size) a.after_eq

  -- The shard's cursor stands behind the record, and the others where they stood.
  pub cursor-alloc :
      (old : ℕ) × (c : ShardCursor) × (get_elem? (alloc debug pool shard_id text).1.cursors shard_id
        ≡ some c)
      × ((b : ShardCursor) → get_elem? pool.cursors shard_id ≡ some b → b.value ≡ old)
      × (offset ≡ 4 + shard_id * pool.region_size + old)
      × (old + 4 + length text ≤ c.value)
  unfolding commit
  cursor-alloc =
      let a = alloc-Allocated debug pool shard_id text h in
      let o = a.offset_eq ∙ global_offset_lem pool valid shard_id a.cursor a.at in
      let padded = padded-le (length text) short in
      let grown : ShardCursor = record a.cursor {
        value = a.cursor.value + padded_record_size (length text % 2 ^ 32);
      } in
      (
        a.cursor.value,
        grown,
        ap (λ (p : MemoryPool). get_elem? p.cursors shard_id) a.after_eq
            ∙ get_elem?-set_self pool.cursors shard_id grown (lt-length pool.cursors shard_id a.at),
        λ b at. ground (arith, at, a.at),
        o,
        omega arith,
      )

  pub cursors-alloc :
      (j : ℕ)
      → shard_id ≢ j
      → get_elem? (alloc debug pool shard_id text).1.cursors j ≡ get_elem? pool.cursors j
  unfolding commit
  cursors-alloc j ne =
      let a = alloc-Allocated debug pool shard_id text h in
      ap (λ (p : MemoryPool). get_elem? p.cursors j) a.after_eq
      ∙ get_elem?-set_ne pool.cursors shard_id j _ ne
