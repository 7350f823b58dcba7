-- ===== src/Interner/Pool/Alloc.antt =====
-- `MemoryPool::alloc` of crates/database/src/core/string_interner.rs: a record goes behind what its
-- shard holds, and every shard keeps what it holds.
use boomerang.Base.{
  ℕ, ◌+◌, ◌*◌, ◌%◌, ◌^◌, ◌≤◌, ◌<◌, ◌⊎◌, inl, inr, ◌≡◌, sym, ap, ◌∙◌, Bool, true, false, none, some,
  Option-cases, Bool-cases, length, get_elem?, set, length-set, get_elem?-set_self,
  get_elem?-set_ne, lt-length, ◌==◌, arith,
}
use boomerang.Base.Order.{Str}
use boomerang.Interner.Pool.{
  Memory, ShardCursor, MemoryPool, padded_record_size, poison, commit, global_offset, alloc_record,
  alloc,
}

-- A pool of less than 4 GiB whose regions fit, and whose cursors stand inside their regions.
pub record IsPool (pool : MemoryPool) : Type 0 where
  pub header : pool.header_size ≡ 4
  pub room : 4 + length pool.cursors * pool.region_size ≤ pool.capacity
  pub small : pool.capacity < 2 ^ 32
  pub inside :
      (i : ℕ) (c : ShardCursor) → get_elem? pool.cursors i ≡ some c → c.value ≤ pool.region_size

-- What an allocation that returned has done.
pub record Allocated (pool : MemoryPool) (shard_id : ℕ) (text : Str) (offset : ℕ)
    (after : MemoryPool) : Type 0 where
  pub cursor : ShardCursor
  pub at : get_elem? pool.cursors shard_id ≡ some cursor
  pub healthy : cursor.poisoned ≡ false
  pub fits : cursor.value + padded_record_size (length text % 2 ^ 32) ≤ pool.region_size
  pub offset_eq : offset ≡ global_offset pool shard_id cursor
  pub after_eq :
      after ≡ commit pool shard_id cursor offset (padded_record_size (length text % 2 ^ 32)) text

alloc_record-Allocated :
    (debug : Bool) (pool : MemoryPool) (shard_id : ℕ) (c : ShardCursor) (text : Str) {offset : ℕ}
    → get_elem? pool.cursors shard_id ≡ some c
    → c.poisoned ≡ false
    → (alloc_record debug pool shard_id c text).0 ≡ some offset
    → Allocated pool shard_id text offset (alloc_record debug pool shard_id c text).1
unfolding alloc_record
alloc_record-Allocated debug pool shard_id c text at healthy h = record {
  cursor = c;
  at = at;
  healthy = healthy;
  fits = ground arith;
  offset_eq = ground arith;
  after_eq = ground arith;
}

alloc-alloc_record :
    (debug : Bool) (pool : MemoryPool) (shard_id : ℕ) (c : ShardCursor) (text : Str)
    → get_elem? pool.cursors shard_id ≡ some c
    → c.poisoned ≡ false
    → alloc debug pool shard_id text ≡ alloc_record debug pool shard_id c text
unfolding alloc
alloc-alloc_record debug pool shard_id c text e p = ground (arith, e, p)

-- A call that returned found a cursor that was not poisoned.
alloc-healthy :
    (debug : Bool) (pool : MemoryPool) (shard_id : ℕ) (text : Str) {offset : ℕ}
    → (alloc debug pool shard_id text).0 ≡ some offset
    → (c : ShardCursor) × (get_elem? pool.cursors shard_id ≡ some c) × (c.poisoned ≡ false)
unfolding alloc
alloc-healthy debug pool shard_id text h = elim (Option-cases (get_elem? pool.cursors shard_id)) [
  | inl e ↦ absurd (ground (arith, h, e))
  | inr (c, e) ↦ (c, e, ground (arith, h, e))
]

pub alloc-Allocated :
    (debug : Bool) (pool : MemoryPool) (shard_id : ℕ) (text : Str) {offset : ℕ}
    → (alloc debug pool shard_id text).0 ≡ some offset
    → Allocated pool shard_id text offset (alloc debug pool shard_id text).1
alloc-Allocated debug pool shard_id text h =
    let (c, e, p) = alloc-healthy debug pool shard_id text h in
    let q = alloc-alloc_record debug pool shard_id c text e p in
    rw (q) (alloc_record-Allocated debug pool shard_id c text e p (rw (q) at h))

-- What a call leaves, however it ends.
alloc_record-cases :
    (debug : Bool) (pool : MemoryPool) (shard_id : ℕ) (c : ShardCursor) (text : Str)
    → let after = (alloc_record debug pool shard_id c text).1 in
      let size = padded_record_size (length text % 2 ^ 32) in
      (after ≡ pool)
      ⊎ ((after ≡ poison pool shard_id c)
          ⊎ ((after ≡ commit pool shard_id c (global_offset pool shard_id c) size text)
              × (c.value + size ≤ pool.region_size)))
unfolding alloc_record
alloc_record-cases debug pool shard_id c text = ground arith

-- A write and a move of one cursor inside its region.
set-IsPool :
    (pool : MemoryPool) (valid : IsPool pool) (mem : Memory) (shard_id : ℕ) (c : ShardCursor)
    → c.value ≤ pool.region_size
    → IsPool (record pool { mem = mem; cursors = set pool.cursors shard_id c })
set-IsPool pool valid mem shard_id c h = record {
  header = valid.header;
  room = rw (length-set pool.cursors shard_id c) valid.room;
  small = valid.small;
  inside = λ i d at. elim (Bool-cases (shard_id == i)) [
    | inl e ↦
        let same : shard_id ≡ i = ground arith in
        let len = length-set pool.cursors shard_id c in
        let in_range = lt-length (set pool.cursors shard_id c) i at in
        let self = get_elem?-set_self pool.cursors shard_id c (omega arith) in
        let at' : get_elem? (set pool.cursors shard_id c) shard_id ≡ some d =
          ap (λ k. get_elem? (set pool.cursors shard_id c) k) same ∙ at in
        let p : c ≡ d = cc in rw (← p) h
    | inr e ↦
        valid.inside i d (sym (get_elem?-set_ne pool.cursors shard_id i c (ground arith)) ∙ at)
  ];
}

alloc_idle :
    (debug : Bool) (pool : MemoryPool) (shard_id : ℕ) (text : Str)
    → (get_elem? pool.cursors shard_id ≡ none)
      ⊎ ((c : ShardCursor) × (get_elem? pool.cursors shard_id ≡ some c) × (c.poisoned ≡ true))
    → alloc debug pool shard_id text ≡ (none, pool)
unfolding alloc
alloc_idle debug pool shard_id text (inl e) = ground (arith, e)
alloc_idle debug pool shard_id text (inr (c, e, p)) = ground (arith, e, p)

module _ (debug : Bool) (pool : MemoryPool) (shard_id : ℕ) (text : Str) (valid : IsPool pool) where
  alloc_record-IsPool :
      (c : ShardCursor)
      → get_elem? pool.cursors shard_id ≡ some c
      → IsPool (alloc_record debug pool shard_id c text).1
  unfolding poison commit
  alloc_record-IsPool c at = elim (alloc_record-cases debug pool shard_id c text) [
    | inl e ↦ rw (e) valid
    | inr (inl e) ↦ rw (e) (
        set-IsPool pool valid pool.mem shard_id (record c { poisoned = true })
          (valid.inside shard_id c at))
    | inr (inr (e, fits)) ↦ rw (e) (set-IsPool pool valid _ shard_id _ fits)
  ]

  -- A call of `alloc` leaves a pool of less than 4 GiB whose regions fit and whose cursors stand
  -- inside their regions, if it found such a pool, whether it returned or panicked.
  pub alloc-IsPool : IsPool (alloc debug pool shard_id text).1
  alloc-IsPool = elim (Option-cases (get_elem? pool.cursors shard_id)) [
    | inl e ↦ rw (alloc_idle debug pool shard_id text (inl e)) valid
    | inr (c, e) ↦ elim (Bool-cases c.poisoned) [
      | inl p ↦ rw (alloc_idle debug pool shard_id text (inr (c, e, p))) valid
      | inr p ↦ rw (alloc-alloc_record debug pool shard_id c text e p) (alloc_record-IsPool c e)
    ]
  ]
