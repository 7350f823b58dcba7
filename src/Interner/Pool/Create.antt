-- ===== src/Interner/Pool/Create.antt =====
-- `MemoryPool::new` of crates/database/src/core/string_interner.rs.
use boomerang.Base.{
  ℕ, zero, suc, ◌-◌, ◌*◌, ◌/◌, ◌^◌, ◌≤◌, ◌<◌, ◌≡◌, refl, ap, some, length, get_elem?, arith,
}
use native.Mathlib.Nat.{suc-mul, div-mul-le_self, mul_comm}
use boomerang.Base.LittleEndian.{le_bytes}
use boomerang.Interner.Pool
use boomerang.Interner.Pool.{Memory, ShardCursor, MemoryPool, new_cursors, write}
use boomerang.Interner.Pool.Alloc.{IsPool}

mul_mono : (n a b : ℕ) → a ≤ b → n * a ≤ n * b
mul_mono zero a b h = omega arith
mul_mono (suc n) a b h = rw (suc-mul n a, suc-mul n b) (omega (arith, mul_mono n a b h))

length-new_cursors : (n : ℕ) → length (new_cursors n) ≡ n
unfolding new_cursors
length-new_cursors zero = refl
length-new_cursors (suc n) = ap suc (length-new_cursors n)

get_elem?-new_cursors :
    (n i : ℕ) {c : ShardCursor} → get_elem? (new_cursors n) i ≡ some c → c.value ≡ 0
unfolding new_cursors
get_elem?-new_cursors zero i h = cc
get_elem?-new_cursors (suc n) zero h = ground (arith, h)
get_elem?-new_cursors (suc n) (suc i) h = get_elem?-new_cursors n i h

abbrev region : ℕ → ℕ → ℕ
region capacity n = (capacity - 4) / n / 4 * 4

regions-le : (capacity n : ℕ) → n * region capacity n ≤ capacity - 4
regions-le capacity n =
    let q = (capacity - 4) / n in
    let p = mul_mono n (q / 4 * 4) q (omega arith) in
    let r = div-mul-le_self (capacity - 4) n in let s = mul_comm n q in omega arith

abbrev made : Memory → ℕ → ℕ → MemoryPool
made fresh capacity n = record {
  mem = write fresh 0 (le_bytes 4 n);
  cursors = new_cursors n;
  region_size = region capacity n;
  header_size = 4;
  capacity = capacity;
}

made-IsPool :
    (fresh : Memory) (capacity n : ℕ)
    → 4 < capacity
    → capacity < 2 ^ 32
    → IsPool (made fresh capacity n)
made-IsPool fresh capacity n h k = record {
  header = refl;
  room = rw (length-new_cursors n) (omega (arith, regions-le capacity n));
  small = k;
  inside = λ i c at. omega (arith, get_elem?-new_cursors n i at);
}

-- A new pool of less than 4 GiB has regions that fit and cursors that stand inside their regions.
pub new-IsPool :
    (fresh : Memory) (capacity n : ℕ) {pool : MemoryPool}
    → capacity < 2 ^ 32
    → Pool.new fresh capacity n ≡ some pool
    → IsPool pool
unfolding Pool.new
new-IsPool fresh capacity n {pool = pool} h e =
    let big : 4 < capacity = ground (arith, e) in
    let p : made fresh capacity n ≡ pool = ground (arith, e) in
    rw (← p) (made-IsPool fresh capacity n big h)
