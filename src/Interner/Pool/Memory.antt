-- ===== src/Interner/Pool/Memory.antt =====
-- Reads behind a write, in the pool of crates/database/src/core/string_interner.rs.
use boomerang.Base.{ℕ, zero, suc, ◌+◌, ◌≤◌, ◌<◌, ◌⊎◌, ◌≡◌, refl, List, [], ◌∷◌, ◌++◌, length, arith}
use boomerang.Interner.Pool.{Memory, read, write}

-- Two memories that agree on a range read alike there.
read_agree :
    (mem other : Memory) (at n : ℕ)
    → ((x : ℕ) → at ≤ x → x < at + n → mem x ≡ other x)
    → read mem at n ≡ read other at n
unfolding read
read_agree mem other at zero h = refl
read_agree mem other at (suc n) h = rw (
  h at (omega arith) (omega arith),
  read_agree mem other (suc at) n (λ x p q. h x (omega arith) (omega arith)),
)

write_ne :
    (mem : Memory) (ptr : ℕ) (bs : List ℕ) (at : ℕ)
    → (at < ptr) ⊎ (ptr + length bs ≤ at)
    → write mem ptr bs at ≡ mem at
unfolding write
write_ne mem ptr [] at h = refl
write_ne mem ptr (b ∷ bs) at h = ground (arith, write_ne mem (suc ptr) bs at)

pub read-write_ne :
    (mem : Memory) (ptr : ℕ) (bs : List ℕ) (at n : ℕ)
    → (at + n ≤ ptr) ⊎ (ptr + length bs ≤ at)
    → read (write mem ptr bs) at n ≡ read mem at n
read-write_ne mem ptr bs at n h =
    read_agree (write mem ptr bs) mem at n (λ x p q. write_ne mem ptr bs x (omega arith))

pub read-write_self :
    (mem : Memory) (ptr : ℕ) (bs : List ℕ) → read (write mem ptr bs) ptr (length bs) ≡ bs
unfolding read write
read-write_self mem ptr [] = refl
read-write_self mem ptr (b ∷ bs) =
    let first : write mem ptr (b ∷ bs) ptr ≡ b = ground arith in
    let rest =
      read_agree (write mem ptr (b ∷ bs)) (write mem (suc ptr) bs) (suc ptr) (length bs)
        (λ x p q. ground arith) in
    rw (first, rest, read-write_self mem (suc ptr) bs)

pub read-append :
    (mem : Memory) (ptr m n : ℕ) → read mem ptr (m + n) ≡ read mem ptr m ++ read mem (ptr + m) n
unfolding read
read-append mem ptr zero n =
    let e : ptr + 0 ≡ ptr = omega arith in let z : 0 + n ≡ n = omega arith in rw (e, z)
read-append mem ptr (suc m) n =
    let e : ptr + suc m ≡ suc ptr + m = omega arith in
    let z : suc m + n ≡ suc (m + n) = omega arith in rw (e, z, read-append mem (suc ptr) m n)
