-- ===== src/Base/Int.antt =====
-- Signed integers over the native numbers: the values of an `i64`, compared by `Ord`.
use Prim.Native.Nat.{ℕ, compare, Ordering}
use native.Mathlib.Omega.{arith}
use boomerang.Base.Order.{IsOrder, lt, gt}

-- `negsuc n` is -(n + 1).
pub data ℤ : Type 0 where
  pos : ℕ → ℤ
  negsuc : ℕ → ℤ

unfoldable pub cmp_int : ℤ → ℤ → Ordering
cmp_int (pos a) (pos b) = compare a b
cmp_int (pos a) (negsuc b) = gt
cmp_int (negsuc a) (pos b) = lt
cmp_int (negsuc a) (negsuc b) = compare b a

pub cmp_int-IsOrder : IsOrder cmp_int
unfolding cmp_int
cmp_int-IsOrder = record {
  cmp-self = λ a. ground arith;
  cmp_eq = λ a b h. ground arith;
  cmp-flip = λ a b. ground arith;
  cmp_trans = λ a b c h k. ground arith;
}
