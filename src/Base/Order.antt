-- ===== src/Base/Order.antt =====
-- Rust's `Ordering` is `Prim.Native.Nat.Ordering`: `Less` is `lt`, `Greater` is `gt`.
-- A string is the list of its bytes; `str::cmp` compares byte by byte.
use Prim.Native.Nat.{compare, Ordering}
use boomerang.Base.Tests.{◌==◌}
use Prim.Native.Nat.{ℕ}
use mathlib.Core.Path.{◌≡◌, refl}
use mathlib.Core.Bool.{Bool, true, false, ◌&&◌}
use mathlib.Core.List.{List, [], ◌∷◌}
use native.Mathlib.Omega.{arith}
pub use Prim.Native.Nat.Ordering.{lt, eq, gt}

abbrev pub Str : Type 0
Str = List ℕ

-- `Ordering::then`
abbrev pub then_cmp : Ordering → Ordering → Ordering
then_cmp lt o = lt
then_cmp eq o = o
then_cmp gt o = gt

-- `Ordering::reverse`
abbrev pub flip : Ordering → Ordering
flip lt = gt
flip eq = eq
flip gt = lt

pub record IsOrder {A : Type 0} (cmp : A → A → Ordering) : Type 0 where
  pub cmp-self : (a : A) → cmp a a ≡ eq
  pub cmp_eq : (a b : A) → cmp a b ≡ eq → a ≡ b
  pub cmp-flip : (a b : A) → cmp b a ≡ flip (cmp a b)
  pub cmp_trans : (a b c : A) → cmp a b ≡ lt → cmp b c ≡ lt → cmp a c ≡ lt

unfoldable pub cmp_str : Str → Str → Ordering
cmp_str [] [] = eq
cmp_str [] (y ∷ ys) = lt
cmp_str (x ∷ xs) [] = gt
cmp_str (x ∷ xs) (y ∷ ys) = then_cmp (compare x y) (cmp_str xs ys)

cmp_str_self : (s : Str) → cmp_str s s ≡ eq
unfolding cmp_str
cmp_str_self [] = refl
cmp_str_self (x ∷ xs) = ground (arith, cmp_str_self xs)

cmp_str-eq : (s t : Str) → cmp_str s t ≡ eq → s ≡ t
unfolding cmp_str
cmp_str-eq [] [] h = refl
cmp_str-eq [] (y ∷ ys) h = cc
cmp_str-eq (x ∷ xs) [] h = cc
cmp_str-eq (x ∷ xs) (y ∷ ys) h = ground (arith, cmp_str-eq xs ys)

cmp_str-flip : (s t : Str) → cmp_str t s ≡ flip (cmp_str s t)
unfolding cmp_str
cmp_str-flip [] [] = refl
cmp_str-flip [] (y ∷ ys) = refl
cmp_str-flip (x ∷ xs) [] = refl
cmp_str-flip (x ∷ xs) (y ∷ ys) = ground (arith, cmp_str-flip xs ys)

cmp_str_trans : (s t u : Str) → cmp_str s t ≡ lt → cmp_str t u ≡ lt → cmp_str s u ≡ lt
unfolding cmp_str
cmp_str_trans [] [] u h k = cc
cmp_str_trans [] (y ∷ ys) [] h k = cc
cmp_str_trans [] (y ∷ ys) (z ∷ zs) h k = refl
cmp_str_trans (x ∷ xs) [] u h k = cc
cmp_str_trans (x ∷ xs) (y ∷ ys) [] h k = cc
cmp_str_trans (x ∷ xs) (y ∷ ys) (z ∷ zs) h k = ground (arith, cmp_str_trans xs ys zs)

pub cmp_str-IsOrder : IsOrder cmp_str
cmp_str-IsOrder = record {
  cmp-self = cmp_str_self;
  cmp_eq = cmp_str-eq;
  cmp-flip = cmp_str-flip;
  cmp_trans = cmp_str_trans;
}

-- `==` on strings
unfoldable pub eq_str : Str → Str → Bool
eq_str [] [] = true
eq_str [] (y ∷ ys) = false
eq_str (x ∷ xs) [] = false
eq_str (x ∷ xs) (y ∷ ys) = x == y && eq_str xs ys

pub eq_str_eq : (s t : Str) → eq_str s t ≡ true → s ≡ t
unfolding eq_str
eq_str_eq [] [] h = refl
eq_str_eq [] (y ∷ ys) h = cc
eq_str_eq (x ∷ xs) [] h = cc
eq_str_eq (x ∷ xs) (y ∷ ys) h = ground (arith, eq_str_eq xs ys)

pub eq_str_self : (s : Str) → eq_str s s ≡ true
unfolding eq_str
eq_str_self [] = refl
eq_str_self (x ∷ xs) = ground (arith, eq_str_self xs)

-- The lexicographic order of pairs, as `PartialOrd` derives it for tuples.
unfoldable pub cmp_pair :
    {A B : Type 0} → (A → A → Ordering) → (B → B → Ordering) → A × B → A × B → Ordering
cmp_pair f g (a, b) (c, d) = then_cmp (f a c) (g b d)

pub cmp_pair-IsOrder :
    {A B : Type 0} {f : A → A → Ordering} {g : B → B → Ordering}
    → IsOrder f
    → IsOrder g
    → IsOrder (cmp_pair f g)
unfolding cmp_pair
cmp_pair-IsOrder {f} {g} p q = record {
  cmp-self = λ a. ground (arith, p.cmp-self a.0, q.cmp-self a.1);
  cmp_eq = λ a b h. ground (arith, p.cmp_eq a.0 b.0, q.cmp_eq a.1 b.1);
  cmp-flip = λ a b. ground (arith, p.cmp-flip a.0 b.0, q.cmp-flip a.1 b.1);
  cmp_trans = λ a b c h k.
      ground (
        arith,
        p.cmp_trans a.0 b.0 c.0,
        q.cmp_trans a.1 b.1 c.1,
        p.cmp_eq a.0 b.0,
        p.cmp_eq b.0 c.0,
      );
}
