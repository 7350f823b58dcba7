-- ===== src/Base/Search.antt =====
-- `[T]::binary_search_by` of the standard library, over the positions of a slice, as schema.rs and
-- schema_builder.rs of crates/database/src/core call it.
use Prim.Native.Nat.{compare, Ordering}
use boomerang.Base.Tests.{ltb, if◌then◌else◌}
use boomerang.Base.Order.{lt, eq, gt}
use Prim.Native.Nat.{ℕ, zero, suc, ◌+◌, ◌-◌, ◌/◌, ◌≤◌, ◌<◌}
use mathlib.Core.Path.{◌≡◌, refl, sym, ap, ◌∙◌}
use mathlib.Core.Logic.{◌≢◌, ◌⊎◌, inl, inr}
use mathlib.Core.Bool.{true, false}
use mathlib.Core.Option.{Option, none, some}
use native.Mathlib.Omega.{arith}

-- The test of a position. `none` is a panic.
abbrev pub Probe : Type 0
Probe = ℕ → Option Ordering

pub order_cases : (a b : ℕ) → (a < b) ⊎ (b ≤ a)
order_cases a b = omega arith

-- The loop: `none` is a panic, or fuel that ran out. The slice has `size` positions from `base` on.
unfoldable pub search_loop : Probe → ℕ → ℕ → ℕ → Option ℕ
search_loop probe zero base size = none
search_loop probe (suc fuel) base size =
    let half = size / 2 in
    let next = λ (b : ℕ). search_loop probe fuel b (size - half) in
    if ltb 1 size
    then elim (probe (base + half)) [
      | none ↦ none
      | some gt ↦ next base
      | some _ ↦ next (base + half)
    ]
    else some base

-- `Ok` is `some`; where `Err` would insert is dropped.
unfoldable pub binary_search : Probe → ℕ → Option (Option ℕ)
unfolding search_loop
binary_search probe zero = some none
binary_search probe (suc n) = elim (search_loop probe (suc n) 0 (suc n)) [
  | none ↦ none
  | some base ↦ elim (probe base) [ none ↦ none | some eq ↦ some (some base) | some _ ↦ some none ]
]

-- The positions below `n` have keys in ascending order, which the probe compares with `target`.
pub record IsSearch (probe : Probe) (n : ℕ) (key : ℕ → ℕ) (target : ℕ) : Type 0 where
  pub probes : (i : ℕ) → i < n → probe i ≡ some (compare (key i) target)
  pub ascends : (i j : ℕ) → i ≤ j → j < n → key i ≤ key j

above :
    (probe : Probe) (fuel base size : ℕ)
    → 1 < size
    → probe (base + size / 2) ≡ some gt
    → search_loop probe (suc fuel) base size ≡ search_loop probe fuel base (size - size / 2)
unfolding search_loop
above probe fuel base size h e =
    let c : ltb 1 size ≡ true = ground arith in rw (search_loop, c, e) refl

not_above :
    (probe : Probe) (fuel base size : ℕ) (o : Ordering)
    → 1 < size
    → probe (base + size / 2) ≡ some o
    → o ≢ gt
    → search_loop probe (suc fuel) base size
      ≡ search_loop probe fuel (base + size / 2) (size - size / 2)
unfolding search_loop
not_above probe fuel base size lt h e ne =
    let c : ltb 1 size ≡ true = ground arith in rw (search_loop, c, e) refl
not_above probe fuel base size eq h e ne =
    let c : ltb 1 size ≡ true = ground arith in rw (search_loop, c, e) refl
not_above probe fuel base size gt h e ne = absurd (ne refl)

module _ (probe : Probe) (n : ℕ) (key : ℕ → ℕ) (target : ℕ) (s : IsSearch probe n key target) where
  -- What is behind the position is greater, and its key is not, unless nothing is before it.
  record Found (base : ℕ) : Type 0 where
    inside : base < n
    start : (base ≡ 0) ⊎ (key base ≤ target)
    behind : (i : ℕ) → base < i → i < n → target < key i

  search_loop-Found :
      (fuel base size : ℕ)
      → size ≤ fuel
      → 0 < size
      → base + size ≤ n
      → (base ≡ 0) ⊎ (key base ≤ target)
      → ((i : ℕ) → base + size ≤ i → i < n → target < key i)
      → (b : ℕ) × (search_loop probe fuel base size ≡ some b) × Found b
  unfolding search_loop
  search_loop-Found zero base size f p h a g = absurd (omega arith)
  search_loop-Found (suc fuel) base size f p h a g = elim (order_cases 1 size) [
    | inr one ↦ (
      base,
      let c : ltb 1 size ≡ false = ground arith in rw (search_loop, c) refl,
      record { inside = omega arith; start = a; behind = λ i q r. g i (omega arith) r },
    )
    | inl many ↦
        let mid = base + size / 2 in
        let probed = s.probes mid (omega arith) in
        elim (order_cases target (key mid)) [
          | inl greater ↦
              let e : probe mid ≡ some gt = probed ∙ ground arith in
              let (b, r, found) =
                search_loop-Found fuel base (size - size / 2) (omega arith) (omega arith)
                  (omega arith) a
                  (λ i q r. let m = s.ascends mid i (omega arith) r in omega arith) in
              (b, above probe fuel base size many e ∙ r, found)
          | inr not_greater ↦
              let (b, r, found) =
                search_loop-Found fuel mid (size - size / 2) (omega arith) (omega arith)
                  (omega arith) (inr not_greater) (λ i q r. g i (omega arith) r) in
              (b, not_above probe fuel base size _ many probed (ground arith) ∙ r, found)
        ]
  ]

compare_ne : (a b : ℕ) → a ≢ b → (compare a b ≡ lt) ⊎ (compare a b ≡ gt)
compare_ne a b h = ground arith

pub eq_cases : (a b : ℕ) → (a ≡ b) ⊎ (a ≢ b)
eq_cases a b = ground arith

-- A search of keys in ascending order finds a position of the target's key, if there is one.
pub binary_search-Found :
    (probe : Probe) (n : ℕ) (key : ℕ → ℕ) (target : ℕ)
    → IsSearch probe n key target
    → ((i : ℕ) × (i < n) × (key i ≡ target) × (binary_search probe n ≡ some (some i)))
      ⊎ (((i : ℕ) → i < n → key i ≢ target) × (binary_search probe n ≡ some none))
unfolding binary_search
binary_search-Found probe zero key target s = inr (λ i h e. absurd (omega arith), refl)
binary_search-Found probe (suc n) key target s =
    let (b, e, found) =
      search_loop-Found probe (suc n) key target s (suc n) 0 (suc n) (omega arith) (omega arith)
        (omega arith) (inl refl) (λ i q r. absurd (omega arith)) in
    let probed = s.probes b found.inside in
    elim (eq_cases (key b) target) [
      | inl hit ↦
          let p : probe b ≡ some eq = probed ∙ ground arith in
          inl (b, found.inside, hit, rw (binary_search, e, p) refl)
      | inr miss ↦ inr (
        λ i q hit. not_there b found miss i q hit,
        elim (compare_ne (key b) target miss) [
          | inl o ↦ let p : probe b ≡ some lt = probed ∙ ap some o in rw (binary_search, e, p) refl
          | inr o ↦ let p : probe b ≡ some gt = probed ∙ ap some o in rw (binary_search, e, p) refl
        ],
      )
    ]
  where
    not_there :
        (b : ℕ)
        → Found probe (suc n) key target s b
        → key b ≢ target
        → (i : ℕ) → i < suc n
        → key i ≢ target
    not_there b found miss i q hit = elim (order_cases b i) [
      | inl after ↦ let g = found.behind i after q in omega arith
      | inr before ↦
          let m = s.ascends i b before found.inside in
          let st = found.start in
          elim (eq_cases i b) [
            | inl same ↦ miss (ap key (sym same) ∙ hit)
            | inr other ↦ absurd (omega arith)
          ]
    ]
