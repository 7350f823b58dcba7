-- ===== src/Builder/Places.antt =====
-- Where the tables are moved to: `old_to_new_table` and the new tables of `build` in
-- crates/database/src/core/schema_builder.rs.
use boomerang.Base.{
  ℕ, zero, suc, ◌+◌, ◌%◌, ◌^◌, ◌<◌, ◌≡◌, ◌≢◌, refl, sym, ap, ◌∙◌, inl, inr, true, some, List, [],
  ◌∷◌, length, get_elem?, set, length-set, get_elem?-lt, get_elem?-set_ne, get_elem?-set_self, ltb,
  arith,
}
use boomerang.Base.Search.{eq_cases}
use boomerang.Builder.Build.{new_indices, pick}
use boomerang.Builder.Kahn.Count.{count, count-get_elem?}
use boomerang.Builder.Kahn.Drain.{bit}
use boomerang.Builder.Kahn.Order.{IsOnce}

sum_count : ℕ → List ℕ → ℕ
sum_count zero xs = 0
sum_count (suc n) xs = count n xs + sum_count n xs

sum_count-cons : (n x : ℕ) (xs : List ℕ) → sum_count n (x ∷ xs) ≡ sum_count n xs + bit (ltb x n)
unfolding sum_count count bit
sum_count-cons zero x xs = ground arith
sum_count-cons (suc n) x xs = ground (arith, sum_count-cons n x xs)

sum_count-length :
    (n : ℕ) (xs : List ℕ) → ((v : ℕ) → 0 < count v xs → v < n) → sum_count n xs ≡ length xs
unfolding sum_count count bit
sum_count-length n [] h = sum_count_nil n
  where
    sum_count_nil : (n : ℕ) → sum_count n [] ≡ 0
    sum_count_nil zero = refl
    sum_count_nil (suc n) = omega (arith, sum_count_nil n)
sum_count-length n (x ∷ xs) h = ground (
  arith,
  sum_count-cons n x xs,
  sum_count-length n xs (λ v c. h v (ground (arith, c))),
  h x (ground arith),
)

-- A list of `n` tables, each once, has length `n`.
pub IsOnce-length : (n : ℕ) (xs : List ℕ) → IsOnce n xs → length xs ≡ n
unfolding IsOnce bit sum_count
IsOnce-length n xs h =
    sym (sum_count-length n xs (λ v c. ground (arith, h v, c)))
    ∙ counted n (λ v low. ground (arith, h v, low))
  where
    counted : (m : ℕ) → ((v : ℕ) → v < m → count v xs ≡ 1) → sum_count m xs ≡ m
    counted zero k = refl
    counted (suc m) k = omega (arith, k m (omega arith), counted m (λ v low. k v (omega arith)))

pub IsOnce-lt : (n : ℕ) (xs : List ℕ) (i v : ℕ) → IsOnce n xs → get_elem? xs i ≡ some v → v < n
unfolding IsOnce bit
IsOnce-lt n xs i v h e = ground (arith, h v, count-get_elem? v xs i e)

-- The new index of each table: its place in the order.
pub new_indices_lem :
    (olds : List ℕ) (i : ℕ) (xs : List ℕ)
    → ((v : ℕ) → 0 < count v olds → (v < length xs) × (count v olds ≡ 1))
    → (ys : List ℕ) × (new_indices i olds xs ≡ some ys)
      × (length ys ≡ length xs)
      × ((v : ℕ) → count v olds ≡ 0 → get_elem? ys v ≡ get_elem? xs v)
      × ((j old : ℕ) → get_elem? olds j ≡ some old → get_elem? ys old ≡ some ((i + j) % 2 ^ 16))
unfolding new_indices count
new_indices_lem [] i xs h = (xs, refl, refl, (λ v e. refl), λ j old e. cc)
new_indices_lem (old ∷ olds) i xs h =
    let (low, one) = h old (ground arith) in
    let last : count old olds ≡ 0 = ground (arith, one) in
    let next = set xs old (i % 2 ^ 16) in
    let (ys, e, size, same, placed) = new_indices_lem olds (suc i) next (λ v c.
      elim (eq_cases old v) [
        | inl here ↦ absurd (ground (arith, last, c, here))
        | inr ne ↦
            let (low', one') = h v (ground (arith, c)) in
            (ground (arith, low', length-set xs old (i % 2 ^ 16)), ground (arith, one', ne))
      ]) in
    let c : ltb old (length xs) ≡ true = ground (arith, low) in
    (
      ys,
      rw (new_indices, c) e,
      size ∙ length-set xs old (i % 2 ^ 16),
      (λ v z.
          let ne : old ≢ v = ground (arith, z) in
          same v (ground (arith, z)) ∙ get_elem?-set_ne xs old v (i % 2 ^ 16) ne),
      places old i olds xs ys low last same placed,
    )
  where
    places :
        (old i : ℕ) (olds xs ys : List ℕ)
        → old < length xs
        → count old olds ≡ 0
        → ((v : ℕ) → count v olds ≡ 0 → get_elem? ys v ≡ get_elem? (set xs old (i % 2 ^ 16)) v)
        → ((j v : ℕ) → get_elem? olds j ≡ some v → get_elem? ys v ≡ some ((suc i + j) % 2 ^ 16))
        → (j v : ℕ) → get_elem? (old ∷ olds) j ≡ some v
        → get_elem? ys v ≡ some ((i + j) % 2 ^ 16)
    places old i olds xs ys low last same placed zero v e =
        let here : old ≡ v = cc in
        ap (get_elem? ys) (sym here)
        ∙ same old last
        ∙ get_elem?-set_self xs old (i % 2 ^ 16) low
        ∙ ap (λ k. some (k % 2 ^ 16)) (omega arith)
    places old i olds xs ys low last same placed (suc j) v e =
        placed j v e ∙ ap (λ k. some (k % 2 ^ 16)) (omega arith)

-- The tables in the new order.
pub pick_lem :
    {A : Type 0} (xs : List A) (is : List ℕ)
    → ((j i : ℕ) → get_elem? is j ≡ some i → i < length xs)
    → (ys : List A) × (pick xs is ≡ some ys)
      × (length ys ≡ length is)
      × ((j i : ℕ) → get_elem? is j ≡ some i → get_elem? ys j ≡ get_elem? xs i)
unfolding pick
pick_lem xs [] h = ([], refl, refl, λ j i e. cc)
pick_lem xs (i ∷ is) h =
    let (x, at) = get_elem?-lt xs i (h 0 i refl) in
    let (ys, e, size, picked) = pick_lem xs is (λ j k q. h (suc j) k q) in
    (x ∷ ys, rw (pick, at, e) refl, ap suc size, picks xs i x is ys at picked)
  where
    picks :
        {A : Type 0} (xs : List A) (i : ℕ) (x : A) (is : List ℕ) (ys : List A)
        → get_elem? xs i ≡ some x
        → ((j k : ℕ) → get_elem? is j ≡ some k → get_elem? ys j ≡ get_elem? xs k)
        → (j k : ℕ) → get_elem? (i ∷ is) j ≡ some k
        → get_elem? (x ∷ ys) j ≡ get_elem? xs k
    picks xs i x is ys at picked zero k e = let here : i ≡ k = cc in sym at ∙ ap (get_elem? xs) here
    picks xs i x is ys at picked (suc j) k e = picked j k e
