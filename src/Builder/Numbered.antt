-- ===== src/Builder/Numbered.antt =====
-- A list with gaps, without its gaps: how crates/database/src/core/schema_builder.rs moves a range of
-- the old pool of foreign keys to the new pool.
use boomerang.Base.{
  All, ℕ, zero, suc, ◌+◌, ◌<◌, ◌≤◌, ◌≡◌, ◌≢◌, refl, sym, ap, ◌∙◌, inl, inr, true, false, Option,
  none, some, List, [], ◌∷◌, ◌++◌, length, length-append, take-append, drop-append, get_elem?, set,
  take, drop, leb, ◌==◌, if◌then◌else◌, arith,
}
use boomerang.Base.Search.{eq_cases}
use boomerang.Schema.Lookup.{slice}
use boomerang.Builder.Build.{no_start, count_fk, count_fks, new_range}

module _ {ℓ} {A : Type ℓ} where
  -- What is there.
  unfoldable pub present : List (Option A) → List A
  present [] = []
  present (none ∷ xs) = present xs
  present (some x ∷ xs) = x ∷ present xs

  -- Where it is then, from `k` on.
  unfoldable pub number : ℕ → List (Option A) → List (Option ℕ)
  number k [] = []
  number k (none ∷ xs) = none ∷ number k xs
  number k (some x ∷ xs) = some k ∷ number (suc k) xs

  -- Nothing is there from position `p` on.
  unfoldable pub IsBlank : ℕ → List (Option A) → Type ℓ
  IsBlank p xs = (i : ℕ) (x : A) → p ≤ i → get_elem? xs i ≢ some (some x)

  pub present-append : (xs ys : List (Option A)) → present (xs ++ ys) ≡ present xs ++ present ys
  unfolding present
  present-append [] ys = refl
  present-append (none ∷ xs) ys = present-append xs ys
  present-append (some x ∷ xs) ys = ap (λ zs. x ∷ zs) (present-append xs ys)

  pub present-All :
      (P : A → Type 0) (xs : List (Option A))
      → ((p : ℕ) (x : A) → get_elem? xs p ≡ some (some x) → P x)
      → All P (present xs)
  unfolding present
  present-All P [] h = tt
  present-All P (none ∷ xs) h = present-All P xs (λ p x e. h (suc p) x e)
  present-All P (some x ∷ xs) h = (h 0 x refl, present-All P xs (λ p y e. h (suc p) y e))

  pub length-present : (xs : List (Option A)) → length (present xs) ≤ length xs
  unfolding present
  length-present [] = omega arith
  length-present (none ∷ xs) = omega (arith, length-present xs)
  length-present (some x ∷ xs) = omega (arith, length-present xs)

  pub length-number : (k : ℕ) (xs : List (Option A)) → length (number k xs) ≡ length xs
  unfolding number
  length-number k [] = refl
  length-number k (none ∷ xs) = ap suc (length-number k xs)
  length-number k (some x ∷ xs) = ap suc (length-number (suc k) xs)

  blank-present : (xs : List (Option A)) → IsBlank 0 xs → present xs ≡ []
  unfolding present IsBlank
  blank-present [] h = refl
  blank-present (none ∷ xs) h = blank-present xs (λ i x p. h (suc i) x (omega arith))
  blank-present (some x ∷ xs) h = absurd (h 0 x (omega arith) refl)

  -- A value behind all others is behind them in the new pool.
  pub present-set :
      (xs : List (Option A)) (p : ℕ) (x : A)
      → p < length xs
      → IsBlank p xs
      → present (set xs p (some x)) ≡ present xs ++ x ∷ []
  unfolding present IsBlank
  present-set [] p x h b = absurd (omega (arith, h))
  present-set (some y ∷ xs) zero x h b = absurd (b 0 y (omega arith) refl)
  present-set (none ∷ xs) zero x h b =
      let e : present xs ≡ [] = blank-present xs (λ i y q. b (suc i) y (omega arith)) in rw (e) refl
  present-set (none ∷ xs) (suc p) x h b =
      present-set xs p x (omega arith) (λ i y q. b (suc i) y (omega arith))
  present-set (some y ∷ xs) (suc p) x h b =
      ap (λ zs. y ∷ zs) (present-set xs p x (omega arith) (λ i z q. b (suc i) z (omega arith)))

  number_blank : (j k : ℕ) (xs : List (Option A)) → IsBlank 0 xs → number j xs ≡ number k xs
  unfolding number IsBlank
  number_blank j k [] b = refl
  number_blank j k (none ∷ xs) b =
      ap (λ zs. none ∷ zs) (number_blank j k xs (λ i x p. b (suc i) x (omega arith)))
  number_blank j k (some x ∷ xs) b = absurd (b 0 x (omega arith) refl)

  pub number-set :
      (k : ℕ) (xs : List (Option A)) (p : ℕ) (x : A)
      → p < length xs
      → IsBlank p xs
      → number k (set xs p (some x)) ≡ set (number k xs) p (some (k + length (present xs)))
  unfolding present number IsBlank
  number-set k [] p x h b = absurd (omega (arith, h))
  number-set k (some y ∷ xs) zero x h b = absurd (b 0 y (omega arith) refl)
  number-set k (none ∷ xs) zero x h b =
      let blank : IsBlank 0 xs = λ i y q. b (suc i) y (omega arith) in
      let e : present xs ≡ [] = blank-present xs blank in
      rw (e) (
        ap (λ zs. some k ∷ zs) (number_blank (suc k) k xs blank)
        ∙ ap (λ n. some n ∷ number k xs) (omega arith))
  number-set k (none ∷ xs) (suc p) x h b =
      ap (λ zs. none ∷ zs) (number-set k xs p x (omega arith) (λ i y q. b (suc i) y (omega arith)))
  number-set k (some y ∷ xs) (suc p) x h b =
      let more : suc k + length (present xs) ≡ k + suc (length (present xs)) = omega arith in
      ap (λ zs. some k ∷ zs)
        (number-set (suc k) xs p x (omega arith) (λ i z q. b (suc i) z (omega arith))
          ∙ ap (λ n. set (number (suc k) xs) p (some n)) more)

  drop-number :
      (s k : ℕ) (xs : List (Option A))
      → drop s (number k xs) ≡ number (k + length (present (take s xs))) (drop s xs)
  unfolding present number
  drop-number zero k xs = ap (λ n. number n xs) (omega arith)
  drop-number (suc s) k [] = refl
  drop-number (suc s) k (none ∷ xs) = drop-number s k xs
  drop-number (suc s) k (some x ∷ xs) =
      drop-number s (suc k) xs ∙ ap (λ n. number n (drop s xs)) (omega arith)

  take-number : (n k : ℕ) (xs : List (Option A)) → take n (number k xs) ≡ number k (take n xs)
  unfolding number
  take-number zero k xs = refl
  take-number (suc n) k [] = refl
  take-number (suc n) k (none ∷ xs) = ap (λ zs. none ∷ zs) (take-number n k xs)
  take-number (suc n) k (some x ∷ xs) = ap (λ zs. some k ∷ zs) (take-number n (suc k) xs)

  count_fks_started :
      (k : ℕ) (xs : List (Option A)) (st n : ℕ)
      → st ≢ no_start
      → count_fks (number k xs) (st, n) ≡ (st, n + length (present xs))
  unfolding count_fks count_fk number present
  count_fks_started k [] st n h = ground arith
  count_fks_started k (none ∷ xs) st n h = count_fks_started k xs st n h
  count_fks_started k (some x ∷ xs) st n h =
      let c : (st == no_start) ≡ false = ground (arith, h) in
      ap (λ t. count_fks (number (suc k) xs) (if t then k else st, suc n)) c
      ∙ count_fks_started (suc k) xs st (suc n) h
      ∙ ap (λ m. (st, m)) (omega arith)

  count_fks-number :
      (k : ℕ) (xs : List (Option A))
      → k < no_start
      → count_fks (number k xs) (no_start, 0)
        ≡ (if length (present xs) == 0 then no_start else k, length (present xs))
  unfolding count_fks count_fk number present
  count_fks-number k [] h = refl
  count_fks-number k (none ∷ xs) h = count_fks-number k xs h
  count_fks-number k (some x ∷ xs) h =
      count_fks_started (suc k) xs k 1 (ground (arith, h)) ∙ ground arith

  take-drop : (n : ℕ) (xs : List (Option A)) → take n xs ++ drop n xs ≡ xs
  take-drop zero xs = refl
  take-drop (suc n) [] = refl
  take-drop (suc n) (x ∷ xs) = ap (λ zs. x ∷ zs) (take-drop n xs)

  slice-append : (xs ys zs : List A) → slice (xs ++ (ys ++ zs)) (length xs) (length ys) ≡ some ys
  unfolding slice
  slice-append xs ys zs =
      let c : leb (length xs + length ys) (length (xs ++ (ys ++ zs))) ≡ true =
        ground (arith, length-append xs (ys ++ zs), length-append ys zs) in
      rw (slice, c, drop-append xs (ys ++ zs), take-append ys zs) refl

  -- The new range of a range of an old list of fewer than 2 ^ 32 - 1 places holds in the new list what
  -- is there of the old range, in its order.
  pub new_range-present :
      (xs : List (Option A)) (start len : ℕ)
      → length xs < no_start
      → start + len ≤ length xs
      → (new_start : ℕ) × (new_range (number 0 xs) start len
          ≡ some (new_start, length (present (take len (drop start xs)))))
        × (slice (present xs) new_start (length (present (take len (drop start xs))))
            ≡ some (present (take len (drop start xs))))
  unfolding new_range slice
  new_range-present xs start len small h =
      let kept = take len (drop start xs) in
      let k = length (present (take start xs)) in
      let c : leb (start + len) (length (number 0 xs)) ≡ true =
        ground (arith, length-number 0 xs, h) in
      let olds : slice (number 0 xs) start len ≡ some (number k kept) =
        rw (slice, c)
          (ap some (
            ap (take len) (drop-number start 0 xs)
            ∙ take-number len (0 + k) (drop start xs)
            ∙ ap (λ n. number n kept) (omega arith))) in
      let low : k < no_start = ground (
        arith,
        length-present (take start xs),
        length-append (take start xs) (drop start xs),
        ap length (take-drop start xs),
        small,
      ) in
      let counted = count_fks-number k kept low in
      let rest = present (drop len (drop start xs)) in
      let parts : present xs ≡ present (take start xs) ++ (present kept ++ rest) =
        sym (ap present (take-drop start xs))
        ∙ present-append (take start xs) (drop start xs)
        ∙ ap (λ zs. present (take start xs) ++ zs)
            (sym (ap present (take-drop len (drop start xs)))
              ∙ present-append kept (drop len (drop start xs))) in
      elim (eq_cases (length (present kept)) 0) [
        | inl e ↦
            let z : leb (0 + 0) (length (present xs)) ≡ true = ground arith in
            let empty : present kept ≡ [] = length_zero (present kept) e in
            (0, rw (new_range, olds, counted) ground (arith, e), rw (empty, slice, z) refl)
        | inr ne ↦ (
          k,
          rw (new_range, olds, counted) ground (arith, ne),
          ap (λ zs. slice zs k (length (present kept))) parts
              ∙ slice-append (present (take start xs)) (present kept) rest,
        )
      ]
    where
      length_zero : (ys : List A) → length ys ≡ 0 → ys ≡ []
      length_zero [] h = refl
      length_zero (y ∷ ys) h = absurd (ground (arith, h))
