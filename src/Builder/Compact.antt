-- ===== src/Builder/Compact.antt =====
-- The new pool of foreign keys of crates/database/src/core/schema_builder.rs: the resolved ones, in the
-- order of the old pool.
use boomerang.Base.{
  ℕ, zero, suc, ◌+◌, ◌%◌, ◌^◌, ◌<◌, ◌≤◌, ◌≡◌, ◌≢◌, refl, sym, ap, ◌∙◌, inl, inr, Option, none, some,
  List, [], ◌∷◌, length, get_elem?, set, length-set, lt-length, get_elem?-lt, get_elem?-set_ne,
  get_elem?-set_self, ◌==◌, if◌then◌else◌, arith, Option-cases,
}
use mathlib.Core.Path.{subst}
use boomerang.Base.Search.{eq_cases, order_cases}
use boomerang.Schema.Types.{ForeignKey}
use boomerang.Builder.Build.{ResolvedFk, Compacted, compact, compact_one, no_start, filled}
use boomerang.Builder.Edges.{length-filled}
use boomerang.Builder.Numbered.{present, number, IsBlank, present-set, number-set, length-present}

-- The foreign key that is resolved at a position of the old pool.
unfoldable pub resolved_at : ℕ → List ResolvedFk → Option ResolvedFk
resolved_at p [] = none
resolved_at p (r ∷ rs) = let later = resolved_at p rs in if r.pool_index == p then some r else later

-- A foreign key of the old pool in the new one, if it is resolved.
unfoldable pub renew : List ℕ → Option ResolvedFk → ForeignKey → Option ForeignKey
renew old_to_new none old = none
renew old_to_new (some r) old = elim (get_elem? old_to_new r.ref_table_old_idx) [
  | none ↦ none
  | some table ↦ some (record old { table = table; column = r.col_idx_in_table })
]

-- The positions ascend, from `k` on, and are in the pool; the tables are tables.
unfoldable pub IsResolved : ℕ → ℕ → ℕ → List ResolvedFk → Type 0
IsResolved pool_size num_tables k [] = Unit
IsResolved pool_size num_tables k (r ∷ rs) =
    (k ≤ r.pool_index)
    × (r.pool_index < pool_size)
    × (r.ref_table_old_idx < num_tables)
    × IsResolved pool_size num_tables (suc r.pool_index) rs

-- The old pool with what is there of it in the new one.
pub record IsRenewal (pool : List ForeignKey) (old_to_new : List ℕ) (rs : List ResolvedFk)
    (renewed : List (Option ForeignKey)) : Type 0 where
  pub size : length renewed ≡ length pool
  pub renews :
      (p : ℕ) (old : ForeignKey)
      → get_elem? pool p ≡ some old
      → get_elem? renewed p ≡ some (renew old_to_new (resolved_at p rs) old)

pub IsResolved-le :
    (m n j k : ℕ) (rs : List ResolvedFk) → j ≤ k → IsResolved m n k rs → IsResolved m n j rs
unfolding IsResolved
IsResolved-le m n j k [] less h = h
IsResolved-le m n j k (r ∷ rs) less (a, b, c, h) = (omega arith, b, c, h)

pub resolved_at-lt :
    (m n k p : ℕ) (rs : List ResolvedFk) (r : ResolvedFk)
    → IsResolved m n k rs
    → resolved_at p rs ≡ some r
    → r.ref_table_old_idx < n
unfolding IsResolved resolved_at
resolved_at-lt m n k p [] r h e = cc
resolved_at-lt m n k p (x ∷ rs) r (a, b, c, h) e = elim (eq_cases x.pool_index p) [
  | inl here ↦
      let same : x ≡ r = ground (arith, e, here) in subst (λ y. y.ref_table_old_idx < n) same c
  | inr ne ↦ resolved_at-lt m n (suc x.pool_index) p rs r h (ground (arith, e, ne))
]

pub not_resolved :
    (m n k : ℕ) (rs : List ResolvedFk) (p : ℕ)
    → IsResolved m n k rs
    → p < k
    → resolved_at p rs ≡ none
unfolding IsResolved resolved_at
not_resolved m n k [] p h low = refl
not_resolved m n k (r ∷ rs) p (a, b, c, h) low =
    ground (arith, a, low, not_resolved m n (suc r.pool_index) rs p h (ground (arith, a, low)))

blank_at :
    {A : Type 0} (k : ℕ) (xs : List (Option A)) (p : ℕ)
    → IsBlank k xs
    → k ≤ p
    → p < length xs
    → get_elem? xs p ≡ some none
unfolding IsBlank
blank_at k xs p b h low =
    let (o, e) = get_elem?-lt xs p low in
    elim (Option-cases o) [
      | inl gap ↦ e ∙ ap some gap
      | inr (x, there) ↦ absurd (b p x h (e ∙ ap some there))
    ]

renew-some :
    (old_to_new : List ℕ) (r : ResolvedFk) (old : ForeignKey) (table : ℕ)
    → get_elem? old_to_new r.ref_table_old_idx ≡ some table
    → renew old_to_new (some r) old
      ≡ some (record old { table = table; column = r.col_idx_in_table })
unfolding renew
renew-some old_to_new r old table h = rw (renew, h) refl

module _ (pool : List ForeignKey) (old_to_new : List ℕ) where
  compacted : List (Option ForeignKey) → Compacted
  compacted xs = record { valid_fks = present xs; old_to_new_fk = number 0 xs }

  compact_one-compacted :
      (r : ResolvedFk) (xs : List (Option ForeignKey)) (old : ForeignKey) (table : ℕ)
      → length xs < no_start
      → get_elem? pool r.pool_index ≡ some old
      → get_elem? old_to_new r.ref_table_old_idx ≡ some table
      → r.pool_index < length xs
      → IsBlank r.pool_index xs
      → compact_one pool old_to_new r (compacted xs)
        ≡ some (
            compacted (
              set xs r.pool_index
                (some (record old { table = table; column = r.col_idx_in_table }))))
  unfolding compact_one compacted
  compact_one-compacted r xs old table small p q low b =
      let fk = record old { table = table; column = r.col_idx_in_table } in
      let n : length (present xs) % 2 ^ 32 ≡ 0 + length (present xs) =
        ground (arith, length-present xs, small) in
      rw
        (
          compact_one,
          p,
          q,
          n,
          present-set xs r.pool_index fk low b,
          number-set 0 xs r.pool_index fk low b,
        )
        refl

  compact_lem :
      (rs : List ResolvedFk) (k : ℕ) (xs : List (Option ForeignKey))
      → length xs ≡ length pool
      → length pool < no_start
      → IsResolved (length pool) (length old_to_new) k rs
      → IsBlank k xs
      → (ys : List (Option ForeignKey)) × (compact pool old_to_new rs (compacted xs)
          ≡ some (compacted ys))
        × (length ys ≡ length pool)
        × ((p : ℕ) → p < k → get_elem? ys p ≡ get_elem? xs p)
        × ((p : ℕ) (old : ForeignKey)
            → k ≤ p
            → get_elem? pool p ≡ some old
            → get_elem? ys p ≡ some (renew old_to_new (resolved_at p rs) old))
  unfolding compact IsResolved resolved_at renew IsBlank
  compact_lem [] k xs size small h b = (
    xs,
    refl,
    size,
    (λ p low. refl),
    λ p old high at. blank_at k xs p b high (ground (arith, size, lt-length pool p at)),
  )
  compact_lem (r ∷ rs) k xs size small (a, low, c, h) b =
      let i = r.pool_index in
      let (old, p) = get_elem?-lt pool i low in
      let (table, q) = get_elem?-lt old_to_new r.ref_table_old_idx c in
      let fk = record old { table = table; column = r.col_idx_in_table } in
      let low' : i < length xs = ground (arith, size, low) in
      let next : List (Option ForeignKey) = set xs i (some fk) in
      let one =
        compact_one-compacted r xs old table (ground (arith, size, small)) p q low'
          (λ j x g. b j x (ground (arith, a, g))) in
      let self : get_elem? next i ≡ some (some fk) = get_elem?-set_self xs i (some fk) low' in
      let other : (j : ℕ) → i ≢ j → get_elem? next j ≡ get_elem? xs j =
        λ j ne. get_elem?-set_ne xs i j (some fk) ne in
      let (ys, e, size', same, renews) =
        compact_lem rs (suc i) next (length-set xs i (some fk) ∙ size) small h (λ j x g t.
          let ne : i ≢ j = ground (arith, g) in
          b j x (ground (arith, a, g)) (sym (other j ne) ∙ t)) in
      (
        ys,
        rw (compact, one) e,
        size',
        (λ j g.
            let ne : i ≢ j = ground (arith, a, g) in same j (ground (arith, a, g)) ∙ other j ne),
        λ j old' g at. elim (order_cases i j) [
          | inl less ↦
              renews j old' less at
              ∙ ap (λ o. some (renew old_to_new o old')) (ground (arith, less))
          | inr less ↦ elim (eq_cases i j) [
            | inl here ↦
                let is_old : old ≡ old' = cc (p, ap (get_elem? pool) here, at) in
                let found : resolved_at j (r ∷ rs) ≡ some r = ground (arith, here) in
                same j (ground (arith, here))
                ∙ ap (get_elem? next) (sym here)
                ∙ self
                ∙ ap some (sym (renew-some old_to_new r old table q))
                ∙ ap (λ o. some (renew old_to_new (some r) o)) is_old
                ∙ ap (λ o. some (renew old_to_new o old')) (sym found)
            | inr ne ↦
                let gone : none ≡ resolved_at j (r ∷ rs) = ground (
                  arith,
                  ne,
                  not_resolved (length pool) (length old_to_new) (suc i) rs j h
                      (ground (arith, less)),
                ) in
                same j (ground (arith, less))
                ∙ other j ne
                ∙ blank_at k xs j b g (ground (arith, size, lt-length pool j at))
                ∙ ap (λ o. some (renew old_to_new o old')) gone
          ]
        ],
      )

  -- The loop over the resolved foreign keys, from the empty new pool on.
  pub compact-IsRenewal :
      (rs : List ResolvedFk)
      → length pool < no_start
      → IsResolved (length pool) (length old_to_new) 0 rs
      → (ys : List (Option ForeignKey)) × (compact pool old_to_new rs
            (record { valid_fks = []; old_to_new_fk = filled none (length pool) })
          ≡ some (record { valid_fks = present ys; old_to_new_fk = number 0 ys }))
        × IsRenewal pool old_to_new rs ys
  unfolding compacted IsBlank present number
  compact-IsRenewal rs small h =
      let start = filled none (length pool) in
      let blank : IsBlank 0 start = λ i x g t. gap (length pool) i x t in
      let (ys, e, size, same, renews) =
        compact_lem rs 0 start (length-filled none (length pool)) small h blank in
      (
        ys,
        ap (λ c. compact pool old_to_new rs c) (empty (length pool)) ∙ e,
        record { size = size; renews = λ p old at. renews p old (omega arith) at },
      )
    where
      gap : (n i : ℕ) (x : ForeignKey) → get_elem? (filled none n) i ≢ some (some x)
      gap zero i x t = cc
      gap (suc n) zero x t = cc
      gap (suc n) (suc i) x t = gap n i x t

      present_filled : (n : ℕ) → present (filled {A = Option ForeignKey} none n) ≡ []
      present_filled zero = refl
      present_filled (suc n) = present_filled n

      number_filled : (n : ℕ) → number 0 (filled {A = Option ForeignKey} none n) ≡ filled none n
      number_filled zero = refl
      number_filled (suc n) = ap (λ zs. none ∷ zs) (number_filled n)

      empty :
          (n : ℕ)
          → record { valid_fks = []; old_to_new_fk = filled none n } ≡ compacted (filled none n)
      empty n = rw (present_filled n, number_filled n) refl
