-- ===== src/Builder/ResolveAll.antt =====
-- The loop of `build` in crates/database/src/core/schema_builder.rs that resolves the foreign keys.
use boomerang.Base.{
  ℕ, zero, suc, ◌<◌, ◌≤◌, ◌≡◌, refl, sym, ap, ◌∙◌, inl, inr, some, List, [], ◌∷◌, length, get_elem?,
  lt-length, All, arith,
}
use mathlib.Core.Path.{subst}
use boomerang.Interner.Symbol.{Symbol}
use boomerang.Schema.Types.{TableMeta}
use boomerang.Builder.State.{UnresolvedFk}
use boomerang.Builder.Build.{ResolvedFk, index_by_name, resolve_fk, resolve_fks}
use boomerang.Builder.Compact.{resolved_at, IsResolved, IsResolved-le, not_resolved}
use boomerang.Builder.Edges.{IsInside}
use boomerang.Builder.Resolve.{IsTables, resolve_fk_lem}

-- The places in the pool ascend from `k` on and are in the pool, and the tables are tables.
unfoldable pub IsUnresolved : ℕ → ℕ → ℕ → List UnresolvedFk → Type 0
IsUnresolved num_tables pool_size k [] = Unit
IsUnresolved num_tables pool_size k (u ∷ us) =
    (k ≤ u.pool_index)
    × (u.pool_index < pool_size)
    × (u.source_table_idx < num_tables)
    × IsUnresolved num_tables pool_size (suc u.pool_index) us

IsUnresolved_get :
    (m n k : ℕ) (us : List UnresolvedFk) (i : ℕ) (u : UnresolvedFk)
    → IsUnresolved m n k us
    → get_elem? us i ≡ some u
    → k ≤ u.pool_index
unfolding IsUnresolved
IsUnresolved_get m n k [] i u h e = cc
IsUnresolved_get m n k (v ∷ vs) zero u (a, b, c, h) e =
    let same : v ≡ u = cc in ground (arith, a, ap (λ w. w.pool_index) same)
IsUnresolved_get m n k (v ∷ vs) (suc i) u (a, b, c, h) e =
    let later = IsUnresolved_get m n (suc v.pool_index) vs i u h e in omega arith

module _ (tables : List TableMeta) (names : List Symbol) (valid : IsTables tables names) where
  first_found :
      (u : UnresolvedFk) (us : List UnresolvedFk) (rs : List ResolvedFk)
      → resolve_fk tables names (index_by_name tables) u ≡ some (resolved_at u.pool_index rs)
      → ((i : ℕ) (v : UnresolvedFk)
          → get_elem? us i ≡ some v
          → resolve_fk tables names (index_by_name tables) v ≡ some (resolved_at v.pool_index rs))
      → (i : ℕ) (v : UnresolvedFk) → get_elem? (u ∷ us) i ≡ some v
      → resolve_fk tables names (index_by_name tables) v ≡ some (resolved_at v.pool_index rs)
  first_found u us rs here later zero v e =
      let same : u ≡ v = cc in
      subst
        (λ w. resolve_fk tables names (index_by_name tables) w ≡ some (resolved_at w.pool_index rs))
        same here
  first_found u us rs here later (suc i) v e = later i v e

  -- One of the foreign keys is resolved to it.
  unfoldable pub IsFrom : List UnresolvedFk → ResolvedFk → Type 0
  IsFrom us r =
      (i : ℕ) × (u : UnresolvedFk) × (get_elem? us i ≡ some u)
      × (resolve_fk tables names (index_by_name tables) u ≡ some (some r))

  first-IsFrom :
      (u : UnresolvedFk) (us : List UnresolvedFk) (r : ResolvedFk) (rs : List ResolvedFk)
      → resolve_fk tables names (index_by_name tables) u ≡ some (some r)
      → ((j : ℕ) (s : ResolvedFk) → get_elem? rs j ≡ some s → IsFrom us s)
      → (j : ℕ) (s : ResolvedFk) → get_elem? (r ∷ rs) j ≡ some s
      → IsFrom (u ∷ us) s
  unfolding IsFrom
  first-IsFrom u us r rs p from zero s e =
      let same : r ≡ s = cc in (0, u, refl, p ∙ ap (λ x. some (some x)) same)
  first-IsFrom u us r rs p from (suc j) s e = let (i, v, at, f) = from j s e in (suc i, v, at, f)

  -- The loop does not panic, and what it keeps of each foreign key is what its names are resolved to.
  pub resolve_fks_lem :
      (us : List UnresolvedFk) (pool_size k : ℕ)
      → IsUnresolved (length tables) pool_size k us
      → (rs : List ResolvedFk) × (resolve_fks tables names (index_by_name tables) us ≡ some rs)
        × IsResolved pool_size (length tables) k rs
        × All (IsInside (length tables)) rs
        × ((i : ℕ) (u : UnresolvedFk)
            → get_elem? us i ≡ some u
            → resolve_fk tables names (index_by_name tables) u ≡ some (resolved_at u.pool_index rs))
        × ((j : ℕ) (r : ResolvedFk) → get_elem? rs j ≡ some r → IsFrom us r)
  unfolding resolve_fks IsUnresolved IsResolved resolved_at IsInside IsFrom
  resolve_fks_lem [] n k h = ([], refl, tt, tt, (λ i u e. cc), λ j r e. cc)
  resolve_fks_lem (u ∷ us) n k (a, b, c, h) =
      let (rs, e, ok, inside, found, from) = resolve_fks_lem us n (suc u.pool_index) h in
      elim (resolve_fk_lem tables names valid u) [
        | inr (p, missing) ↦
            let gone =
              not_resolved n (length tables) (suc u.pool_index) rs u.pool_index ok (omega arith) in
            (
              rs,
              rw (resolve_fks, p, e) refl,
              IsResolved-le n (length tables) k (suc u.pool_index) rs (omega arith) ok,
              inside,
              first_found u us rs (p ∙ ap some (sym gone)) found,
              λ j r q. let (i, v, at, f) = from j r q in (suc i, v, at, f),
            )
        | inl (r, p, target) ↦
            let (t, at, same, less, named) = target.target in
            let low = lt-length tables r.ref_table_old_idx at in
            let here : resolved_at u.pool_index (r ∷ rs) ≡ some r =
              ground (arith, target.pool_index) in
            let later : (i : ℕ) (v : UnresolvedFk)
                → get_elem? us i ≡ some v
                → resolve_fk tables names (index_by_name tables) v
                  ≡ some (resolved_at v.pool_index (r ∷ rs)) =
              λ i v q.
                let behind = IsUnresolved_get (length tables) n (suc u.pool_index) us i v h q in
                let skip : resolved_at v.pool_index rs ≡ resolved_at v.pool_index (r ∷ rs) =
                  ground (arith, behind, target.pool_index) in
                found i v q ∙ ap some skip in
            (
              r ∷ rs,
              rw (resolve_fks, p, e) refl,
              (
                ground (arith, target.pool_index),
                ground (arith, target.pool_index),
                low,
                IsResolved-le n (length tables) (suc r.pool_index) (suc u.pool_index) rs
                    (ground (arith, target.pool_index)) ok,
              ),
              ((low, ground (arith, target.source)), inside),
              first_found u us (r ∷ rs) (p ∙ ap some (sym here)) later,
              first-IsFrom u us r rs p from,
            )
      ]
