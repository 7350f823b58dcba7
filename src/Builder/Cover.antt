-- ===== src/Builder/Cover.antt =====
-- The ranges that `add_row` of crates/database/src/core/schema_builder.rs gives the columns in the pools
-- of constraints and of foreign keys.
use mathlib.Core.Path.{subst}
use boomerang.Base.{
  ℕ, zero, suc, ◌+◌, ◌-◌, ◌%◌, ◌^◌, ◌≤◌, ◌≡◌, refl, sym, some, List, [], ◌∷◌, ◌++◌, length,
  get_elem?, arith,
}
use boomerang.Schema.Types.{PoolRange, Column}
use boomerang.Builder.State.{DatabaseSchemaBuilder, with_capacity}
use boomerang.Builder.Grow.{IsOpen, with_capacity-IsOpen}

-- The casts of both ends of what a column adds to a pool.
pub record IsRange (from to : ℕ) (range : PoolRange) : Type 0 where
  pub start : range.start ≡ from % 2 ^ 32
  pub len : range.len ≡ (to % 2 ^ 32 - from % 2 ^ 32) % 2 ^ 16

-- The columns' ranges follow one another in their pool, without a gap, and the last ends where the pool
-- does.
unfoldable pub Covers : (Column → PoolRange) → ℕ → List Column → ℕ → Type 0
Covers range from [] end = from ≡ end
Covers range from (c ∷ cs) end =
    (next : ℕ) × (from ≤ next) × IsRange from next (range c) × Covers range next cs end

-- Each column's range is in its pool.
unfoldable pub AreIn : (Column → PoolRange) → List Column → ℕ → Type 0
AreIn range cs size =
    (i : ℕ) (c : Column) → get_elem? cs i ≡ some c → (range c).start + (range c).len ≤ size

-- The builder between two rows.
pub record IsBuilding {I : Type 0} (b : DatabaseSchemaBuilder I) : Type 0 where
  pub within : IsOpen b
  pub constraints_in : AreIn (λ c. c.constraints) b.columns (length b.constraint_pool)
  pub constraints : Covers (λ c. c.constraints) 0 b.columns (length b.constraint_pool)
  pub foreign_keys : Covers (λ c. c.foreign_keys) 0 b.columns (length b.foreign_key_pool)

pub Covers_push :
    (range : Column → PoolRange) (from : ℕ) (cs : List Column) (end next : ℕ) (c : Column)
    → Covers range from cs end
    → end ≤ next
    → IsRange end next (range c)
    → Covers range from (cs ++ c ∷ []) next
unfolding Covers
Covers_push range from [] end next c e low is =
    (next, ground (arith, e, low), subst (λ k. IsRange k next (range c)) (sym e) is, refl)
Covers_push range from (d ∷ cs) end next c (mid, p, q, rest) low is =
    (mid, p, q, Covers_push range mid cs end next c rest low is)

-- A column whose range starts where the pool ended covers what the pool has got.
pub pushed :
    (range : Column → PoolRange) (cs cs' : List Column) (end end' next next' : ℕ) (c : Column)
    → cs' ≡ cs
    → end' ≡ end
    → next' ≡ next
    → Covers range 0 cs end
    → end' ≤ next
    → IsRange end' next (range c)
    → Covers range 0 (cs' ++ c ∷ []) next'
pushed range cs cs' end end' next next' c columns e e' covered low is =
    let covered' : Covers range 0 cs' end' =
      subst (Covers range 0 cs') (sym e)
        (subst (λ ds. Covers range 0 ds end) (sym columns) covered) in
    subst (Covers range 0 (cs' ++ c ∷ [])) (sym e')
      (Covers_push range 0 cs' end' next c covered' low is)

-- The same for the ends of a range, whose start is cast too.
pub ends_in :
    (start now : ℕ) → start ≤ now → start % 2 ^ 32 + (now % 2 ^ 32 - start % 2 ^ 32) % 2 ^ 16 ≤ now
ends_in start now h = ground arith

-- The ranges that cover a pool are in it.
pub Covers_ends :
    (range : Column → PoolRange) (from : ℕ) (cs : List Column) (end : ℕ)
    → Covers range from cs end
    → from ≤ end
unfolding Covers
Covers_ends range from [] end e = ground (arith, e)
Covers_ends range from (c ∷ cs) end (next, p, q, rest) =
    omega (arith, p, Covers_ends range next cs end rest)

pub Covers-AreIn :
    (range : Column → PoolRange) (from : ℕ) (cs : List Column) (end : ℕ)
    → Covers range from cs end
    → AreIn range cs end
unfolding Covers AreIn
Covers-AreIn range from [] end e i c at = cc
Covers-AreIn range from (d ∷ cs) end (next, p, q, rest) zero c at =
    let same : d ≡ c = cc in
    subst (λ k. (range k).start + (range k).len ≤ end) same
      (ground (arith, q.start, q.len, ends_in from next p, Covers_ends range next cs end rest))
Covers-AreIn range from (d ∷ cs) end (next, p, q, rest) (suc i) c at =
    Covers-AreIn range next cs end rest i c at

module _ {I : Type 0} where
  pub with_capacity-IsBuilding : (interner : I) → IsBuilding (with_capacity interner)
  unfolding with_capacity Covers AreIn
  with_capacity-IsBuilding interner = record {
    within = with_capacity-IsOpen interner;
    constraints_in = λ i c e. cc;
    constraints = refl;
    foreign_keys = refl;
  }
