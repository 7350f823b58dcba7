-- ===== src/Builder/Kahn/Tests.antt =====
-- The theorems about the topological order of crates/database/src/core/schema_builder.rs at concrete
-- graphs.
use boomerang.Base.{
  ℕ, zero, suc, ◌<◌, ◌==◌, ◌≡◌, refl, ap, some, List, [], ◌∷◌, length, get_elem?, if◌then◌else◌,
  arith,
}
use boomerang.Base.Int.{ℤ, pos}
use boomerang.Base.Outcome.{ok}
use boomerang.Builder.Sort.{range}
use boomerang.Builder.Kahn.{Graph, sorted_indices}
use boomerang.Builder.Kahn.Count.{count, degree, whole}
use boomerang.Builder.Kahn.Whole.{IsGraph}
use boomerang.Builder.Kahn.Order.{
  IsOnce, IsOrdered, IsRank, sorted_indices-IsOnce, sorted_indices-IsOrdered,
}

abbrev rank : ℕ → ℕ
rank i = if i == 0 then 1 else 0

-- Table 0 references table 1.
abbrev graph : Graph
graph = [] ∷ (0 ∷ []) ∷ []

abbrev in_degree : List ℤ
in_degree = pos 1 ∷ pos 0 ∷ []

graph_valid : IsGraph graph in_degree
unfolding degree count
graph_valid = record { size = refl; degrees = degrees; closed = closed }
  where
    degrees : (v : ℕ) → v < 2 → get_elem? in_degree v ≡ some (pos (degree v (whole graph)))
    degrees zero h = refl
    degrees (suc zero) h = refl
    degrees (suc (suc v)) h = absurd (ground (arith, h))

    closed : (u : ℕ) (row : List ℕ) (v : ℕ) → get_elem? graph u ≡ some row → 0 < count v row → v < 2
    closed zero row v h c =
        let same : [] ≡ row = cc in absurd (ground (arith, c, ap (count v) same))
    closed (suc zero) row v h c =
        let same : 0 ∷ [] ≡ row = cc in ground (arith, c, ap (count v) same)
    closed (suc (suc u)) row v h c = cc

graph_rank : IsRank graph rank
unfolding IsRank count
graph_rank zero u row h c =
    let same : [] ≡ row = cc in absurd (ground (arith, c, ap (count u) same))
graph_rank (suc zero) u row h c =
    let same : 0 ∷ [] ≡ row = cc in ground (arith, c, ap (count u) same)
graph_rank (suc (suc w)) u row h c = cc

sorted_indices-IsOrdered_example :
    (all : List ℕ) × (sorted_indices graph in_degree ≡ ok all)
    × IsOnce (length graph) all
    × IsOrdered graph all
sorted_indices-IsOrdered_example =
    sorted_indices-IsOrdered graph in_degree graph_valid rank graph_rank

-- Two tables that reference each other.
abbrev cycle : Graph
cycle = (1 ∷ []) ∷ (0 ∷ []) ∷ []

abbrev cycle_degree : List ℤ
cycle_degree = pos 1 ∷ pos 1 ∷ []

cycle_valid : IsGraph cycle cycle_degree
unfolding degree count
cycle_valid = record { size = refl; degrees = degrees; closed = closed }
  where
    degrees : (v : ℕ) → v < 2 → get_elem? cycle_degree v ≡ some (pos (degree v (whole cycle)))
    degrees zero h = refl
    degrees (suc zero) h = refl
    degrees (suc (suc v)) h = absurd (ground (arith, h))

    closed : (u : ℕ) (row : List ℕ) (v : ℕ) → get_elem? cycle u ≡ some row → 0 < count v row → v < 2
    closed zero row v h c = let same : 1 ∷ [] ≡ row = cc in ground (arith, c, ap (count v) same)
    closed (suc zero) row v h c =
        let same : 0 ∷ [] ≡ row = cc in ground (arith, c, ap (count v) same)
    closed (suc (suc u)) row v h c = cc

sorted_indices-IsOnce_example :
    (all : List ℕ) × (sorted_indices cycle cycle_degree ≡ ok all) × IsOnce (length cycle) all
sorted_indices-IsOnce_example = sorted_indices-IsOnce cycle cycle_degree cycle_valid

cycle_is_listed : sorted_indices cycle cycle_degree ≡ ok (0 ∷ 1 ∷ [])
unfolding sorted_indices range
cycle_is_listed = refl
