-- ===== src/Builder/Kahn.antt =====
-- The topological order of `DatabaseSchemaBuilder::build` in
-- crates/database/src/core/schema_builder.rs. `graph[u]` lists the tables that reference table `u`,
-- once for each foreign key. `none` of an outer option is a panic. `in_degree` has the type i32, whose
-- bounds 2 ^ 31 foreign keys would reach; they are not modelled.
pub mod Count
pub mod Release
pub mod Drain
pub mod Whole
pub mod Order
mod Tests
use boomerang.Base.{
  ℕ, zero, suc, ◌+◌, Bool, true, false, Option, none, some, List, [], ◌∷◌, ◌++◌, length, get_elem?,
  set, map, ltb, ◌==◌, if◌then◌else◌,
}
use boomerang.Base.Int.{ℤ, pos, negsuc}
use boomerang.Base.Outcome.{Run, ok, panic, stuck}
use boomerang.Base.Panic.{◌>>=◌}
use boomerang.Builder.Sort.{range}

abbrev pub Graph : Type 0
Graph = List (List ℕ)

-- `in_degree` and `queue`.
pub record Front : Type 0 where
  pub in_degree : List ℤ
  pub queue : List ℕ

-- `d + 1` and `d - 1`
unfoldable pub inc : ℤ → ℤ
inc (pos d) = pos (suc d)
inc (negsuc zero) = pos 0
inc (negsuc (suc d)) = negsuc d

unfoldable pub dec : ℤ → ℤ
dec (pos zero) = negsuc 0
dec (pos (suc d)) = pos d
dec (negsuc d) = negsuc (suc d)

-- `d == 0`
unfoldable pub is_zero : ℤ → Bool
is_zero (pos d) = d == 0
is_zero (negsuc d) = false

-- `graph[to].push(from); in_degree[from] += 1`
unfoldable pub add_edge : ℕ → ℕ → Graph × List ℤ → Option (Graph × List ℤ)
unfolding inc
add_edge to from (graph, in_degree) = do
  targets ← get_elem? graph to
  degree ← get_elem? in_degree from
  some (set graph to (targets ++ from ∷ []), set in_degree from (inc degree))

-- The body of the inner loop.
unfoldable pub release : ℕ → Front → Option Front
unfolding dec is_zero
release v front = do
  degree ← get_elem? front.in_degree v
  some (record {
    in_degree = set front.in_degree v (dec degree);
    queue = if is_zero (dec degree) then front.queue ++ v ∷ [] else front.queue;
  })

unfoldable pub release_all : List ℕ → Front → Option Front
unfolding release
release_all [] front = some front
release_all (v ∷ vs) front = do next ← release v front; release_all vs next

-- One round of the `while let`, behind the `pop_front` of `u`.
unfoldable pub expand : Graph → ℕ → List ℤ → List ℕ → Option Front
unfolding release_all
expand graph u in_degree rest = do
  targets ← get_elem? graph u
  release_all targets (record { in_degree = in_degree; queue = rest })

-- The `while let`: what it pushes to `sorted_old_indices`. The fuel is a number of rounds.
unfoldable pub drain : Graph → ℕ → List ℤ → List ℕ → Run ⊥ (List ℕ)
unfolding expand
drain graph fuel in_degree [] = ok []
drain graph zero in_degree (u ∷ rest) = stuck
drain graph (suc fuel) in_degree (u ∷ rest) = elim (expand graph u in_degree rest) [
  | none ↦ panic
  | some next ↦ elim (drain graph fuel next.in_degree next.queue) [
    | ok sorted ↦ ok (u ∷ sorted)
    | other ↦ other
  ]
]

-- The first loop: the tables without a reference, from table `i` on.
unfoldable pub roots : ℕ → List ℤ → List ℕ
unfolding is_zero
roots i [] = []
roots i (d ∷ ds) = let later = roots (suc i) ds in if is_zero d then i ∷ later else later

-- `visited[idx] = true` for each index.
unfoldable pub mark_all : List ℕ → List Bool → Option (List Bool)
mark_all [] visited = some visited
mark_all (i ∷ is) visited =
    let marked = mark_all is (set visited i true) in if ltb i (length visited) then marked else none

-- The indices that are not visited, from `i` on.
unfoldable pub unvisited : ℕ → List Bool → List ℕ
unvisited i [] = []
unvisited i (v ∷ vs) = let later = unvisited (suc i) vs in if v then later else i ∷ later

-- The `if` behind the loop.
unfoldable pub complete : ℕ → List ℕ → Option (List ℕ)
unfolding mark_all unvisited
complete num_tables sorted =
    if ltb (length sorted) num_tables
    then (do
      visited ← mark_all sorted (map (λ i. false) (range 0 num_tables))
      some (sorted ++ unvisited 0 visited))
    else some sorted

-- From the in-degrees and the graph to the order of the tables, with fuel for one round for each
-- table.
unfoldable pub sorted_indices : Graph → List ℤ → Run ⊥ (List ℕ)
unfolding drain roots complete
sorted_indices graph in_degree =
    elim (drain graph (length in_degree) in_degree (roots 0 in_degree)) [
      | ok sorted ↦ elim (complete (length in_degree) sorted) [ none ↦ panic | some all ↦ ok all ]
      | other ↦ other
    ]
