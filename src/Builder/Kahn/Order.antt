-- ===== src/Builder/Kahn/Order.antt =====
-- What the topological order of crates/database/src/core/schema_builder.rs promises.
use boomerang.Base.{
  ℕ, zero, suc, ◌<◌, ◌≡◌, refl, sym, ap, ◌∙◌, inl, inr, false, some, List, length, get_elem?, ltb,
  arith, Bool-cases,
}
use boomerang.Base.Int.{ℤ}
use boomerang.Base.Outcome.{ok}
use boomerang.Builder.Kahn.{Graph, roots, complete, sorted_indices}
use boomerang.Builder.Kahn.Count.{
  count, Rows, degree_cases, is_live, live_count, live_count_dead, is_live-some, whole,
  live_count-whole, whole-some, get_elem?-whole,
}
use boomerang.Builder.Kahn.Drain.{Listing, drain-Listing, bit}
use boomerang.Builder.Kahn.Whole.{IsGraph, roots-IsFront, complete_lem}

-- Each table is listed once, and nothing else.
unfoldable pub IsOnce : ℕ → List ℕ → Type 0
IsOnce n all = (v : ℕ) → count v all ≡ bit (ltb v n)

-- A table stands behind each table that it references.
unfoldable pub IsOrdered : Graph → List ℕ → Type 0
IsOrdered graph all =
    (i u w : ℕ) (row : List ℕ)
    → get_elem? all i ≡ some u
    → get_elem? graph w ≡ some row
    → 0 < count u row
    → (j : ℕ) × (j < i) × (get_elem? all j ≡ some w)

-- A rank that each reference lowers: the references have no cycle.
unfoldable pub IsRank : Graph → (ℕ → ℕ) → Type 0
IsRank graph rank =
    (w u : ℕ) (row : List ℕ) → get_elem? graph w ≡ some row → 0 < count u row → rank w < rank u

module _ (graph : Graph) (in_degree : List ℤ) (g : IsGraph graph in_degree) where
  sorted_indices_lem :
      (sorted all : List ℕ) × (last : Rows) × (sorted_indices graph in_degree ≡ ok all)
      × Listing (whole graph) sorted last
      × IsOnce (length graph) all
      × (live_count last ≡ 0 → all ≡ sorted)
  unfolding sorted_indices IsOnce
  sorted_indices_lem =
      let (sorted, last, e, l) =
        drain-Listing graph (length in_degree) (whole graph) in_degree (roots 0 in_degree)
          (roots-IsFront graph in_degree g) (ground (arith, live_count-whole graph, g.size)) in
      let (all, e', once, same) = complete_lem graph sorted last l in
      let e'' : complete (length in_degree) sorted ≡ some all =
        ap (λ n. complete n sorted) g.size ∙ e' in
      (sorted, all, last, rw (sorted_indices, e, e'') refl, l, once, same)

  -- On a graph whose in-degrees count its edges, with cycles or without, the order is found without a
  -- panic and in a round for each table at most, and it lists each table once.
  pub sorted_indices-IsOnce :
      (all : List ℕ) × (sorted_indices graph in_degree ≡ ok all) × IsOnce (length graph) all
  sorted_indices-IsOnce =
      let (sorted, all, last, e, l, once, same) = sorted_indices_lem in (all, e, once)

  -- Without a cycle no table is left behind the loop.
  no_table_is_left :
      (rank : ℕ → ℕ) (sorted : List ℕ) (last : Rows)
      → IsRank graph rank
      → Listing (whole graph) sorted last
      → (fuel v : ℕ) → rank v < fuel
      → is_live last v ≡ false
  unfolding IsRank
  no_table_is_left rank sorted last r l zero v h = absurd (ground (arith, h))
  no_table_is_left rank sorted last r l (suc fuel) v h = elim (Bool-cases (is_live last v)) [
    | inr dead ↦ dead
    | inl live ↦ elim (degree_cases v last) [
      | inl z ↦ absurd (l.blocked v live z)
      | inr (u, row, at, c) ↦
          let lower : rank u < rank v = r u v row (whole-some graph u row (l.left u row at)) c in
          absurd (
            ground (
              arith,
              no_table_is_left rank sorted last r l fuel u (ground (arith, lower, h)),
              is_live-some last u row at,
            ))
    ]
  ]

  -- On such a graph without a cycle, where `rank` is lower on each table that is referenced, the order
  -- also has each table behind all tables that it references.
  pub sorted_indices-IsOrdered :
      (rank : ℕ → ℕ)
      → IsRank graph rank
      → (all : List ℕ) × (sorted_indices graph in_degree ≡ ok all)
        × IsOnce (length graph) all
        × IsOrdered graph all
  unfolding IsOrdered
  sorted_indices-IsOrdered rank r =
      let (sorted, all, last, e, l, once, same) = sorted_indices_lem in
      let e' : all ≡ sorted = same (
        live_count_dead last
          (λ v. no_table_is_left rank sorted last r l (suc (rank v)) v (omega arith))) in
      (
        all,
        e,
        once,
        λ i u w row p q c.
            let (j, less, at) =
              l.ordered i u w row (ap (λ xs. get_elem? xs i) (sym e') ∙ p)
                (get_elem?-whole graph w row q) c in
            (j, less, ap (λ xs. get_elem? xs j) e' ∙ at),
      )
