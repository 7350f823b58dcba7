-- ===== src/Builder/Kahn/Whole.antt =====
-- The first loop of the topological order in crates/database/src/core/schema_builder.rs, and the `if`
-- behind the last one.
use boomerang.Base.{
  ℕ, zero, suc, ◌+◌, ◌<◌, ◌≡◌, refl, sym, ap, ◌∙◌, inl, inr, Bool, true, false, none, some, List,
  [], ◌∷◌, ◌++◌, length, get_elem?, get_elem?-none, set, map, length-set, get_elem?-set_ne,
  get_elem?-set_self, ltb, arith, ◌||◌, not,
}
use boomerang.Base.Int.{ℤ, pos}
use boomerang.Base.Search.{eq_cases, order_cases}
use boomerang.Builder.Sort.{range}
use boomerang.Builder.Kahn.{Graph, is_zero, roots, mark_all, unvisited, complete}
use boomerang.Builder.Kahn.Count.{
  count, count-append, Rows, degree, degree_cases, is_live, live_count, is_live-live_count, whole,
  length-whole, live_count-whole, whole-some, is_live-whole,
}
use boomerang.Builder.Kahn.Release.{ready}
use boomerang.Builder.Kahn.Drain.{IsFront, Listing, bit}

-- The in-degrees count the references of each table, and no reference is from outside.
pub record IsGraph (graph : Graph) (in_degree : List ℤ) : Type 0 where
  pub size : length in_degree ≡ length graph
  pub degrees :
      (v : ℕ) → v < length graph → get_elem? in_degree v ≡ some (pos (degree v (whole graph)))
  pub closed :
      (u : ℕ) (row : List ℕ) (v : ℕ)
      → get_elem? graph u ≡ some row
      → 0 < count v row
      → v < length graph

zero_at : List ℤ → ℕ → ℕ
zero_at ds k = elim (get_elem? ds k) [ none ↦ 0 | some d ↦ bit (is_zero d) ]

count-roots_below : (i : ℕ) (ds : List ℤ) (v : ℕ) → v < i → count v (roots i ds) ≡ 0
unfolding count roots
count-roots_below i [] v h = refl
count-roots_below i (d ∷ ds) v h = ground (arith, count-roots_below (suc i) ds v)

count-roots : (i : ℕ) (ds : List ℤ) (v k : ℕ) → v ≡ i + k → count v (roots i ds) ≡ zero_at ds k
unfolding count roots zero_at bit
count-roots i [] v k h = refl
count-roots i (d ∷ ds) v zero h = ground (arith, count-roots_below (suc i) ds v, h)
count-roots i (d ∷ ds) v (suc k) h = ground (arith, count-roots (suc i) ds v k, h)

pub roots-IsFront :
    (graph : Graph) (in_degree : List ℤ)
    → IsGraph graph in_degree
    → IsFront graph (whole graph) (record { in_degree = in_degree; queue = roots 0 in_degree })
unfolding zero_at bit ready is_zero
roots-IsFront graph in_degree g =
    let free : (v : ℕ) → is_live (whole graph) v ≡ false → degree v (whole graph) ≡ 0 = λ v h.
      elim (degree_cases v (whole graph)) [
        | inl e ↦ e
        | inr (u, row, p, c) ↦ absurd (
            ground (arith, is_live-whole graph v, h, g.closed u row v (whole-some graph u row p) c))
      ] in
    record {
      kept = whole-some graph;
      waits = record {
        degrees = λ v h. g.degrees v (ground (arith, length-whole graph, h));
        queued = λ v.
            count-roots 0 in_degree v v (omega arith) ∙ elim (order_cases v (length graph)) [
              | inl h ↦ rw (zero_at, g.degrees v h, is_live-whole graph v) ground (arith, h)
              | inr h ↦ elim (order_cases v (length in_degree)) [
                | inl h' ↦ absurd (ground (arith, g.size, h, h'))
                | inr h' ↦
                    rw (zero_at, get_elem?-none in_degree v h') ground
                      (arith, is_live-whole graph v, h)
              ]
            ];
      };
      free = free;
    }

-- The marks of the listed tables.
mark_all_lem :
    (is : List ℕ) (visited : List Bool)
    → ((v : ℕ) → 0 < count v is → v < length visited)
    → (marks : List Bool) × (mark_all is visited ≡ some marks)
      × (length marks ≡ length visited)
      × ((v : ℕ) (b : Bool)
          → get_elem? visited v ≡ some b
          → get_elem? marks v ≡ some (b || ltb 0 (count v is)))
unfolding mark_all count
mark_all_lem [] visited h = (visited, refl, refl, λ v b e. e ∙ ground arith)
mark_all_lem (i ∷ is) visited h =
    let low : ltb i (length visited) ≡ true = ground (arith, h i (ground arith)) in
    let (marks, e, size, at) =
      mark_all_lem is (set visited i true)
        (λ v c. ground (arith, length-set visited i true, h v (ground (arith, c)))) in
    (
      marks,
      rw (mark_all, low) e,
      size ∙ length-set visited i true,
      λ v b q. elim (eq_cases i v) [
        | inl same ↦
            at v true (
              ap (λ u. get_elem? (set visited i true) u) (sym same)
              ∙ get_elem?-set_self visited i true (ground (arith, low)))
            ∙ ground (arith, same)
        | inr ne ↦ at v b (get_elem?-set_ne visited i v true ne ∙ q) ∙ ground (arith, ne)
      ],
    )

count-unvisited_below :
    (i : ℕ) (marks : List Bool) (v : ℕ) → v < i → count v (unvisited i marks) ≡ 0
unfolding count unvisited
count-unvisited_below i [] v h = refl
count-unvisited_below i (m ∷ ms) v h = ground (arith, count-unvisited_below (suc i) ms v, h)

unmarked_at : List Bool → ℕ → ℕ
unmarked_at marks k = elim (get_elem? marks k) [ none ↦ 0 | some b ↦ bit (not b) ]

count-unvisited :
    (i : ℕ) (marks : List Bool) (v k : ℕ)
    → v ≡ i + k
    → count v (unvisited i marks) ≡ unmarked_at marks k
unfolding count unvisited unmarked_at bit
count-unvisited i [] v k h = refl
count-unvisited i (m ∷ ms) v zero h = ground (arith, count-unvisited_below (suc i) ms v, h)
count-unvisited i (m ∷ ms) v (suc k) h = ground (arith, count-unvisited (suc i) ms v k, h)

length-clear : (i n : ℕ) → length (map (λ j. false) (range i n)) ≡ n
unfolding range
length-clear i zero = refl
length-clear i (suc n) = ap suc (length-clear (suc i) n)

get_elem?-clear : (i n v : ℕ) → v < n → get_elem? (map (λ j. false) (range i n)) v ≡ some false
unfolding range
get_elem?-clear i zero v h = absurd (ground (arith, h))
get_elem?-clear i (suc n) zero h = refl
get_elem?-clear i (suc n) (suc v) h = get_elem?-clear (suc i) n v (omega arith)

-- What the loop lists from a whole graph on is completed to a list of each table once. A list of all
-- tables is not changed.
pub complete_lem :
    (graph : Graph) (sorted : List ℕ) (last : Rows)
    → Listing (whole graph) sorted last
    → (all : List ℕ) × (complete (length graph) sorted ≡ some all)
      × ((v : ℕ) → count v all ≡ bit (ltb v (length graph)))
      × (live_count last ≡ 0 → all ≡ sorted)
unfolding complete bit unmarked_at
complete_lem graph sorted last l =
    let n = length graph in
    let counts : (v : ℕ) → bit (ltb v n) ≡ count v sorted + bit (is_live last v) =
      λ v. ground (arith, l.counts v, is_live-whole graph v) in
    let size : n ≡ length sorted + live_count last =
      ground (arith, l.size, live_count-whole graph) in
    elim (order_cases (length sorted) n) [
      | inr h ↦
          let none_left : live_count last ≡ 0 = omega arith in
          let c : ltb (length sorted) n ≡ false = ground (arith, h) in
          (
            sorted,
            rw (complete, c) refl,
            (λ v. ground (arith, counts v, is_live-live_count last v none_left)),
            λ z. refl,
          )
      | inl h ↦
          let c : ltb (length sorted) n ≡ true = ground (arith, h) in
          let clear = map (λ j. false) (range 0 n) in
          let (marks, e, size', at) =
            mark_all_lem sorted clear (λ v q. ground (arith, counts v, q, length-clear 0 n)) in
          (
            sorted ++ unvisited 0 marks,
            rw (complete, c, e) refl,
            (λ v.
                count-append v sorted (unvisited 0 marks)
                ∙ ap (λ k. count v sorted + k) (count-unvisited 0 marks v v (omega arith))
                ∙ elim (order_cases v n) [
                  | inl low ↦
                      rw (unmarked_at, at v false (get_elem?-clear 0 n v low)) ground
                        (arith, counts v, low)
                  | inr high ↦ elim (order_cases v (length marks)) [
                    | inl low ↦ absurd (ground (arith, size', length-clear 0 n, high, low))
                    | inr none_there ↦
                        rw (unmarked_at, get_elem?-none marks v none_there) ground
                          (arith, counts v, high)
                  ]
                ]),
            λ z. absurd (ground (arith, size, z, h)),
          )
    ]
