-- ===== src/Builder/Edges.antt =====
-- The reference graph that `DatabaseSchemaBuilder::build` of crates/database/src/core/schema_builder.rs
-- fills, one resolved foreign key at a time.
use boomerang.Base.{
  ℕ, zero, suc, ◌+◌, ◌<◌, ◌≡◌, ◌≢◌, refl, sym, ap, ◌∙◌, inl, inr, none, some, List, [], ◌∷◌, ◌++◌,
  length, get_elem?, set, length-set, lt-length, get_elem?-lt, get_elem?-set_ne, get_elem?-set_self,
  All, ◌==◌, if◌then◌else◌, arith, Bool-cases, Option-cases,
}
use mathlib.Core.Path.{subst}
use boomerang.Base.Int.{ℤ, pos}
use boomerang.Base.Search.{eq_cases}
use boomerang.Builder.Build.{ResolvedFk, add_edges, filled}
use boomerang.Builder.Kahn.{Graph, inc, add_edge}
use boomerang.Builder.Kahn.Count.{count, count-append, degree, whole}
use boomerang.Builder.Kahn.Whole.{IsGraph}

-- The tables that reference table `w`.
unfoldable pub row_of : Graph → ℕ → List ℕ
row_of graph w = elim (get_elem? graph w) [ none ↦ [] | some row ↦ row ]

-- How many foreign keys of table `v` are on table `w`. A table's own are left out.
unfoldable pub references : ℕ → ℕ → List ResolvedFk → ℕ
references w v [] = 0
references w v (r ∷ rs) =
    let rest = references w v rs in
    if r.ref_table_old_idx == r.source_table_idx
    then rest
    else if r.ref_table_old_idx == w
    then (if r.source_table_idx == v then suc rest else rest)
    else rest

-- The table of a foreign key, and the one that it names, are tables.
unfoldable pub IsInside : ℕ → ResolvedFk → Type 0
IsInside n r = (r.ref_table_old_idx < n) × (r.source_table_idx < n)

pub row_of_lem :
    (graph : Graph) (w : ℕ) (row : List ℕ) → get_elem? graph w ≡ some row → row_of graph w ≡ row
unfolding row_of
row_of_lem graph w row h = rw (row_of, h) refl

row_of_ext :
    (graph graph' : Graph) (w : ℕ)
    → get_elem? graph w ≡ get_elem? graph' w
    → row_of graph w ≡ row_of graph' w
unfolding row_of
row_of_ext graph graph' w h = ap (λ o. elim o [ none ↦ [] | some row ↦ row ]) h

degree-append :
    (v : ℕ) (graph : Graph) (to from : ℕ) (targets : List ℕ)
    → get_elem? graph to ≡ some targets
    → degree v (whole (set graph to (targets ++ from ∷ [])))
      ≡ degree v (whole graph) + count v (from ∷ [])
unfolding degree
degree-append v [] to from targets h = cc
degree-append v (row ∷ rows) zero from targets h =
    let e : row ≡ targets = cc in omega (arith, count-append v targets (from ∷ []), ap (count v) e)
degree-append v (row ∷ rows) (suc to) from targets h =
    omega (arith, degree-append v rows to from targets h)

row_of-set :
    (graph : Graph) (to from : ℕ) (targets : List ℕ) (w v : ℕ)
    → get_elem? graph to ≡ some targets
    → count v (row_of (set graph to (targets ++ from ∷ [])) w)
      ≡ count v (row_of graph w) + (if to == w then count v (from ∷ []) else 0)
row_of-set graph to from targets w v h =
    let graph' = set graph to (targets ++ from ∷ []) in
    elim (eq_cases to w) [
      | inl e ↦
          let new : row_of graph' w ≡ targets ++ from ∷ [] =
            row_of_lem graph' w (targets ++ from ∷ []) (
              ap (get_elem? graph') (sym e)
              ∙ get_elem?-set_self graph to (targets ++ from ∷ []) (lt-length graph to h)) in
          let old : row_of graph w ≡ targets =
            row_of_lem graph w targets (ap (get_elem? graph) (sym e) ∙ h) in
          ap (count v) new ∙ ground (arith, count-append v targets (from ∷ []), e, ap (count v) old)
      | inr ne ↦
          ap (count v)
            (row_of_ext graph' graph w (get_elem?-set_ne graph to w (targets ++ from ∷ []) ne))
          ∙ ground (arith, ne)
    ]

row_of-closed :
    (graph : Graph) (in_degree : List ℤ)
    → IsGraph graph in_degree
    → (u v : ℕ) → 0 < count v (row_of graph u)
    → v < length graph
unfolding row_of count
row_of-closed graph in_degree g u v h = elim (Option-cases (get_elem? graph u)) [
  | inl e ↦ absurd (ground (arith, h, ap (count v) (row_of_none graph u e)))
  | inr (row, e) ↦ g.closed u row v e (ground (arith, h, ap (count v) (row_of_lem graph u row e)))
]
  where
    row_of_none : (graph : Graph) (u : ℕ) → get_elem? graph u ≡ none → row_of graph u ≡ []
    row_of_none graph u h = rw (row_of, h) refl

add_edge-IsGraph :
    (to from : ℕ) (graph : Graph) (in_degree : List ℤ)
    → IsGraph graph in_degree
    → to < length graph
    → from < length graph
    → (graph' : Graph) × (in_degree' : List ℤ) × (add_edge to from (graph, in_degree)
        ≡ some (graph', in_degree'))
      × IsGraph graph' in_degree'
      × (length graph' ≡ length graph)
      × ((w v : ℕ)
          → count v (row_of graph' w)
            ≡ count v (row_of graph w) + (if to == w then count v (from ∷ []) else 0))
unfolding add_edge inc count
add_edge-IsGraph to from graph in_degree g p q =
    let (targets, at) = get_elem?-lt graph to p in
    let d = g.degrees from q in
    let graph' = set graph to (targets ++ from ∷ []) in
    let size : length graph' ≡ length graph = length-set graph to (targets ++ from ∷ []) in
    let d' = suc (degree from (whole graph)) in
    let more = λ (v : ℕ). degree-append v graph to from targets at in
    let rows = λ (w : ℕ) (v : ℕ). row_of-set graph to from targets w v at in
    (
      graph',
      set in_degree from (pos d'),
      rw (add_edge, at, d) refl,
      record {
        size = length-set in_degree from (pos d') ∙ g.size ∙ sym size;
        degrees = λ v h. elim (eq_cases from v) [
          | inl e ↦
              ap (λ u. get_elem? (set in_degree from (pos d')) u) (sym e)
              ∙ get_elem?-set_self in_degree from (pos d') (lt-length in_degree from d)
              ∙ ap (λ k. some (pos k)) (ground (arith, more v, e))
          | inr ne ↦
              get_elem?-set_ne in_degree from v (pos d') ne
              ∙ g.degrees v (ground (arith, h, size))
              ∙ ap (λ k. some (pos k)) (ground (arith, more v, ne))
        ];
        closed = λ u row v h c.
            let e : count v (row_of graph u) + (if to == u then count v (from ∷ []) else 0)
                ≡ count v row =
              sym (rows u v) ∙ ap (count v) (row_of_lem graph' u row h) in
            elim (eq_cases from v) [
              | inl same ↦ ground (arith, size, q, same)
              | inr ne ↦
                  ground
                    (arith, size, row_of-closed graph in_degree g u v (ground (arith, e, c, ne)))
            ];
      },
      size,
      rows,
    )

-- The loop's graph, from tables without references on.
pub add_edges-IsGraph :
    (rs : List ResolvedFk) (graph : Graph) (in_degree : List ℤ)
    → IsGraph graph in_degree
    → All (IsInside (length graph)) rs
    → (graph' : Graph) × (in_degree' : List ℤ) × (add_edges rs (graph, in_degree)
        ≡ some (graph', in_degree'))
      × IsGraph graph' in_degree'
      × (length graph' ≡ length graph)
      × ((w v : ℕ) → count v (row_of graph' w) ≡ count v (row_of graph w) + references w v rs)
unfolding add_edges references IsInside count
add_edges-IsGraph [] graph in_degree g h = (graph, in_degree, refl, g, refl, λ w v. omega arith)
add_edges-IsGraph (r ∷ rs) graph in_degree g ((p, q), h) =
    elim (Bool-cases (r.ref_table_old_idx == r.source_table_idx)) [
      | inl own ↦
          let (graph', in_degree', e, g', size, rows) = add_edges-IsGraph rs graph in_degree g h in
          (
            graph',
            in_degree',
            rw (add_edges, own) e,
            g',
            size,
            λ w v. rows w v ∙ ground (arith, own),
          )
      | inr other ↦
          let (mid, in_degree1, e, g1, size, rows) =
            add_edge-IsGraph r.ref_table_old_idx r.source_table_idx graph in_degree g p q in
          let (graph', in_degree', e', g', size', rows') =
            add_edges-IsGraph rs mid in_degree1 g1
              (subst (λ k. All (IsInside k) rs) (sym size) h) in
          (
            graph',
            in_degree',
            rw (add_edges, other, e) e',
            g',
            size' ∙ size,
            λ w v. ground (arith, rows' w v, rows w v, other),
          )
    ]

pub length-filled {ℓ} : {A : Type ℓ} (x : A) (n : ℕ) → length (filled x n) ≡ n
length-filled x zero = refl
length-filled x (suc n) = ap suc (length-filled x n)

pub get_elem?-filled {ℓ} :
    {A : Type ℓ} (x : A) (n v : ℕ) → v < n → get_elem? (filled x n) v ≡ some x
get_elem?-filled x zero v h = absurd (ground (arith, h))
get_elem?-filled x (suc n) zero h = refl
get_elem?-filled x (suc n) (suc v) h = get_elem?-filled x n v (omega arith)

degree-filled : (n v : ℕ) → degree v (whole (filled [] n)) ≡ 0
unfolding degree count
degree-filled zero v = refl
degree-filled (suc n) v = omega (arith, degree-filled n v)

-- The graph before the loop.
pub filled-IsGraph : (n : ℕ) → IsGraph (filled [] n) (filled (pos 0) n)
unfolding count
filled-IsGraph n = record {
  size = length-filled (pos 0) n ∙ sym (length-filled [] n);
  degrees = λ v h.
      get_elem?-filled (pos 0) n v (ground (arith, h, length-filled {A = List ℕ} [] n))
      ∙ ap (λ k. some (pos k)) (sym (degree-filled n v));
  closed = λ u row v h c.
      let e : row ≡ [] = cc (
        h,
        get_elem?-filled {A = List ℕ} [] n u (
            ground
              (arith, lt-length (filled {A = List ℕ} [] n) u h, length-filled {A = List ℕ} [] n)),
      ) in
      absurd (ground (arith, c, ap (count v) e));
}

pub references_get :
    (rs : List ResolvedFk) (j : ℕ) (r : ResolvedFk)
    → get_elem? rs j ≡ some r
    → r.ref_table_old_idx ≢ r.source_table_idx
    → 0 < references r.ref_table_old_idx r.source_table_idx rs
unfolding references
references_get [] j r e ne = cc
references_get (x ∷ rs) zero r e ne =
    let same : x ≡ r = cc in
    ground (arith, ne, ap (λ y. y.ref_table_old_idx) same, ap (λ y. y.source_table_idx) same)
references_get (x ∷ rs) (suc j) r e ne = ground (arith, references_get rs j r e ne)

pub references_from :
    (w v : ℕ) (rs : List ResolvedFk)
    → 0 < references w v rs
    → (j : ℕ) × (r : ResolvedFk) × (get_elem? rs j ≡ some r)
      × (r.ref_table_old_idx ≡ w)
      × (r.source_table_idx ≡ v)
      × (w ≢ v)
unfolding references
references_from w v [] h = absurd (ground (arith, h))
references_from w v (r ∷ rs) h = elim (eq_cases (references w v rs) 0) [
  | inr ne ↦
      let (j, s, at, p, q, other) = references_from w v rs (ground (arith, ne)) in
      (suc j, s, at, p, q, other)
  | inl z ↦ (0, r, refl, ground (arith, h, z), ground (arith, h, z), λ e. ground (arith, h, z, e))
]
