-- ===== src/Builder/Kahn/Drain.antt =====
-- The `while let` of the topological order in crates/database/src/core/schema_builder.rs.
use boomerang.Base.{
  ℕ, zero, suc, ◌+◌, ◌<◌, ◌≤◌, ◌≡◌, ◌≢◌, refl, sym, ap, ◌∙◌, inl, inr, Bool, true, false, none,
  some, List, [], ◌∷◌, length, get_elem?, set, length-set, get_elem?-set_ne, if◌then◌else◌, arith,
  Bool-cases,
}
use boomerang.Base.Int.{ℤ, pos}
use boomerang.Base.Outcome.{ok}
use boomerang.Base.Search.{eq_cases}
use boomerang.Builder.Kahn.{Graph, Front, expand, drain}
use boomerang.Builder.Kahn.Count.{
  count, Rows, degree, degree-set, is_live, live_count, live_count-set, is_live-get_elem?,
  is_live-some, is_live-lt, is_live-set_self, is_live-set_ne, get_elem?-set-some,
}
use boomerang.Builder.Kahn.Release.{ready, Waits, release_all-Waits}

-- The state between two rounds. `rows` are the rows of the graph that are not handled: the in-degrees
-- count their references, and the queue holds the tables without one.
pub record IsFront (graph : Graph) (rows : Rows) (front : Front) : Type 0 where
  pub kept :
      (v : ℕ) (row : List ℕ) → get_elem? rows v ≡ some (some row) → get_elem? graph v ≡ some row
  pub waits : Waits (length rows) (is_live rows) (λ v. degree v rows) front
  pub free : (v : ℕ) → is_live rows v ≡ false → degree v rows ≡ 0

unfoldable pub bit : Bool → ℕ
bit b = if b then 1 else 0

-- What the loop lists from `rows` on, where it leaves the rows `last`.
pub record Listing (rows : Rows) (sorted : List ℕ) (last : Rows) : Type 0 where
  pub counts : (v : ℕ) → bit (is_live rows v) ≡ count v sorted + bit (is_live last v)
  pub ordered :
      (i u w : ℕ) (row : List ℕ)
      → get_elem? sorted i ≡ some u
      → get_elem? rows w ≡ some (some row)
      → 0 < count u row
      → (j : ℕ) × (j < i) × (get_elem? sorted j ≡ some w)
  pub blocked : (v : ℕ) → is_live last v ≡ true → degree v last ≢ 0
  pub size : live_count rows ≡ length sorted + live_count last
  pub left :
      (v : ℕ) (row : List ℕ)
      → get_elem? last v ≡ some (some row)
      → get_elem? rows v ≡ some (some row)

module _ (graph : Graph) where
  expand-IsFront :
      (rows : Rows) (u : ℕ) (in_degree : List ℤ) (rest : List ℕ)
      → IsFront graph rows (record { in_degree = in_degree; queue = u ∷ rest })
      → (row : List ℕ) × (next : Front) × (get_elem? rows u ≡ some (some row))
        × (degree u rows ≡ 0)
        × (expand graph u in_degree rest ≡ some next)
        × IsFront graph (set rows u none) next
  unfolding expand count ready
  expand-IsFront rows u in_degree rest f =
      let q : count u (u ∷ rest) ≡ ready (is_live rows u) (degree u rows) = f.waits.queued u in
      let l : is_live rows u ≡ true = ground (arith, q) in
      let z : degree u rows ≡ 0 = ground (arith, q) in
      let (row, at) = is_live-get_elem? rows u l in
      let rows' = set rows u none in
      let targets : (v : ℕ) → 0 < count v row → (u ≢ v) × (is_live rows v ≡ true) = λ v h. (
        (λ e. ground (arith, h, z, degree-set v rows u row at, ap (λ w. degree w rows) e)),
        elim (Bool-cases (is_live rows v)) [
          | inl live ↦ live
          | inr dead ↦ absurd (ground (arith, f.free v dead, h, degree-set v rows u row at))
        ],
      ) in
      let waits : Waits (length rows) (is_live rows') (λ v. count v row + degree v rows')
          (record { in_degree = in_degree; queue = rest }) =
        record {
          degrees =
              λ v h. f.waits.degrees v h ∙ ap (λ d. some (pos d)) (degree-set v rows u row at);
          queued = λ v. elim (eq_cases u v) [
            | inl e ↦ ground (
              arith,
              f.waits.queued v,
              is_live-set_self rows u,
              ap (is_live rows') e,
              e,
              l,
              z,
              ap (is_live rows) e,
              ap (λ w. degree w rows) e,
            )
            | inr ne ↦ ground (
              arith,
              f.waits.queued v,
              is_live-set_ne rows u v ne,
              ne,
              degree-set v rows u row at,
            )
          ];
        } in
      let (next, e, done) =
        release_all-Waits (length rows) (is_live rows') (λ v. degree v rows') row _ waits
          (λ v h.
            let (ne, live) = targets v h in
            (is_live-lt rows v live, is_live-set_ne rows u v ne ∙ live)) in
      (
        row,
        next,
        at,
        z,
        rw (expand, f.kept u row at) e,
        record {
          kept = λ v r h. f.kept v r (get_elem?-set-some rows u v r h).1;
          waits = rw (length-set rows u none) done;
          free = λ v h. elim (eq_cases u v) [
            | inl same ↦ ground (arith, degree-set v rows u row at, z, ap (λ w. degree w rows) same)
            | inr ne ↦
                ground (
                  arith,
                  degree-set v rows u row at,
                  f.free v (sym (is_live-set_ne rows u v ne) ∙ h),
                )
          ];
        },
      )

  -- One more table in front of what the loop lists.
  Listing-cons :
      (rows : Rows) (u : ℕ) (row : List ℕ) (sorted : List ℕ) (last : Rows)
      → get_elem? rows u ≡ some (some row)
      → degree u rows ≡ 0
      → Listing (set rows u none) sorted last
      → Listing rows (u ∷ sorted) last
  unfolding count bit
  Listing-cons rows u row sorted last at z later = record {
    counts = λ v. elim (eq_cases u v) [
      | inl e ↦ ground (
        arith,
        later.counts v,
        e,
        is_live-set_self rows u,
        ap (is_live (set rows u none)) e,
        is_live-some rows u row at,
        ap (is_live rows) e,
      )
      | inr ne ↦ ground (arith, later.counts v, ne, is_live-set_ne rows u v ne)
    ];
    ordered = Listing_ordered;
    blocked = later.blocked;
    size = omega (arith, live_count-set rows u row at, later.size);
    left = λ v r h. (get_elem?-set-some rows u v r (later.left v r h)).1;
  }
    where
      Listing_ordered :
          (i x w : ℕ) (r : List ℕ)
          → get_elem? (u ∷ sorted) i ≡ some x
          → get_elem? rows w ≡ some (some r)
          → 0 < count x r
          → (j : ℕ) × (j < i) × (get_elem? (u ∷ sorted) j ≡ some w)
      Listing_ordered zero x w r h k c =
          let e : u ≡ x = cc in
          absurd (ground (arith, degree-set x rows w r k, z, ap (λ y. degree y rows) e, c))
      Listing_ordered (suc i) x w r h k c = elim (eq_cases u w) [
        | inl e ↦ (0, omega arith, ap some e)
        | inr ne ↦
            let (j, less, q) = later.ordered i x w r h (get_elem?-set_ne rows u w none ne ∙ k) c in
            (suc j, omega arith, q)
      ]

  -- With fuel for the tables that are not handled, the loop ends without a panic.
  pub drain-Listing :
      (fuel : ℕ) (rows : Rows) (in_degree : List ℤ) (queue : List ℕ)
      → IsFront graph rows (record { in_degree = in_degree; queue = queue })
      → live_count rows ≤ fuel
      → (sorted : List ℕ) × (last : Rows) × (drain graph fuel in_degree queue ≡ ok sorted)
        × Listing rows sorted last
  unfolding drain count ready
  drain-Listing fuel rows in_degree [] f h = (
    [],
    rows,
    drain_nil fuel,
    record {
      counts = λ v. omega arith;
      ordered = λ i u w row p q c. cc;
      blocked = λ v live z. ground (arith, f.waits.queued v, live, z);
      size = omega arith;
      left = λ v row p. p;
    },
  )
    where
      drain_nil : (n : ℕ) → drain graph n in_degree [] ≡ ok []
      drain_nil zero = refl
      drain_nil (suc n) = refl
  drain-Listing zero rows in_degree (u ∷ rest) f h =
      let (row, next, at, z, e, f') = expand-IsFront rows u in_degree rest f in
      absurd (ground (arith, live_count-set rows u row at, h))
  drain-Listing (suc fuel) rows in_degree (u ∷ rest) f h =
      let (row, next, at, z, e, f') = expand-IsFront rows u in_degree rest f in
      let (sorted, last, done, later) =
        drain-Listing fuel (set rows u none) next.in_degree next.queue f'
          (ground (arith, live_count-set rows u row at, h)) in
      (u ∷ sorted, last, rw (drain, e, done) refl, Listing-cons rows u row sorted last at z later)
