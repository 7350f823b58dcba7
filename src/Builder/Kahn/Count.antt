-- ===== src/Builder/Kahn/Count.antt =====
-- How often a table is in a list, and the rows of the reference graph that are not handled: what the
-- topological order of crates/database/src/core/schema_builder.rs keeps its in-degrees for.
use boomerang.Base.{
  ℕ, zero, suc, ◌+◌, ◌<◌, ◌≡◌, refl, sym, ap, ◌∙◌, ◌≢◌, ◌⊎◌, inl, inr, Bool, true, false, Option,
  none, some, List, [], ◌∷◌, ◌++◌, length, get_elem?, ltb, set, get_elem?-set_ne, lt-length, ◌==◌,
  if◌then◌else◌, arith,
}
use boomerang.Base.Search.{eq_cases}

unfoldable pub count : ℕ → List ℕ → ℕ
count v [] = 0
count v (x ∷ xs) = let rest = count v xs in if x == v then suc rest else rest

-- Row `u` is `some` until table `u` is handled.
abbrev pub Rows : Type 0
Rows = List (Option (List ℕ))

-- The references of table `v` to tables that are not handled.
unfoldable pub degree : ℕ → Rows → ℕ
unfolding count
degree v [] = 0
degree v (none ∷ rows) = degree v rows
degree v (some row ∷ rows) = count v row + degree v rows

unfoldable pub is_live : Rows → ℕ → Bool
is_live rows v = elim (get_elem? rows v) [
  | none ↦ false
  | some row ↦ elim row [ none ↦ false | some targets ↦ true ]
]

unfoldable pub live_count : Rows → ℕ
live_count [] = 0
live_count (none ∷ rows) = live_count rows
live_count (some row ∷ rows) = suc (live_count rows)

pub count-append : (v : ℕ) (xs ys : List ℕ) → count v (xs ++ ys) ≡ count v xs + count v ys
unfolding count
count-append v [] ys = omega arith
count-append v (x ∷ xs) ys = ground (arith, count-append v xs ys)

pub get_elem?-count : (v : ℕ) (xs : List ℕ) → 0 < count v xs → (i : ℕ) × (get_elem? xs i ≡ some v)
unfolding count
get_elem?-count v [] h = elim h [ ]
get_elem?-count v (x ∷ xs) h = elim (eq_cases x v) [
  | inl e ↦ (0, ap some e)
  | inr ne ↦ let (i, q) = get_elem?-count v xs (ground arith) in (suc i, q)
]

pub count-get_elem? : (v : ℕ) (xs : List ℕ) (i : ℕ) → get_elem? xs i ≡ some v → 0 < count v xs
unfolding count
count-get_elem? v [] i h = cc
count-get_elem? v (x ∷ xs) zero h = ground arith
count-get_elem? v (x ∷ xs) (suc i) h = ground (arith, count-get_elem? v xs i h)

pub degree-set :
    (v : ℕ) (rows : Rows) (u : ℕ) (row : List ℕ)
    → get_elem? rows u ≡ some (some row)
    → degree v rows ≡ count v row + degree v (set rows u none)
unfolding degree
degree-set v [] u row h = cc
degree-set v (r ∷ rows) zero row h = let e : r ≡ some row = cc in rw (e) refl
degree-set v (none ∷ rows) (suc u) row h = degree-set v rows u row h
degree-set v (some r ∷ rows) (suc u) row h = omega (arith, degree-set v rows u row h)

pub live_count-set :
    (rows : Rows) (u : ℕ) (row : List ℕ)
    → get_elem? rows u ≡ some (some row)
    → live_count rows ≡ suc (live_count (set rows u none))
unfolding live_count
live_count-set [] u row h = cc
live_count-set (r ∷ rows) zero row h = let e : r ≡ some row = cc in rw (e) refl
live_count-set (none ∷ rows) (suc u) row h = live_count-set rows u row h
live_count-set (some r ∷ rows) (suc u) row h = omega (arith, live_count-set rows u row h)

-- A table with references has one to a table that is not handled.
pub degree_cases :
    (v : ℕ) (rows : Rows)
    → (degree v rows ≡ 0)
      ⊎ ((u : ℕ) × (row : List ℕ) × (get_elem? rows u ≡ some (some row)) × (0 < count v row))
unfolding degree
degree_cases v [] = inl refl
degree_cases v (none ∷ rows) = elim (degree_cases v rows) [
  | inl e ↦ inl e
  | inr (u, row, p, q) ↦ inr (suc u, row, p, q)
]
degree_cases v (some r ∷ rows) = elim (eq_cases (count v r) 0) [
  | inr ne ↦ inr (0, r, refl, omega arith)
  | inl e ↦ elim (degree_cases v rows) [
    | inl e' ↦ inl (omega arith)
    | inr (u, row, p, q) ↦ inr (suc u, row, p, q)
  ]
]

pub is_live_lem :
    (rows : Rows) (v : ℕ)
    → ((row : List ℕ) × (get_elem? rows v ≡ some (some row)) × (is_live rows v ≡ true))
      ⊎ (((row : List ℕ) → get_elem? rows v ≡ some (some row) → ⊥) × (is_live rows v ≡ false))
unfolding is_live
is_live_lem [] v = inr ((λ row h. cc), refl)
is_live_lem (none ∷ rows) zero = inr ((λ row h. cc), refl)
is_live_lem (some row ∷ rows) zero = inl (row, refl, refl)
is_live_lem (r ∷ rows) (suc v) = is_live_lem rows v

pub is_live-get_elem? :
    (rows : Rows) (v : ℕ)
    → is_live rows v ≡ true
    → (row : List ℕ) × (get_elem? rows v ≡ some (some row))
is_live-get_elem? rows v h = elim (is_live_lem rows v) [
  | inl (row, e, l) ↦ (row, e)
  | inr (other, l) ↦ absurd (ground (arith, h, l))
]

pub is_live-some :
    (rows : Rows) (v : ℕ) (row : List ℕ)
    → get_elem? rows v ≡ some (some row)
    → is_live rows v ≡ true
unfolding is_live
is_live-some rows v row h = rw (is_live, h) refl

pub is_live-lt : (rows : Rows) (v : ℕ) → is_live rows v ≡ true → v < length rows
is_live-lt rows v h = let (row, e) = is_live-get_elem? rows v h in lt-length rows v e

pub is_live-set_self : (rows : Rows) (u : ℕ) → is_live (set rows u none) u ≡ false
unfolding is_live
is_live-set_self [] u = refl
is_live-set_self (r ∷ rows) zero = refl
is_live-set_self (r ∷ rows) (suc u) = is_live-set_self rows u

pub is_live-set_ne : (rows : Rows) (u v : ℕ) → u ≢ v → is_live (set rows u none) v ≡ is_live rows v
unfolding is_live
is_live-set_ne rows u v ne = rw (is_live, get_elem?-set_ne rows u v none ne) refl

-- A row that is left behind `u` was there before.
pub get_elem?-set-some :
    (rows : Rows) (u v : ℕ) (row : List ℕ)
    → get_elem? (set rows u none) v ≡ some (some row)
    → (u ≢ v) × (get_elem? rows v ≡ some (some row))
get_elem?-set-some rows u v row h =
    let ne : u ≢ v = λ e. ground (
      arith,
      is_live-set_self rows u,
      is_live-some (set rows u none) v row h,
      ap (is_live (set rows u none)) e,
    ) in
    (ne, sym (get_elem?-set_ne rows u v none ne) ∙ h)

pub live_count_dead : (rows : Rows) → ((v : ℕ) → is_live rows v ≡ false) → live_count rows ≡ 0
unfolding live_count is_live
live_count_dead [] h = refl
live_count_dead (none ∷ rows) h = live_count_dead rows (λ v. h (suc v))
live_count_dead (some row ∷ rows) h = let e = h 0 in cc

pub is_live-live_count : (rows : Rows) (v : ℕ) → live_count rows ≡ 0 → is_live rows v ≡ false
unfolding live_count is_live
is_live-live_count [] v h = refl
is_live-live_count (none ∷ rows) zero h = refl
is_live-live_count (none ∷ rows) (suc v) h = is_live-live_count rows v h
is_live-live_count (some row ∷ rows) v h = absurd (ground (arith, h))

-- All rows of a graph.
abbrev pub whole : List (List ℕ) → Rows
whole [] = []
whole (row ∷ rows) = some row ∷ whole rows

pub length-whole : (graph : List (List ℕ)) → length (whole graph) ≡ length graph
length-whole [] = refl
length-whole (row ∷ rows) = ap suc (length-whole rows)

pub live_count-whole : (graph : List (List ℕ)) → live_count (whole graph) ≡ length graph
unfolding live_count
live_count-whole [] = refl
live_count-whole (row ∷ rows) = ap suc (live_count-whole rows)

pub get_elem?-whole :
    (graph : List (List ℕ)) (v : ℕ) (row : List ℕ)
    → get_elem? graph v ≡ some row
    → get_elem? (whole graph) v ≡ some (some row)
get_elem?-whole [] v row h = cc
get_elem?-whole (r ∷ rows) zero row h = cc
get_elem?-whole (r ∷ rows) (suc v) row h = get_elem?-whole rows v row h

pub whole-some :
    (graph : List (List ℕ)) (v : ℕ) (row : List ℕ)
    → get_elem? (whole graph) v ≡ some (some row)
    → get_elem? graph v ≡ some row
whole-some [] v row h = cc
whole-some (r ∷ rows) zero row h = cc
whole-some (r ∷ rows) (suc v) row h = whole-some rows v row h

pub is_live-whole : (graph : List (List ℕ)) (v : ℕ) → is_live (whole graph) v ≡ ltb v (length graph)
unfolding is_live
is_live-whole [] v = ground arith
is_live-whole (row ∷ rows) zero = ground arith
is_live-whole (row ∷ rows) (suc v) = ground (arith, is_live-whole rows v)
