-- ===== src/Builder/Leaves.antt =====
-- Which tables `leaf_tables` of crates/database/src/core/schema.rs lists.
use boomerang.Base.{
  ℕ, zero, suc, ◌+◌, ◌^◌, ◌<◌, ◌≤◌, ◌≡◌, refl, sym, ap, ◌∙◌, inl, inr, Bool, true, false, ◌&&◌,
  ◌||◌, not, none, some, List, [], ◌∷◌, length, take, drop, get_elem?, get_elem?-none, set, map,
  length-set, get_elem?-set_ne, get_elem?-set_self, All, ltb, ◌==◌, arith, Bool-cases,
}
use mathlib.Core.Path.{subst}
use boomerang.Base.Search.{eq_cases, order_cases}
use boomerang.Schema.Types.{ForeignKey, TableMeta, DatabaseSchema}
use boomerang.Schema.Lookup.{
  slice, table_at, mark_referenced, mark_tables, unreferenced, leaf_tables,
}
use boomerang.Builder.Kahn.Count.{count}
use boomerang.Builder.Kahn.Drain.{bit}

-- One of the foreign keys of table `index` is on table `v`, another one.
unfoldable pub is_hit : ℕ → List ForeignKey → ℕ → Bool
is_hit index [] v = false
is_hit index (fk ∷ fks) v =
    let rest = is_hit index fks v in (fk.table == v && not (fk.table == index)) || rest

module _ {I : Type 0} (schema : DatabaseSchema I) where
  -- One of the tables, from table `index` on, has such a foreign key.
  unfoldable pub is_referenced : ℕ → List TableMeta → ℕ → Bool
  unfolding is_hit slice
  is_referenced index [] v = false
  is_referenced index (t ∷ ts) v =
      let rest = is_referenced (suc index) ts v in
      elim (slice schema.foreign_key_pool t.fk_start t.fk_len) [
        | none ↦ rest
        | some fks ↦ is_hit index fks v || rest
      ]

  -- The foreign keys of the tables are there, and the tables that they are on.
  unfoldable pub IsLinked : List TableMeta → Type 0
  IsLinked [] = Unit
  IsLinked (t ∷ ts) =
      ((fks : List ForeignKey) × (slice schema.foreign_key_pool t.fk_start t.fk_len ≡ some fks)
        × All (λ fk. fk.table < length schema.tables) fks)
      × IsLinked ts

  take-All :
      (n : ℕ) (fks : List ForeignKey)
      → All (λ fk. fk.table < length schema.tables) fks
      → All (λ fk. fk.table < length schema.tables) (take n fks)
  take-All zero fks all = tt
  take-All (suc n) [] all = tt
  take-All (suc n) (fk ∷ fks) (low, all) = (low, take-All n fks all)

  drop-All :
      (n : ℕ) (fks : List ForeignKey)
      → All (λ fk. fk.table < length schema.tables) fks
      → All (λ fk. fk.table < length schema.tables) (drop n fks)
  drop-All zero fks all = all
  drop-All (suc n) [] all = tt
  drop-All (suc n) (fk ∷ fks) (low, all) = drop-All n fks all

  -- If the foreign keys of each table are there, and those of the pool are on tables.
  pub slices-IsLinked :
      (ts : List TableMeta)
      → All (λ fk. fk.table < length schema.tables) schema.foreign_key_pool
      → ((i : ℕ) (t : TableMeta)
          → get_elem? ts i ≡ some t
          → (fks : List ForeignKey) × (slice schema.foreign_key_pool t.fk_start t.fk_len
              ≡ some fks))
      → IsLinked ts
  unfolding IsLinked slice
  slices-IsLinked [] pool there = tt
  slices-IsLinked (t ∷ ts) pool there =
      let (fks, e) = there 0 t refl in
      let kept = take t.fk_len (drop t.fk_start schema.foreign_key_pool) in
      let same : kept ≡ fks = ground (arith, e) in
      (
        (
          fks,
          e,
          subst (λ ks. All (λ fk. fk.table < length schema.tables) ks) same
              (take-All t.fk_len (drop t.fk_start schema.foreign_key_pool)
                (drop-All t.fk_start schema.foreign_key_pool pool)),
        ),
        slices-IsLinked ts pool (λ i s q. there (suc i) s q),
      )

  -- The marks behind those of `marks`.
  record IsMarked (marks : List Bool) (hit : ℕ → Bool) (marks' : List Bool) : Type 0 where
    size : length marks' ≡ length marks
    at : (v : ℕ) (b : Bool) → get_elem? marks v ≡ some b → get_elem? marks' v ≡ some (b || hit v)

  mark_referenced-IsMarked :
      (index : ℕ) (fks : List ForeignKey) (marks : List Bool)
      → All (λ fk. fk.table < length marks) fks
      → (marks' : List Bool) × (mark_referenced schema index fks marks ≡ some marks')
        × IsMarked marks (is_hit index fks) marks'
  unfolding mark_referenced is_hit
  mark_referenced-IsMarked index [] marks all =
      (marks, refl, record { size = refl; at = λ v b e. e ∙ ground arith })
  mark_referenced-IsMarked index (fk ∷ fks) marks (low, all) =
      elim (Bool-cases (fk.table == index)) [
        | inl own ↦
            let (marks', e, m) = mark_referenced-IsMarked index fks marks all in
            (
              marks',
              rw (mark_referenced, own) e,
              record { size = m.size; at = λ v b q. m.at v b q ∙ ground (arith, own) },
            )
        | inr other ↦
            let next = set marks fk.table true in
            let size = length-set marks fk.table true in
            let inside = subst (λ n. All (λ k. k.table < n) fks) (sym size) all in
            let (marks', e, m) = mark_referenced-IsMarked index fks next inside in
            let c : ltb fk.table (length marks) ≡ true = ground (arith, low) in
            (
              marks',
              rw (mark_referenced, other, c) e,
              record {
                size = m.size ∙ size;
                at = λ v b q. elim (eq_cases fk.table v) [
                  | inl here ↦
                      m.at v true (
                        ap (get_elem? next) (sym here) ∙ get_elem?-set_self marks fk.table true low)
                      ∙ ground (arith, here, other)
                  | inr ne ↦
                      m.at v b (get_elem?-set_ne marks fk.table v true ne ∙ q) ∙ ground (arith, ne)
                ];
              },
            )
      ]

  mark_tables-IsMarked :
      (index : ℕ) (ts : List TableMeta) (marks : List Bool)
      → length marks ≡ length schema.tables
      → IsLinked ts
      → (marks' : List Bool) × (mark_tables schema index ts marks ≡ some marks')
        × IsMarked marks (is_referenced index ts) marks'
  unfolding mark_tables is_referenced IsLinked
  mark_tables-IsMarked index [] marks size linked =
      (marks, refl, record { size = refl; at = λ v b e. e ∙ ground arith })
  mark_tables-IsMarked index (t ∷ ts) marks size ((fks, found, all), linked) =
      let inside = subst (λ n. All (λ k. k.table < n) fks) (sym size) all in
      let (next, e, m) = mark_referenced-IsMarked index fks marks inside in
      let (marks', e', m') = mark_tables-IsMarked (suc index) ts next (m.size ∙ size) linked in
      (
        marks',
        rw (mark_tables, found, e) e',
        record {
          size = m'.size ∙ m.size;
          at = λ v b q. m'.at v (b || is_hit index fks v) (m.at v b q) ∙ ground (arith, found);
        },
      )

  count-unreferenced_below :
      (index : ℕ) (marks : List Bool) (v : ℕ)
      → index + length marks ≤ length schema.tables
      → length schema.tables ≤ 2 ^ 16
      → v < index
      → count v (unreferenced schema index marks) ≡ 0
  unfolding unreferenced table_at count
  count-unreferenced_below index [] v h few low = refl
  count-unreferenced_below index (m ∷ ms) v h few low =
      ground (arith, count-unreferenced_below (suc index) ms v (omega arith) few (omega arith))

  unmarked : List Bool → ℕ → ℕ
  unmarked marks k = elim (get_elem? marks k) [ none ↦ 0 | some b ↦ bit (not b) ]

  count-unreferenced :
      (index : ℕ) (marks : List Bool) (v k : ℕ)
      → index + length marks ≤ length schema.tables
      → length schema.tables ≤ 2 ^ 16
      → v ≡ index + k
      → count v (unreferenced schema index marks) ≡ unmarked marks k
  unfolding unreferenced table_at count unmarked bit
  count-unreferenced index [] v k h few e = refl
  count-unreferenced index (m ∷ ms) v zero h few e =
      ground (arith, count-unreferenced_below (suc index) ms v (omega arith) few (omega arith), e)
  count-unreferenced index (m ∷ ms) v (suc k) h few e =
      ground (arith, count-unreferenced (suc index) ms v k (omega arith) few (omega arith), e)

  -- In a schema of at most 2 ^ 16 tables, whose foreign keys are there and on tables of it,
  -- `leaf_tables` does not panic, and it lists each table once that no foreign key of another table is
  -- on, and no other.
  pub leaf_tables_lem :
      IsLinked schema.tables
      → length schema.tables ≤ 2 ^ 16
      → (leaves : List ℕ) × (leaf_tables schema ≡ some leaves)
        × ((v : ℕ)
            → count v leaves
              ≡ bit (ltb v (length schema.tables) && not (is_referenced 0 schema.tables v)))
  unfolding leaf_tables unmarked bit
  leaf_tables_lem linked few =
      let clear = map (λ t. false) schema.tables in
      let clear_size = length-clear schema.tables in
      let (marks, e, m) = mark_tables-IsMarked 0 schema.tables clear clear_size linked in
      (
        unreferenced schema 0 marks,
        rw (leaf_tables, e) refl,
        λ v.
            count-unreferenced 0 marks v v (ground (arith, m.size, clear_size)) few (omega arith)
            ∙ elim (order_cases v (length schema.tables)) [
              | inl low ↦
                  rw (unmarked, m.at v false (get_elem?-clear schema.tables v low)) ground
                    (arith, low)
              | inr high ↦
                  rw (unmarked, get_elem?-none marks v (ground (arith, high, m.size, clear_size)))
                    ground (arith, high)
            ],
      )
    where
      length-clear : (ts : List TableMeta) → length (map (λ t. false) ts) ≡ length ts
      length-clear [] = refl
      length-clear (t ∷ ts) = ap suc (length-clear ts)

      get_elem?-clear :
          (ts : List TableMeta) (v : ℕ)
          → v < length ts
          → get_elem? (map (λ t. false) ts) v ≡ some false
      get_elem?-clear [] v h = absurd (ground (arith, h))
      get_elem?-clear (t ∷ ts) zero h = refl
      get_elem?-clear (t ∷ ts) (suc v) h = get_elem?-clear ts v (omega arith)
