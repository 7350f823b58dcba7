-- ===== src/Builder/Assemble.antt =====
-- `build` of crates/database/src/core/schema_builder.rs, behind the topological order.
use mathlib.Core.Path.{subst}
use boomerang.Base.{
  All, ℕ, ◌+◌, ◌%◌, ◌^◌, ◌<◌, ◌≤◌, ◌≡◌, refl, sym, ap, ◌∙◌, ◌⊎◌, inl, inr, Option, none, some, List,
  length, get_elem?, lt-length, get_elem?-lt, arith, Option-cases,
}
use boomerang.Schema.Types.{ForeignKey, TableMeta, DatabaseSchema}
use boomerang.Schema.Lookup.ByName.{slot_key, slot_key_lem, IsByName}
use boomerang.Builder.State.{UnresolvedFk, DatabaseSchemaBuilder}
use boomerang.Builder.Build.{
  ResolvedFk, index_by_name, resolve_fk, new_indices, filled, assemble, no_start,
}
use boomerang.Builder.ByName.{index_by_name-IsByName}
use boomerang.Builder.Numbered.{present, present-All}
use boomerang.Builder.Compact.{
  resolved_at, resolved_at-lt, renew, IsResolved, IsRenewal, compact-IsRenewal,
}
use boomerang.Builder.Places.{IsOnce-length, IsOnce-lt, new_indices_lem, pick_lem}
use boomerang.Builder.Edges.{length-filled}
use boomerang.Builder.Kahn.Count.{get_elem?-count}
use boomerang.Builder.Kahn.Drain.{bit}
use boomerang.Builder.Kahn.Order.{IsOnce}
use boomerang.Builder.Result.{
  IsBuilder, IsMovedTable, IsEach, move_tables_lem, move_columns_lem, IsSchemaOf,
}

-- The index by name depends on the names only.
IsByName-moved :
    (pool : List ForeignKey) (renewed : List (Option ForeignKey)) (ts ts' : List TableMeta)
    (by_name : List ℕ)
    → IsByName ts by_name
    → IsEach (IsMovedTable pool renewed) ts ts'
    → IsByName ts' by_name
unfolding IsEach
IsByName-moved pool renewed ts ts' by_name valid (size, each) =
    let keys : (slot : ℕ)
        → slot < length by_name
        → slot_key ts' by_name slot ≡ slot_key ts by_name slot =
      λ slot h.
        let (i, t, p, q) = valid.inside slot h in
        let (t', q', moved) = each i t q in
        slot_key_lem ts' by_name slot i t' p q'
        ∙ ap (λ n. n.raw) moved.name
        ∙ sym (slot_key_lem ts by_name slot i t p q) in
    record {
      inside = λ slot h.
          let (i, t, p, q) = valid.inside slot h in
          let (t', q', moved) = each i t q in (i, t', p, q');
      covers = λ i h. valid.covers i (ground (arith, size, h));
      ascends = λ slot later h low. ground (
        arith,
        keys slot (ground (arith, h, low)),
        keys later low,
        valid.ascends slot later h low,
      );
    }

module _ {I : Type 0} (b : DatabaseSchemaBuilder I) (valid : IsBuilder b) (hash sorted : List ℕ)
    (once : IsOnce (length b.tables) sorted) where
  -- `old_to_new_table`
  places :
      (ys : List ℕ) × (new_indices 0 sorted (filled 0 (length b.tables)) ≡ some ys)
      × (length ys ≡ length b.tables)
      × ((new old : ℕ) → get_elem? sorted new ≡ some old → get_elem? ys old ≡ some new)
  unfolding IsOnce bit
  places =
      let n = length b.tables in
      let filled_size : length (filled {A = ℕ} 0 n) ≡ n = length-filled {A = ℕ} 0 n in
      let (ys, e, size, same, placed) =
        new_indices_lem sorted 0 (filled 0 n)
          (λ v c. (ground (arith, once v, c, filled_size), ground (arith, once v, c))) in
      (
        ys,
        e,
        size ∙ filled_size,
        λ new old at.
            let low = lt-length sorted new at in
            let few = valid.tables.few in
            let less : (0 + new) % 2 ^ 16 ≡ new =
              ground (arith, low, few, IsOnce-length n sorted once) in
            placed new old at ∙ ap some less,
      )

  module _ (rs : List ResolvedFk)
      (resolved : IsResolved (length b.foreign_key_pool) (length b.tables) 0 rs)
      (found : (i : ℕ) (u : UnresolvedFk)
        → get_elem? b.unresolved_fks i ≡ some u
        → resolve_fk b.tables b.column_names (index_by_name b.tables) u
          ≡ some (resolved_at u.pool_index rs)) where
    resolved_key :
        (old_to_new : List ℕ) (ys : List (Option ForeignKey))
        → ((new old : ℕ) → get_elem? sorted new ≡ some old → get_elem? old_to_new old ≡ some new)
        → IsRenewal b.foreign_key_pool old_to_new rs ys
        → (p : ℕ) (fk : ForeignKey) → get_elem? b.foreign_key_pool p ≡ some fk
        → ((resolved_at p rs ≡ none) × (get_elem? ys p ≡ some none))
          ⊎ ((r : ResolvedFk) × (new : ℕ) × (resolved_at p rs ≡ some r)
              × (get_elem? sorted new ≡ some r.ref_table_old_idx)
              × (get_elem? ys p
                  ≡ some (some (record fk { table = new; column = r.col_idx_in_table }))))
    unfolding renew IsOnce bit
    resolved_key old_to_new ys placed renewal p fk at =
        let e = renewal.renews p fk at in
        elim (Option-cases (resolved_at p rs)) [
          | inl gap ↦ inl (gap, e ∙ ap (λ o. some (renew old_to_new o fk)) gap)
          | inr (r, there) ↦
              let low =
                resolved_at-lt (length b.foreign_key_pool) (length b.tables) 0 p rs r resolved
                  there in
              let (new, q) =
                get_elem?-count r.ref_table_old_idx sorted
                  (ground (arith, low, once r.ref_table_old_idx)) in
              inr (
                r,
                new,
                there,
                q,
                e
                    ∙ ap (λ o. some (renew old_to_new o fk)) there
                    ∙ rw (renew, placed new r.ref_table_old_idx q) refl,
              )
        ]

    targets_lem :
        (old_to_new : List ℕ) (ys : List (Option ForeignKey))
        → ((new old : ℕ) → get_elem? sorted new ≡ some old → get_elem? old_to_new old ≡ some new)
        → IsRenewal b.foreign_key_pool old_to_new rs ys
        → All (λ fk. fk.table < length b.tables) (present ys)
    targets_lem old_to_new ys placed renewal =
        present-All (λ fk. fk.table < length b.tables) ys
          (λ p fk e.
            let (old, at) =
              get_elem?-lt b.foreign_key_pool p (ground (arith, lt-length ys p e, renewal.size)) in
            elim (resolved_key old_to_new ys placed renewal p old at) [
              | inl (gap, e') ↦ absurd (cc (e, e'))
              | inr (r, new, there, q, e') ↦
                  let same : record old { table = new; column = r.col_idx_in_table } ≡ fk =
                    cc (e, e') in
                  ground (
                    arith,
                    lt-length sorted new q,
                    IsOnce-length (length b.tables) sorted once,
                    ap (λ k. k.table) same,
                  )
            ])

    pub assemble-IsSchemaOf :
        (renewed : List (Option ForeignKey)) × (schema : DatabaseSchema I) × (assemble b rs sorted
            hash
          ≡ some schema)
        × IsSchemaOf b hash sorted renewed schema
    unfolding assemble IsEach
    assemble-IsSchemaOf =
        let (old_to_new, e1, size1, placed) = places in
        let n_sorted = IsOnce-length (length b.tables) sorted once in
        let (new_tables, e2, size2, picked) =
          pick_lem b.tables sorted (λ j i q. IsOnce-lt (length b.tables) sorted j i once q) in
        let resolved' : IsResolved (length b.foreign_key_pool) (length old_to_new) 0 rs =
          subst (λ n. IsResolved (length b.foreign_key_pool) n 0 rs) (sym size1) resolved in
        let (ys, e3, renewal) =
          compact-IsRenewal b.foreign_key_pool old_to_new rs valid.small resolved' in
        let small = subst (λ n. n < no_start) (sym renewal.size) valid.small in
        let (columns, e4, moved4) = move_columns_lem ys small b.columns (λ i c q.
          subst (λ n. c.foreign_keys.start + c.foreign_keys.len ≤ n) (sym renewal.size)
            (valid.column_fks i c q)) in
        let old_of : (i : ℕ) (t : TableMeta)
            → get_elem? new_tables i ≡ some t
            → (old : ℕ) × (get_elem? b.tables old ≡ some t) =
          λ i t q.
            let (old, at) =
              get_elem?-lt sorted i (ground (arith, lt-length new_tables i q, size2)) in
            (old, sym (picked i old at) ∙ q) in
        let (tables, e5, moved5) = move_tables_lem ys small new_tables (λ i t q.
          let (old, at) = old_of i t q in
          subst (λ n. t.fk_start + t.fk_len ≤ n) (sym renewal.size) (valid.table_fks old t at)) in
        let few : length new_tables < 2 ^ 16 = ground (arith, size2, n_sorted, valid.tables.few) in
        let schema : DatabaseSchema I = record {
          tables = tables;
          by_name = index_by_name new_tables;
          columns = columns;
          column_names = b.column_names;
          constraint_pool = b.constraint_pool;
          foreign_key_pool = present ys;
          hash = hash;
          interner = b.interner;
        } in
        (
          ys,
          schema,
          rw (assemble, e1, e2, e3, e4, e5) refl,
          record {
            size = moved5.0 ∙ size2 ∙ n_sorted;
            tables = λ new old t q at. moved5.1 new t (picked new old q ∙ at);
            columns = moved4;
            pool = refl;
            targets = targets_lem old_to_new ys placed renewal;
            foreign_keys = λ i u fk q at. (
              resolved_at u.pool_index rs,
              found i u q,
              resolved_key old_to_new ys placed renewal u.pool_index fk at,
            );
            by_name =
                IsByName-moved (present ys) ys new_tables tables (index_by_name new_tables)
                  (index_by_name-IsByName new_tables few) moved5;
            kept = (refl, refl, refl, refl);
          },
        )
