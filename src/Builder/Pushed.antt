-- ===== src/Builder/Pushed.antt =====
-- The foreign keys of a row in `add_row` of crates/database/src/core/schema_builder.rs.
use mathlib.Core.Path.{subst}
use boomerang.Base.{
  suc, ◌+◌, ◌≤◌, ◌≡◌, refl, sym, ◌∙◌, Option, some, List, [], ◌∷◌, ◌++◌, length, length-append,
  arith,
}
use boomerang.Base.Order.{Str}
use boomerang.Base.Panic.{>>=-eq-some}
use boomerang.Interner.Symbol.{Symbol}
use boomerang.Schema.Types.{ForeignKey}
use boomerang.Builder.State.{RawForeignKey, UnresolvedFk, DatabaseSchemaBuilder}
use boomerang.Builder.Rows.{add_foreign_key, add_foreign_keys}
use boomerang.Builder.ResolveAll.{IsUnresolved}
use boomerang.Builder.Grow.{open_tables, IsTableIn, IsOpen, IsUnresolved_push}

pub some_injective : {A : Type 0} {x y : A} → some x ≡ some y → x ≡ y
some_injective h = cc

module _ {I : Type 0} (intern : I → Str → Option (Symbol × I)) where
  -- What the foreign keys of a column change: the pool grows.
  pub record IsGrown (b b' : DatabaseSchemaBuilder I) : Type 0 where
    pub valid : IsOpen b'
    pub columns : b'.columns ≡ b.columns
    pub names : b'.column_names ≡ b.column_names
    pub constraints : b'.constraint_pool ≡ b.constraint_pool
    pub one : open_tables b'.current_table ≡ 1
    pub grows : length b.foreign_key_pool ≤ length b'.foreign_key_pool

  pushed-IsGrown :
      (b : DatabaseSchemaBuilder I) (interner : I) (fk : ForeignKey) (table column : Symbol)
      → IsOpen b
      → open_tables b.current_table ≡ 1
      → IsGrown b (record b {
        interner = interner;
        foreign_key_pool = b.foreign_key_pool ++ fk ∷ [];
        unresolved_fks =
            b.unresolved_fks
            ++ record {
              pool_index = length b.foreign_key_pool;
              source_table_idx = length b.tables;
              ref_table_sym = table;
              ref_column_sym = column;
            }
              ∷ [];
      })
  unfolding IsTableIn
  pushed-IsGrown b interner fk table column valid one =
      let n = length b.foreign_key_pool in
      let m = length b.tables + open_tables b.current_table in
      let u : UnresolvedFk = record {
        pool_index = n;
        source_table_idx = length b.tables;
        ref_table_sym = table;
        ref_column_sym = column;
      } in
      let size : length (b.foreign_key_pool ++ fk ∷ []) ≡ suc n =
        omega (arith, length-append b.foreign_key_pool (fk ∷ [])) in
      record {
        valid = record {
          names = valid.names;
          cols_start = valid.cols_start;
          fk_start = omega (arith, valid.fk_start, size);
          tables = λ i t e.
              let (cols, len, fks) = valid.tables i t e in (cols, len, omega (arith, fks, size));
          column_fks = λ i c e. omega (arith, valid.column_fks i c e, size);
          unresolved =
              subst (λ k. IsUnresolved m k 0 (b.unresolved_fks ++ u ∷ [])) (sym size)
                (IsUnresolved_push m n 0 b.unresolved_fks u refl (omega (arith, one)) (omega arith)
                  valid.unresolved);
        };
        columns = refl;
        names = refl;
        constraints = refl;
        one = one;
        grows = omega (arith, size);
      }

  add_foreign_key-IsGrown :
      (fk : RawForeignKey) (b b' : DatabaseSchemaBuilder I)
      → IsOpen b
      → open_tables b.current_table ≡ 1
      → add_foreign_key intern fk b ≡ some b'
      → IsGrown b b'
  unfolding add_foreign_key
  add_foreign_key-IsGrown fk b b' valid one h =
      let (p1, e1, h1) = >>=-eq-some (intern b.interner fk.constraint_name) _ h in
      let (p2, e2, h2) = >>=-eq-some (intern p1.1 fk.namespace) _ h1 in
      let (p3, e3, h3) = >>=-eq-some (intern p2.1 fk.referenced_table) _ h2 in
      let (p4, e4, h4) = >>=-eq-some (intern p3.1 fk.referenced_column) _ h3 in
      subst (IsGrown b) (some_injective h4) (pushed-IsGrown b p4.1 _ p3.0 p4.0 valid one)

  pub add_foreign_keys-IsGrown :
      (fks : List RawForeignKey) (b b' : DatabaseSchemaBuilder I)
      → IsOpen b
      → open_tables b.current_table ≡ 1
      → add_foreign_keys intern fks b ≡ some b'
      → IsGrown b b'
  unfolding add_foreign_keys
  add_foreign_keys-IsGrown [] b b' valid one h = subst (IsGrown b) (some_injective h) (record {
    valid = valid;
    columns = refl;
    names = refl;
    constraints = refl;
    one = one;
    grows = omega arith;
  })
  add_foreign_keys-IsGrown (fk ∷ fks) b b' valid one h =
      let (mid, e, h1) = >>=-eq-some (add_foreign_key intern fk b) _ h in
      let first = add_foreign_key-IsGrown fk b mid valid one e in
      let rest = add_foreign_keys-IsGrown fks mid b' first.valid first.one h1 in
      record {
        valid = rest.valid;
        columns = rest.columns ∙ first.columns;
        names = rest.names ∙ first.names;
        constraints = rest.constraints ∙ first.constraints;
        one = rest.one;
        grows = omega (arith, first.grows, rest.grows);
      }
