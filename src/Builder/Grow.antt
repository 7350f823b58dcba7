-- ===== src/Builder/Grow.antt =====
-- The builder between two rows, in crates/database/src/core/schema_builder.rs.
use mathlib.Core.Path.{subst}
use boomerang.Base.{
  ℕ, suc, ◌+◌, ◌-◌, ◌%◌, ◌^◌, ◌<◌, ◌≤◌, ◌≡◌, refl, sym, ap, inl, inr, Option, none, some, List, [],
  ◌∷◌, ◌++◌, length, length-append, get_elem?, get_elem?-append_one, arith, Bool-cases,
  Option-cases,
}
use boomerang.Interner.Symbol.{Symbol}
use boomerang.Schema.Types.{Column, TableMeta}
use boomerang.Builder.State.{UnresolvedFk, DatabaseSchemaBuilder, with_capacity}
use boomerang.Builder.Rows.{finish_table, start_table, is_current}
use boomerang.Builder.Build.{no_start}
use boomerang.Builder.ResolveAll.{IsUnresolved}
use boomerang.Builder.Result.{IsBuilder}

-- The table of the rows so far, if there is one.
unfoldable pub open_tables : Option Symbol → ℕ
open_tables none = 0
open_tables (some name) = 1

-- The ranges of a table are in the lists of columns and of foreign keys.
unfoldable pub IsTableIn : ℕ → ℕ → TableMeta → Type 0
IsTableIn num_columns num_fks t =
    (t.columns_start + t.columns_len ≤ num_columns)
    × (t.columns_len < 2 ^ 16)
    × (t.fk_start + t.fk_len ≤ num_fks)

-- What holds also while a row is added.
pub record IsOpen {I : Type 0} (b : DatabaseSchemaBuilder I) : Type 0 where
  pub names : length b.column_names ≡ length b.columns
  pub cols_start : b.current_table_cols_start ≤ length b.columns
  pub fk_start : b.current_table_fk_start ≤ length b.foreign_key_pool
  pub tables :
      (i : ℕ) (t : TableMeta)
      → get_elem? b.tables i ≡ some t
      → IsTableIn (length b.columns) (length b.foreign_key_pool) t
  pub column_fks :
      (i : ℕ) (c : Column)
      → get_elem? b.columns i ≡ some c
      → c.foreign_keys.start + c.foreign_keys.len ≤ length b.foreign_key_pool
  pub unresolved :
      IsUnresolved
        (length b.tables + open_tables b.current_table)
        (length b.foreign_key_pool)
        0
        b.unresolved_fks

IsUnresolved_le :
    (m m' n n' k : ℕ) (us : List UnresolvedFk)
    → m ≤ m'
    → n ≤ n'
    → IsUnresolved m n k us
    → IsUnresolved m' n' k us
unfolding IsUnresolved
IsUnresolved_le m m' n n' k [] p q h = h
IsUnresolved_le m m' n n' k (u ∷ us) p q (a, b, c, h) =
    (a, omega arith, omega arith, IsUnresolved_le m m' n n' (suc u.pool_index) us p q h)

pub IsUnresolved_push :
    (m n k : ℕ) (us : List UnresolvedFk) (u : UnresolvedFk)
    → u.pool_index ≡ n
    → u.source_table_idx < m
    → k ≤ n
    → IsUnresolved m n k us
    → IsUnresolved m (suc n) k (us ++ u ∷ [])
unfolding IsUnresolved
IsUnresolved_push m n k [] u p q low h = (omega arith, omega arith, q, tt)
IsUnresolved_push m n k (v ∷ vs) u p q low (a, b, c, h) =
    (a, omega arith, c, IsUnresolved_push m n (suc v.pool_index) vs u p q (omega arith) h)

-- Both casts of a difference: the range from a remembered length on ends in the list.
pub range_in : (start now : ℕ) → start ≤ now → start + (now % 2 ^ 32 - start) % 2 ^ 16 ≤ now
range_in start now h = ground arith

module _ {I : Type 0} where
  pub with_capacity-IsOpen : (interner : I) → IsOpen (with_capacity interner)
  unfolding with_capacity IsUnresolved
  with_capacity-IsOpen interner = record {
    names = refl;
    cols_start = omega arith;
    fk_start = omega arith;
    tables = λ i t e. cc;
    column_fks = λ i c e. cc;
    unresolved = tt;
  }

  -- The tables behind `finish_table`.
  pub finish_table_lem :
      (b : DatabaseSchemaBuilder I)
      → IsOpen b
      → (ts : List TableMeta) × (finish_table b ≡ record b { tables = ts })
        × (length ts ≡ length b.tables + open_tables b.current_table)
        × ((i : ℕ) (t : TableMeta)
            → get_elem? ts i ≡ some t
            → IsTableIn (length b.columns) (length b.foreign_key_pool) t)
  unfolding finish_table IsTableIn open_tables
  finish_table_lem b valid = elim (Option-cases b.current_table) [
    | inl e ↦
        let same : finish_table b ≡ b = simp (finish_table, e) in
        (b.tables, same, ground (arith, e), valid.tables)
    | inr (name, e) ↦
        let t : TableMeta = record {
          name = name;
          columns_start = b.current_table_cols_start;
          columns_len = (length b.columns % 2 ^ 32 - b.current_table_cols_start) % 2 ^ 16;
          primary_key = b.current_table_pk;
          fk_start = b.current_table_fk_start;
          fk_len = (length b.foreign_key_pool % 2 ^ 32 - b.current_table_fk_start) % 2 ^ 16;
        } in
        let last : IsTableIn (length b.columns) (length b.foreign_key_pool) t = (
          range_in b.current_table_cols_start (length b.columns) valid.cols_start,
          omega arith,
          range_in b.current_table_fk_start (length b.foreign_key_pool) valid.fk_start,
        ) in
        (
          b.tables ++ t ∷ [],
          simp (finish_table, e),
          ground (arith, e, length-append b.tables (t ∷ [])),
          λ i s q. elim (get_elem?-append_one b.tables t i s q) [
            | inl old ↦ valid.tables i s old
            | inr same ↦
                subst (λ r. IsTableIn (length b.columns) (length b.foreign_key_pool) r) same last
          ],
        )
  ]

  pub finish_table-IsBuilder :
      (b : DatabaseSchemaBuilder I)
      → IsOpen b
      → length (finish_table b).tables < 2 ^ 16
      → length b.foreign_key_pool < no_start
      → IsBuilder (finish_table b)
  unfolding IsTableIn
  finish_table-IsBuilder b valid few small =
      let (ts, e, size, inside) = finish_table_lem b valid in
      let few' : length ts < 2 ^ 16 = subst (λ c. length c.tables < 2 ^ 16) e few in
      subst IsBuilder (sym e) (record {
        tables = record {
          few = few';
          inside = λ i t q.
              let (cols, len, fks) = inside i t q in (ground (arith, cols, valid.names), len);
        };
        small = small;
        unresolved =
            subst (λ m. IsUnresolved m (length b.foreign_key_pool) 0 b.unresolved_fks) (sym size)
              valid.unresolved;
        table_fks = λ i t q. (inside i t q).2;
        column_fks = valid.column_fks;
      })

  -- A row is in an open table.
  pub start_table_lem :
      (name : Symbol) (b : DatabaseSchemaBuilder I)
      → IsOpen b
      → IsOpen (start_table name b)
        × (open_tables (start_table name b).current_table ≡ 1)
        × ((start_table name b).columns ≡ b.columns)
        × ((start_table name b).constraint_pool ≡ b.constraint_pool)
        × ((start_table name b).foreign_key_pool ≡ b.foreign_key_pool)
  unfolding start_table is_current open_tables
  start_table_lem name b valid = elim (Bool-cases (is_current name b.current_table)) [
    | inl here ↦
        let same : start_table name b ≡ b = rw (start_table, here) refl in
        let is_open : open_tables b.current_table ≡ 1 = elim (Option-cases b.current_table) [
          | inl e ↦ absurd (ground (arith, here, ap (is_current name) e))
          | inr (current, e) ↦ ap open_tables e
        ] in
        subst IsNext (sym same) (valid, is_open, refl, refl, refl)
    | inr other ↦
        let (ts, e, size, inside) = finish_table_lem b valid in
        let b' : DatabaseSchemaBuilder I = record b {
          tables = ts;
          current_table = some name;
          current_table_cols_start = length b.columns % 2 ^ 32;
          current_table_fk_start = length b.foreign_key_pool % 2 ^ 32;
          current_table_pk = none;
        } in
        let same : start_table name b ≡ b' = rw (start_table, other, e) refl in
        subst IsNext (sym same) (
          record {
            names = valid.names;
            cols_start = ground arith;
            fk_start = ground arith;
            tables = inside;
            column_fks = valid.column_fks;
            unresolved =
                IsUnresolved_le (length b.tables + open_tables b.current_table) (length ts + 1)
                  (length b.foreign_key_pool) (length b.foreign_key_pool) 0 b.unresolved_fks
                  (ground (arith, size)) (omega arith) valid.unresolved;
          },
          refl,
          refl,
          refl,
          refl,
        )
  ]
    where
      IsNext : DatabaseSchemaBuilder I → Type 0
      IsNext c =
          IsOpen c
          × (open_tables c.current_table ≡ 1)
          × (c.columns ≡ b.columns)
          × (c.constraint_pool ≡ b.constraint_pool)
          × (c.foreign_key_pool ≡ b.foreign_key_pool)
