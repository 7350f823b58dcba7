-- ===== src/Builder/Result.antt =====
-- What `build` of crates/database/src/core/schema_builder.rs makes of a builder.
use boomerang.Base.{
  All, ℕ, zero, suc, ◌+◌, ◌<◌, ◌≤◌, ◌≡◌, refl, ap, ◌⊎◌, Option, none, some, List, [], ◌∷◌, length,
  get_elem?, take, drop,
}
use mathlib.Core.Path.{subst}
use boomerang.Schema.Types.{ForeignKey, Column, TableMeta, DatabaseSchema}
use boomerang.Schema.Lookup.{slice}
use boomerang.Schema.Lookup.ByName.{IsByName}
use boomerang.Builder.State.{UnresolvedFk, DatabaseSchemaBuilder}
use boomerang.Builder.Build.{
  ResolvedFk, index_by_name, resolve_fk, no_start, move_columns, move_tables,
}
use boomerang.Builder.Numbered.{present, number, new_range-present}
use boomerang.Builder.Resolve.{IsTables}
use boomerang.Builder.ResolveAll.{IsUnresolved}

-- A builder behind `finish_table`: its ranges are in its pools, and the pools are not too long.
pub record IsBuilder {I : Type 0} (b : DatabaseSchemaBuilder I) : Type 0 where
  pub tables : IsTables b.tables b.column_names
  pub small : length b.foreign_key_pool < no_start
  pub unresolved : IsUnresolved (length b.tables) (length b.foreign_key_pool) 0 b.unresolved_fks
  pub table_fks :
      (i : ℕ) (t : TableMeta)
      → get_elem? b.tables i ≡ some t
      → t.fk_start + t.fk_len ≤ length b.foreign_key_pool
  pub column_fks :
      (i : ℕ) (c : Column)
      → get_elem? b.columns i ≡ some c
      → c.foreign_keys.start + c.foreign_keys.len ≤ length b.foreign_key_pool

-- A table, but for its foreign keys: those are what is there of its old ones.
pub record IsMovedTable (pool : List ForeignKey) (renewed : List (Option ForeignKey))
    (old new : TableMeta) : Type 0 where
  pub name : new.name ≡ old.name
  pub columns_start : new.columns_start ≡ old.columns_start
  pub columns_len : new.columns_len ≡ old.columns_len
  pub primary_key : new.primary_key ≡ old.primary_key
  pub foreign_keys :
      slice pool new.fk_start new.fk_len
      ≡ some (present (take old.fk_len (drop old.fk_start renewed)))

pub record IsMovedColumn (pool : List ForeignKey) (renewed : List (Option ForeignKey))
    (old new : Column) : Type 0 where
  pub name : new.name ≡ old.name
  pub data_type : new.data_type ≡ old.data_type
  pub default_value : new.default_value ≡ old.default_value
  pub flags : new.flags ≡ old.flags
  pub constraints : new.constraints ≡ old.constraints
  pub foreign_keys :
      slice pool new.foreign_keys.start new.foreign_keys.len
      ≡ some (present (take old.foreign_keys.len (drop old.foreign_keys.start renewed)))

-- Each item of a list is one of the other's, at the same place.
unfoldable pub IsEach : {A : Type 0} → (A → A → Type 0) → List A → List A → Type 0
IsEach {A} R xs ys =
    (length ys ≡ length xs)
    × ((i : ℕ) (x : A) → get_elem? xs i ≡ some x → (y : A) × (get_elem? ys i ≡ some y) × R x y)

IsEach-cons :
    {A : Type 0} (R : A → A → Type 0) (x y : A) (xs ys : List A)
    → R x y
    → IsEach R xs ys
    → IsEach R (x ∷ xs) (y ∷ ys)
unfolding IsEach
IsEach-cons {A} R x y xs ys r (size, each) = (ap suc size, all)
  where
    all :
        (i : ℕ) (a : A)
        → get_elem? (x ∷ xs) i ≡ some a
        → (b : A) × (get_elem? (y ∷ ys) i ≡ some b) × R a b
    all zero a e = let same : x ≡ a = cc in (y, refl, subst (λ c. R c y) same r)
    all (suc i) a e = each i a e

module _ (renewed : List (Option ForeignKey)) (small : length renewed < no_start) where
  pub move_tables_lem :
      (ts : List TableMeta)
      → ((i : ℕ) (t : TableMeta) → get_elem? ts i ≡ some t → t.fk_start + t.fk_len ≤ length renewed)
      → (ts' : List TableMeta) × (move_tables (number 0 renewed) ts ≡ some ts')
        × IsEach (IsMovedTable (present renewed) renewed) ts ts'
  unfolding move_tables IsEach
  move_tables_lem [] h = ([], refl, (refl, λ i t e. cc))
  move_tables_lem (t ∷ ts) h =
      let (start, e, kept) = new_range-present renewed t.fk_start t.fk_len small (h 0 t refl) in
      let (ts', e', moved) = move_tables_lem ts (λ i s q. h (suc i) s q) in
      let t' : TableMeta = record t {
        fk_start = start;
        fk_len = length (present (take t.fk_len (drop t.fk_start renewed)));
      } in
      (
        t' ∷ ts',
        rw (move_tables, e, e') refl,
        IsEach-cons (IsMovedTable (present renewed) renewed) t t' ts ts'
            (record {
              name = refl;
              columns_start = refl;
              columns_len = refl;
              primary_key = refl;
              foreign_keys = kept;
            })
            moved,
      )

  pub move_columns_lem :
      (cs : List Column)
      → ((i : ℕ) (c : Column)
          → get_elem? cs i ≡ some c
          → c.foreign_keys.start + c.foreign_keys.len ≤ length renewed)
      → (cs' : List Column) × (move_columns (number 0 renewed) cs ≡ some cs')
        × IsEach (IsMovedColumn (present renewed) renewed) cs cs'
  unfolding move_columns IsEach
  move_columns_lem [] h = ([], refl, (refl, λ i c e. cc))
  move_columns_lem (c ∷ cs) h =
      let f = c.foreign_keys in
      let (start, e, kept) = new_range-present renewed f.start f.len small (h 0 c refl) in
      let (cs', e', moved) = move_columns_lem cs (λ i d q. h (suc i) d q) in
      let c' : Column = record c {
        foreign_keys = record {
          start = start;
          len = length (present (take f.len (drop f.start renewed)));
        };
      } in
      (
        c' ∷ cs',
        rw (move_columns, e, e') refl,
        IsEach-cons (IsMovedColumn (present renewed) renewed) c c' cs cs'
            (record {
              name = refl;
              data_type = refl;
              default_value = refl;
              flags = refl;
              constraints = refl;
              foreign_keys = kept;
            })
            moved,
      )

-- The schema of a builder, by an order of its tables. `renewed` is the old pool with what is there of
-- it in the new one.
pub record IsSchemaOf {I : Type 0} (b : DatabaseSchemaBuilder I) (hash sorted : List ℕ)
    (renewed : List (Option ForeignKey)) (schema : DatabaseSchema I) : Type 0 where
  pub size : length schema.tables ≡ length b.tables
  pub tables :
      (new old : ℕ) (t : TableMeta)
      → get_elem? sorted new ≡ some old
      → get_elem? b.tables old ≡ some t
      → (t' : TableMeta) × (get_elem? schema.tables new ≡ some t')
        × IsMovedTable schema.foreign_key_pool renewed t t'
  pub columns : IsEach (IsMovedColumn schema.foreign_key_pool renewed) b.columns schema.columns
  pub pool : schema.foreign_key_pool ≡ present renewed
  pub targets : All (λ fk. fk.table < length b.tables) (present renewed)
  pub foreign_keys :
      (i : ℕ) (u : UnresolvedFk) (fk : ForeignKey)
      → get_elem? b.unresolved_fks i ≡ some u
      → get_elem? b.foreign_key_pool u.pool_index ≡ some fk
      → (found : Option ResolvedFk) × (resolve_fk b.tables b.column_names (index_by_name b.tables) u
          ≡ some found)
        × (((found ≡ none) × (get_elem? renewed u.pool_index ≡ some none))
            ⊎ ((r : ResolvedFk) × (new : ℕ) × (found ≡ some r)
                × (get_elem? sorted new ≡ some r.ref_table_old_idx)
                × (get_elem? renewed u.pool_index
                    ≡ some (some (record fk { table = new; column = r.col_idx_in_table })))))
  pub by_name : IsByName schema.tables schema.by_name
  pub kept :
      (schema.column_names ≡ b.column_names)
      × (schema.constraint_pool ≡ b.constraint_pool)
      × (schema.hash ≡ hash)
      × (schema.interner ≡ b.interner)
