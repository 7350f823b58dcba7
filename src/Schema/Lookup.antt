-- ===== src/Schema/Lookup.antt =====
-- The methods of `DatabaseSchema`, `TableRef` and `ColumnRef` in
-- crates/database/src/core/schema.rs. A `TableRef` or a `ColumnRef` is the schema and an index. `none`
-- of an outer option is a panic: an index or a range out of bounds.
pub mod ByName
use Prim.Native.Nat.{compare}
use boomerang.Base.{
  ℕ, zero, suc, ◌+◌, ◌%◌, ◌^◌, Bool, true, false, ◌&&◌, not, Option, none, some, List, [], ◌∷◌,
  length, get_elem?, set, take, drop, map, ltb, leb, ◌==◌, if◌then◌else◌,
}
use boomerang.Base.Order.{Str}
use boomerang.Base.Panic.{◌>>=◌}
use boomerang.Base.Search.{Probe, binary_search}
use boomerang.Interner.Symbol.{Symbol, eq_symbol, into_raw}
use boomerang.Schema.Types.{
  ForeignKey, PoolRange, Column, TableMeta, DatabaseSchema, ColumnFlags, nullable_flag,
  primary_key_flag, unique_flag, contains,
}

-- `&pool[start..start + len]`
unfoldable pub slice {ℓ} : {A : Type ℓ} → List A → ℕ → ℕ → Option (List A)
slice pool start len =
    if leb (start + len) (length pool) then some (take len (drop start pool)) else none

-- `iter().position(test)`
unfoldable pub position {ℓ} : {A : Type ℓ} → (A → Bool) → List A → Option ℕ
position test [] = none
position test (x ∷ xs) =
    let later : Option ℕ = elim (position test xs) [ none ↦ none | some i ↦ some (suc i) ] in
    if test x then some 0 else later

unfoldable pub is_nullable : Column → Bool
is_nullable c = contains c.flags nullable_flag

unfoldable pub is_primary_key : Column → Bool
is_primary_key c = contains c.flags primary_key_flag

unfoldable pub is_unique : Column → Bool
is_unique c = contains c.flags unique_flag

-- The key of a position in a list of table indices by name, against a symbol.
unfoldable pub name_probe : List TableMeta → List ℕ → Symbol → Probe
name_probe tables by_name symbol slot = do
  i ← get_elem? by_name slot
  t ← get_elem? tables i
  some (compare (into_raw t.name) (into_raw symbol))

module _ {I : Type 0} (schema : DatabaseSchema I) where
  -- `ColumnRef::meta`
  abbrev pub column_meta : ℕ → Option Column
  column_meta index = get_elem? schema.columns index

  unfoldable pub column_constraints : ℕ → Option (List Symbol)
  unfolding slice
  column_constraints index = do
    c ← column_meta index
    slice schema.constraint_pool c.constraints.start c.constraints.len

  unfoldable pub column_foreign_keys : ℕ → Option (List ForeignKey)
  unfolding slice
  column_foreign_keys index = do
    c ← column_meta index
    slice schema.foreign_key_pool c.foreign_keys.start c.foreign_keys.len

  -- `TableRef::meta`
  abbrev pub table_meta : ℕ → Option TableMeta
  table_meta index = get_elem? schema.tables index

  unfoldable pub table_column_names : ℕ → Option (List Symbol)
  unfolding slice
  table_column_names index = do
    t ← table_meta index
    slice schema.column_names t.columns_start t.columns_len

  -- `TableRef::position`
  unfoldable pub column_position : ℕ → Symbol → Option (Option ℕ)
  unfolding table_column_names position
  column_position index name = do
    names ← table_column_names index
    some (position (λ c. eq_symbol c name) names)

  -- The index of the column in the schema.
  unfoldable pub column_by_symbol : ℕ → Symbol → Option (Option ℕ)
  unfolding column_position
  column_by_symbol index name = do
    found ← column_position index name
    t ← table_meta index
    some (elim found [ none ↦ none | some i ↦ some (t.columns_start + i) ])

  unfoldable pub primary_key : ℕ → Option (Option ℕ)
  primary_key index = do
    t ← table_meta index
    some (elim t.primary_key [ none ↦ none | some i ↦ some (t.columns_start + i) ])

  unfoldable pub table_foreign_keys : ℕ → Option (List ForeignKey)
  unfolding slice
  table_foreign_keys index = do
    t ← table_meta index
    slice schema.foreign_key_pool t.fk_start t.fk_len

  -- `table_at`, with the index as u16.
  unfoldable pub table_at : ℕ → Option ℕ
  table_at index = if ltb index (length schema.tables) then some (index % 2 ^ 16) else none

  unfoldable pub table_by_symbol : Symbol → Option (Option ℕ)
  unfolding name_probe table_at
  table_by_symbol symbol = do
    found ← binary_search (name_probe schema.tables schema.by_name symbol) (length schema.by_name)
    elim found [
      | none ↦ some none
      | some slot ↦ do i ← get_elem? schema.by_name slot; some (table_at i)
    ]

  -- `all(|fk| fk.table_index() == t.index)`
  unfoldable pub only_to : ℕ → List ForeignKey → Bool
  only_to index [] = true
  only_to index (fk ∷ fks) = let rest = only_to index fks in fk.table == index && rest

  -- `independent_tables`, over the next `n` indices.
  unfoldable pub independent_from : ℕ → ℕ → Option (List ℕ)
  unfolding only_to table_foreign_keys
  independent_from zero index = some []
  independent_from (suc n) index = do
    fks ← table_foreign_keys index
    rest ← independent_from n (suc index)
    some (if only_to index fks then index ∷ rest else rest)

  -- `tables()` counts in u16.
  unfoldable pub independent_tables : Option (List ℕ)
  unfolding independent_from
  independent_tables = independent_from (length schema.tables % 2 ^ 16) 0

  -- The inner loop of `leaf_tables`.
  unfoldable pub mark_referenced : ℕ → List ForeignKey → List Bool → Option (List Bool)
  mark_referenced index [] referenced = some referenced
  mark_referenced index (fk ∷ fks) referenced =
      let marked = mark_referenced index fks (set referenced fk.table true) in
      let skipped = mark_referenced index fks referenced in
      if fk.table == index
      then skipped
      else if ltb fk.table (length referenced)
      then marked
      else none

  unfoldable pub mark_tables : ℕ → List TableMeta → List Bool → Option (List Bool)
  unfolding mark_referenced slice
  mark_tables index [] referenced = some referenced
  mark_tables index (t ∷ ts) referenced = do
    fks ← slice schema.foreign_key_pool t.fk_start t.fk_len
    next ← mark_referenced index fks referenced
    mark_tables (suc index) ts next

  unfoldable pub unreferenced : ℕ → List Bool → List ℕ
  unfolding table_at
  unreferenced index [] = []
  unreferenced index (r ∷ rs) =
      let rest = unreferenced (suc index) rs in
      if r then rest else elim (table_at index) [ none ↦ rest | some i ↦ i ∷ rest ]

  unfoldable pub leaf_tables : Option (List ℕ)
  unfolding mark_tables unreferenced
  leaf_tables = do
    referenced ← mark_tables 0 schema.tables (map (λ t. false) schema.tables)
    some (unreferenced 0 referenced)

module _ {I : Type 0} (resolve : I → Symbol → Option Str) (schema : DatabaseSchema I) where
  unfoldable pub resolve_symbol : Symbol → Option Str
  resolve_symbol symbol = resolve schema.interner symbol

  -- `expect` panics.
  unfoldable pub table_name : ℕ → Option Str
  table_name index = do t ← table_meta schema index; resolve schema.interner t.name

  unfoldable pub column_name : ℕ → Option Str
  column_name index = do c ← column_meta schema index; resolve schema.interner c.name

module _ {I : Type 0} (get : I → Str → Option Symbol) (schema : DatabaseSchema I) where
  unfoldable pub get_symbol : Str → Option Symbol
  get_symbol name = get schema.interner name

  unfoldable pub table : Str → Option (Option ℕ)
  unfolding table_by_symbol
  table name = elim (get schema.interner name) [
    | none ↦ some none
    | some symbol ↦ table_by_symbol schema symbol
  ]

  unfoldable pub column : ℕ → Str → Option (Option ℕ)
  unfolding column_by_symbol
  column index name = elim (get schema.interner name) [
    | none ↦ some none
    | some symbol ↦ column_by_symbol schema index symbol
  ]
