-- ===== src/Builder/Build.antt =====
-- `DatabaseSchemaBuilder::build` of crates/database/src/core/schema_builder.rs. `none` of an outer
-- option is a panic.
use boomerang.Base.{
  ℕ, zero, suc, ◌%◌, ◌^◌, Option, none, some, List, [], ◌∷◌, ◌++◌, length, get_elem?, set, ltb,
  ◌==◌, if◌then◌else◌,
}
use boomerang.Base.Int.{ℤ, pos}
use boomerang.Base.Outcome.{Run, ok, err, panic, stuck}
use boomerang.Base.Panic.{◌>>=◌}
use boomerang.Base.Search.{binary_search}
use boomerang.Interner.Symbol.{Symbol, eq_symbol}
use boomerang.Schema.Types.{ForeignKey, Column, TableMeta, DatabaseSchema}
use boomerang.Schema.Lookup.{slice, position, name_probe}
use boomerang.Builder.State.{UnresolvedFk, DatabaseSchemaBuilder}
use boomerang.Builder.Rows.{finish_table}
use boomerang.Builder.Sort.{sort_by_key, range}
use boomerang.Builder.Kahn.{Graph, add_edge, sorted_indices}

-- The key `self.tables[i].name`. No index is out of range.
unfoldable pub name_key : List TableMeta → ℕ → ℕ
name_key tables i = elim (get_elem? tables i) [ none ↦ 0 | some t ↦ t.name.raw ]

-- `(0..num_tables as u16)`, sorted by name.
unfoldable pub index_by_name : List TableMeta → List ℕ
unfolding name_key sort_by_key range
index_by_name tables = sort_by_key (name_key tables) (range 0 (length tables % 2 ^ 16))

-- An item of `resolved_fks_info`.
pub record ResolvedFk : Type 0 where
  pub pool_index : ℕ
  pub source_table_idx : ℕ
  pub ref_table_old_idx : ℕ
  pub col_idx_in_table : ℕ

module _ (tables : List TableMeta) (column_names : List Symbol) (old_by_name : List ℕ) where
  -- The table and the column that a foreign key names, if both are there.
  unfoldable pub resolve_fk : UnresolvedFk → Option (Option ResolvedFk)
  unfolding name_probe slice position
  resolve_fk u = do
    table_slot ← binary_search (name_probe tables old_by_name u.ref_table_sym) (length old_by_name)
    elim table_slot [
      | none ↦ some none
      | some slot ↦ do
        ref ← get_elem? old_by_name slot
        t ← get_elem? tables ref
        names ← slice column_names t.columns_start t.columns_len
        some (elim (position (λ c. eq_symbol c u.ref_column_sym) names) [
          | none ↦ none
          | some col ↦ some (record {
            pool_index = u.pool_index;
            source_table_idx = u.source_table_idx;
            ref_table_old_idx = ref;
            col_idx_in_table = col % 2 ^ 16;
          })
        ])
    ]

  -- The loop over `unresolved_fks`: `resolved_fks_info`.
  unfoldable pub resolve_fks : List UnresolvedFk → Option (List ResolvedFk)
  unfolding resolve_fk
  resolve_fks [] = some []
  resolve_fks (u ∷ us) = do
    found ← resolve_fk u
    rest ← resolve_fks us
    some (elim found [ none ↦ rest | some r ↦ r ∷ rest ])

-- That loop's `graph` and `in_degree`: a table's references to itself are left out.
unfoldable pub add_edges : List ResolvedFk → Graph × List ℤ → Option (Graph × List ℤ)
unfolding add_edge
add_edges [] g = some g
add_edges (r ∷ rs) g =
    if r.ref_table_old_idx == r.source_table_idx
    then add_edges rs g
    else do g' ← add_edge r.ref_table_old_idx r.source_table_idx g; add_edges rs g'

-- `old_to_new_table`, from the new index `i` on.
unfoldable pub new_indices : ℕ → List ℕ → List ℕ → Option (List ℕ)
new_indices i [] old_to_new = some old_to_new
new_indices i (old ∷ olds) old_to_new =
    let next = new_indices (suc i) olds (set old_to_new old (i % 2 ^ 16)) in
    if ltb old (length old_to_new) then next else none

-- `self.tables[old_idx].clone()` for each index.
unfoldable pub pick {ℓ} : {A : Type ℓ} → List A → List ℕ → Option (List A)
pick xs [] = some []
pick xs (i ∷ is) = do x ← get_elem? xs i; rest ← pick xs is; some (x ∷ rest)

-- `valid_fks` and `old_to_new_fk`.
pub record Compacted : Type 0 where
  pub valid_fks : List ForeignKey
  pub old_to_new_fk : List (Option ℕ)

-- One round of the loop over `resolved_fks_info`.
unfoldable pub compact_one : List ForeignKey → List ℕ → ResolvedFk → Compacted → Option Compacted
compact_one pool old_to_new_table r c = do
  old_fk ← get_elem? pool r.pool_index
  table ← get_elem? old_to_new_table r.ref_table_old_idx
  some (record {
    valid_fks = c.valid_fks ++ record old_fk { table = table; column = r.col_idx_in_table } ∷ [];
    old_to_new_fk = set c.old_to_new_fk r.pool_index (some (length c.valid_fks % 2 ^ 32));
  })

unfoldable pub compact : List ForeignKey → List ℕ → List ResolvedFk → Compacted → Option Compacted
unfolding compact_one
compact pool old_to_new_table [] c = some c
compact pool old_to_new_table (r ∷ rs) c = do
  next ← compact_one pool old_to_new_table r c
  compact pool old_to_new_table rs next

-- `u32::MAX`
abbrev pub no_start : ℕ
no_start = 4294967295

-- One round of the loop over an old range, on `new_start` and `new_len`. The length is at most the
-- old one, which is a u16.
unfoldable pub count_fk : Option ℕ → ℕ × ℕ → ℕ × ℕ
count_fk none (new_start, new_len) = (new_start, new_len)
count_fk (some new_idx) (new_start, new_len) =
    (if new_start == no_start then new_idx else new_start, suc new_len)

unfoldable pub count_fks : List (Option ℕ) → ℕ × ℕ → ℕ × ℕ
unfolding count_fk
count_fks [] counted = counted
count_fks (o ∷ os) counted = count_fks os (count_fk o counted)

-- The new start and the new length of an old range.
unfoldable pub new_range : List (Option ℕ) → ℕ → ℕ → Option (ℕ × ℕ)
unfolding slice count_fks
new_range old_to_new_fk start len = do
  olds ← slice old_to_new_fk start len
  let (new_start, new_len) = count_fks olds (no_start, 0)
  some (if new_len == 0 then 0 else new_start, new_len)

unfoldable pub move_columns : List (Option ℕ) → List Column → Option (List Column)
unfolding new_range
move_columns old_to_new_fk [] = some []
move_columns old_to_new_fk (c ∷ cs) = do
  (start, len) ← new_range old_to_new_fk c.foreign_keys.start c.foreign_keys.len
  rest ← move_columns old_to_new_fk cs
  some (record c { foreign_keys = record { start = start; len = len } } ∷ rest)

unfoldable pub move_tables : List (Option ℕ) → List TableMeta → Option (List TableMeta)
unfolding new_range
move_tables old_to_new_fk [] = some []
move_tables old_to_new_fk (t ∷ ts) = do
  (start, len) ← new_range old_to_new_fk t.fk_start t.fk_len
  rest ← move_tables old_to_new_fk ts
  some (record t { fk_start = start; fk_len = len } ∷ rest)

-- `vec![x; n]`
abbrev pub filled {ℓ} : {A : Type ℓ} → A → ℕ → List A
filled x zero = []
filled x (suc n) = x ∷ filled x n

-- `build` behind the topological order.
unfoldable pub assemble :
    {I : Type 0}
    → DatabaseSchemaBuilder I
    → List ResolvedFk
    → List ℕ
    → List ℕ
    → Option (DatabaseSchema I)
unfolding new_indices pick index_by_name compact move_columns move_tables
assemble b resolved sorted hash = do
  old_to_new_table ← new_indices 0 sorted (filled 0 (length b.tables))
  new_tables ← pick b.tables sorted
  c ←
      compact b.foreign_key_pool old_to_new_table resolved
        (record { valid_fks = []; old_to_new_fk = filled none (length b.foreign_key_pool) })
  columns ← move_columns c.old_to_new_fk b.columns
  tables ← move_tables c.old_to_new_fk new_tables
  some (record {
    tables = tables;
    by_name = index_by_name new_tables;
    columns = columns;
    column_names = b.column_names;
    constraint_pool = b.constraint_pool;
    foreign_key_pool = c.valid_fks;
    hash = hash;
    interner = b.interner;
  })

-- `build` behind `finish_table`.
unfoldable pub build_tables :
    {I : Type 0} → DatabaseSchemaBuilder I → List ℕ → Run ⊥ (DatabaseSchema I)
unfolding index_by_name resolve_fks add_edges sorted_indices assemble
build_tables b hash =
    elim (resolve_fks b.tables b.column_names (index_by_name b.tables) b.unresolved_fks) [
      | none ↦ panic
      | some resolved ↦
          elim (add_edges resolved
            (filled [] (length b.tables), filled (pos 0) (length b.tables))) [
              | none ↦ panic
              | some (graph, in_degree) ↦ elim (sorted_indices graph in_degree) [
                | ok sorted ↦ elim (assemble b resolved sorted hash) [
                  | none ↦ panic
                  | some s ↦ ok s
                ]
                | err e ↦ err e
                | panic ↦ panic
                | stuck ↦ stuck
              ]
            ]
    ]

unfoldable pub build : {I : Type 0} → DatabaseSchemaBuilder I → List ℕ → Run ⊥ (DatabaseSchema I)
unfolding finish_table build_tables
build b hash = build_tables (finish_table b) hash
