-- ===== src/Builder/Tests.antt =====
-- The theorems about crates/database/src/core/schema_builder.rs at concrete inputs: an interner that
-- lists its texts, and a catalogue of three tables whose last one is referenced by the others.
use boomerang.Base.{
  ltb, ◌&&◌, not, ℕ, zero, suc, ◌+◌, ◌<◌, ◌^◌, ◌==◌, ◌⊎◌, inl, inr, ◌≡◌, ◌≢◌, refl, ap, false,
  Option, none, some, List, [], ◌∷◌, ◌++◌, length, get_elem?, if◌then◌else◌, arith, map,
}
use mathlib.Core.Path.{subst}
use boomerang.Base.Order.{Str, eq_str}
use boomerang.Base.Outcome.{ok}
use boomerang.Base.Text.{codes}
use boomerang.Base.Search.{binary_search}
use boomerang.Interner.Symbol.{Symbol, eq_symbol, into_raw}
use boomerang.Schema.Types.{cascade, no_action, ForeignKey, TableMeta, DatabaseSchema}
use boomerang.Schema.Lookup.ByName.{IsByName, table_by_symbol-Found}
use boomerang.Schema.Lookup.{leaf_tables, position, table_by_symbol}
use boomerang.Builder.State.{RawForeignKey, UnresolvedFk, DatabaseSchemaBuilder, Row, with_capacity}
use boomerang.Builder.Rows.{finish_table, add_rows}
use boomerang.Builder.Build.{ResolvedFk, build, build_tables, index_by_name, resolve_fk, no_start}
use boomerang.Builder.Kahn.Count.{count}
use boomerang.Builder.Kahn.Order.{IsOnce}
use boomerang.Builder.ByName.{index_by_name-IsByName}
use boomerang.Builder.Resolve.{IsTarget, IsMissing, resolve_fk_lem}
use boomerang.Builder.Result.{IsBuilder, IsSchemaOf}
use boomerang.Builder.Total.{IsReference}
use boomerang.Builder.Sorted.{IsAcyclic, IsSorted, build_tables-IsSorted}
use boomerang.Builder.Grow.{finish_table-IsBuilder}
use boomerang.Builder.Cover.{IsBuilding, with_capacity-IsBuilding}
use boomerang.Builder.Grown.{add_rows-IsBuilding}
use boomerang.Builder.Kahn.Drain.{bit}
use boomerang.Builder.Leaves.{is_referenced}
use boomerang.Builder.Promise.{build-leaf_tables, build-IsSchemaOf, build-table_by_symbol}

-- Interns a text at its place in the list, or behind it.
abbrev intern : List Str → Str → Option (Symbol × List Str)
intern texts s = elim (position (eq_str s) texts) [
  | some i ↦ some (record { raw = suc i }, texts)
  | none ↦ some (record { raw = suc (length texts) }, texts ++ s ∷ [])
]

abbrev to_items : RawForeignKey
to_items = record {
  constraint_name = codes "fk_items";
  namespace = codes "public";
  referenced_table = codes "items";
  referenced_column = codes "id";
  on_update = cascade;
  on_delete = no_action;
}

abbrev to_nothing : RawForeignKey
to_nothing = record {
  constraint_name = codes "fk_gone";
  namespace = codes "other";
  referenced_table = codes "gone";
  referenced_column = codes "id";
  on_update = no_action;
  on_delete = no_action;
}

abbrev row : Str → Str → List RawForeignKey → Row
row table column fks = record {
  table_name = table;
  column_name = column;
  data_type = codes "uuid";
  nullable = false;
  is_primary = eq_str column (codes "id");
  is_unique = false;
  default_expr = none;
  foreign_keys = fks;
  check_defs = [];
  domain_checks = [];
}

abbrev rows : List Row
rows =
    row (codes "lines") (codes "id") []
    ∷ row (codes "lines") (codes "item") (to_nothing ∷ to_items ∷ [])
    ∷ row (codes "items") (codes "id") []
    ∷ []

abbrev added : DatabaseSchemaBuilder (List Str)
added = elim (add_rows intern rows (with_capacity [])) [ none ↦ with_capacity [] | some b ↦ b ]

added_lem : add_rows intern rows (with_capacity []) ≡ some added
unfolding add_rows with_capacity eq_str eq_symbol position
added_lem = refl

few : length (finish_table added).tables < 2 ^ 16
unfolding add_rows with_capacity eq_str eq_symbol position finish_table
few = omega arith

small : length added.foreign_key_pool < no_start
unfolding add_rows with_capacity eq_str eq_symbol position
small = omega arith

abbrev lines_and_items : DatabaseSchemaBuilder (List Str)
lines_and_items = finish_table added

added-IsBuilding : IsBuilding added
added-IsBuilding =
    (add_rows-IsBuilding intern rows (with_capacity []) added (with_capacity-IsBuilding [])
      added_lem).0

valid : IsBuilder lines_and_items
valid = finish_table-IsBuilder added added-IsBuilding.within few small

built_tables :
    (elim (build added []) [ ok s ↦ map (λ t. t.name.raw) s.tables | _ ↦ [] ]) ≡ 9 ∷ 1 ∷ []
unfolding add_rows with_capacity build eq_str eq_symbol position binary_search into_raw
built_tables = refl

build-IsSchemaOf_example :
    (sorted : List ℕ) × (renewed : List (Option ForeignKey)) × (schema : DatabaseSchema (List Str))
    × (build added [] ≡ ok schema)
    × IsOnce (length (finish_table added).tables) sorted
    × IsSchemaOf (finish_table added) [] sorted renewed schema
    × (length schema.columns ≡ length rows)
build-IsSchemaOf_example = build-IsSchemaOf intern [] rows added [] added_lem few small

build-table_by_symbol_example :
    (schema : DatabaseSchema (List Str)) × (build added [] ≡ ok schema)
    × ((old : ℕ) (t : TableMeta)
        → get_elem? (finish_table added).tables old ≡ some t
        → (new : ℕ) × (t' : TableMeta) × (table_by_symbol schema t.name ≡ some (some new))
          × (get_elem? schema.tables new ≡ some t')
          × (t'.name ≡ t.name))
build-table_by_symbol_example = build-table_by_symbol intern [] rows added [] added_lem few small

add_rows-IsBuilding_example :
    IsBuilding added × (length added.columns ≡ length (with_capacity {I = List Str} []).columns + 3)
add_rows-IsBuilding_example =
    add_rows-IsBuilding intern rows (with_capacity []) added (with_capacity-IsBuilding []) added_lem

abbrev key_to_items : ResolvedFk
key_to_items = record {
  pool_index = 1;
  source_table_idx = 0;
  ref_table_old_idx = 1;
  col_idx_in_table = 0;
}

abbrev unresolved : ℕ → ℕ → ℕ → UnresolvedFk
unresolved i table column = record {
  pool_index = i;
  source_table_idx = 0;
  ref_table_sym = record { raw = table };
  ref_column_sym = record { raw = column };
}

abbrev resolves : UnresolvedFk → Option (Option ResolvedFk)
resolves =
    resolve_fk lines_and_items.tables lines_and_items.column_names
      (index_by_name lines_and_items.tables)

resolved_to :
    (i : ℕ) (u : UnresolvedFk)
    → get_elem? lines_and_items.unresolved_fks i ≡ some u
    → (resolves u ≡ some none) ⊎ (resolves u ≡ some (some key_to_items))
unfolding add_rows with_capacity eq_str eq_symbol position finish_table resolve_fk index_by_name
    binary_search into_raw
resolved_to zero u e =
    let same : unresolved 0 6 2 ≡ u = cc in inl (subst (λ v. resolves v ≡ some none) same refl)
resolved_to (suc zero) u e =
    let same : unresolved 1 9 2 ≡ u = cc in
    inr (subst (λ v. resolves v ≡ some (some key_to_items)) same refl)
resolved_to (suc (suc i)) u e = cc

abbrev rank : ℕ → ℕ
rank i = if i == 0 then 1 else 0

acyclic : IsAcyclic lines_and_items rank
unfolding IsAcyclic IsReference
acyclic r (i, u, at, f, ne) = elim (resolved_to i u at) [
  | inl gone ↦ absurd (ground (arith, gone, f))
  | inr there ↦
      let same : key_to_items ≡ r = cc in
      ground (arith, ap (λ k. k.ref_table_old_idx) same, ap (λ k. k.source_table_idx) same)
]

build_tables-IsSorted_example :
    (sorted : List ℕ) × (renewed : List (Option ForeignKey)) × (schema : DatabaseSchema (List Str))
    × (build_tables lines_and_items [] ≡ ok schema)
    × IsOnce (length lines_and_items.tables) sorted
    × IsSorted lines_and_items sorted schema
    × IsSchemaOf lines_and_items [] sorted renewed schema
build_tables-IsSorted_example = build_tables-IsSorted lines_and_items valid [] rank acyclic

resolve_fk_lem_example :
    ((r : ResolvedFk) × (resolve_fk lines_and_items.tables lines_and_items.column_names
          (index_by_name lines_and_items.tables)
          (unresolved 1 9 2)
        ≡ some (some r))
      × IsTarget lines_and_items.tables lines_and_items.column_names valid.tables
          (unresolved 1 9 2)
          r)
    ⊎ ((resolve_fk lines_and_items.tables lines_and_items.column_names
            (index_by_name lines_and_items.tables)
            (unresolved 1 9 2)
          ≡ some none)
        × IsMissing lines_and_items.tables lines_and_items.column_names valid.tables
            (unresolved 1 9 2))
resolve_fk_lem_example =
    resolve_fk_lem lines_and_items.tables lines_and_items.column_names valid.tables
      (unresolved 1 9 2)

index_by_name-IsByName_example :
    IsByName lines_and_items.tables (index_by_name lines_and_items.tables)
index_by_name-IsByName_example = index_by_name-IsByName lines_and_items.tables few

abbrev gaps : List (Option ℕ)
gaps = some 30 ∷ none ∷ some 31 ∷ some 32 ∷ none ∷ []

abbrev small_schema : DatabaseSchema (List Str)
small_schema = record {
  tables = lines_and_items.tables;
  by_name = index_by_name lines_and_items.tables;
  columns = [];
  column_names = [];
  constraint_pool = [];
  foreign_key_pool = [];
  hash = [];
  interner = [];
}

table_by_symbol-Found_example :
    ((i : ℕ) × (t : TableMeta) × (get_elem? small_schema.tables i ≡ some t)
      × (t.name ≡ record { raw = 9 })
      × (table_by_symbol small_schema (record { raw = 9 }) ≡ some (some i)))
    ⊎ (((i : ℕ) (t : TableMeta)
          → get_elem? small_schema.tables i ≡ some t
          → t.name ≢ record { raw = 9 })
        × (table_by_symbol small_schema (record { raw = 9 }) ≡ some none))
table_by_symbol-Found_example =
    table_by_symbol-Found small_schema (record { raw = 9 }) index_by_name-IsByName_example
      (ground (arith, few))

build-leaf_tables_example :
    (schema : DatabaseSchema (List Str)) × (leaves : List ℕ) × (build added [] ≡ ok schema)
    × (leaf_tables schema ≡ some leaves)
    × ((v : ℕ)
        → count v leaves
          ≡ bit (ltb v (length schema.tables) && not (is_referenced schema 0 schema.tables v)))
build-leaf_tables_example = build-leaf_tables intern [] rows added [] added_lem few small
