-- ===== src/Postgres/Load.antt =====
-- `load_schema` of crates/database/src/dialect/postgres.rs, behind its queries. `D` is sqlx's error.
use boomerang.Base.{ℕ, ◌-◌, ◌%◌, ◌^◌, ◌⊎◌, inl, inr, Bool, Option, none, some, List, [], ◌∷◌}
use boomerang.Base.Int.{ℤ, pos, negsuc}
use boomerang.Base.Order.{Str}
use boomerang.Base.Outcome.{Run, ok, err, panic, stuck, ◌>>=◌, or_fail}
use boomerang.Interner.Symbol.{Symbol}
use boomerang.Schema.Types.{Action, action_from_u8, DatabaseSchema}
use boomerang.Dialect.{DatabaseError, sqlx_error, schema_hash_computation_failed}
use boomerang.Builder.State.{RawForeignKey, DatabaseSchemaBuilder, with_capacity}
use boomerang.Builder.Rows.{add_row}
use boomerang.Builder.Build.{build}

-- What `try_get` answers for each column of a row.
pub record RawRow (D : Type 0) : Type 0 where
  pub table_name : D ⊎ Str
  pub column_name : D ⊎ Str
  pub data_type : D ⊎ Str
  pub nullable : D ⊎ Bool
  pub is_primary : D ⊎ Bool
  pub is_unique : D ⊎ Bool
  pub default_expr : D ⊎ Option Str
  pub fk_constraints : D ⊎ List Str
  pub fk_namespaces : D ⊎ List Str
  pub fk_tables : D ⊎ List Str
  pub fk_columns : D ⊎ List Str
  pub fk_on_update : D ⊎ List ℤ
  pub fk_on_delete : D ⊎ List ℤ
  pub check_defs : D ⊎ List Str
  pub domain_checks : D ⊎ List Str

-- `unwrap_or_default()`, and `unwrap_or(None)`.
abbrev pub or_default : {D A : Type 0} → A → D ⊎ A → A
or_default default (inl d) = default
or_default default (inr a) = a

-- `value as u8` of an i16.
unfoldable pub cast_u8 : ℤ → ℕ
cast_u8 (pos n) = n % 2 ^ 8
cast_u8 (negsuc n) = 255 - n % 2 ^ 8

-- `Action::from`, which panics on `none`.
unfoldable pub action_of : ℤ → Option Action
unfolding cast_u8 action_from_u8
action_of value = action_from_u8 (cast_u8 value)

-- One item of the zipped lists.
unfoldable pub raw_foreign_key : Str → Str → Str → Str → ℤ → ℤ → Option RawForeignKey
unfolding action_of
raw_foreign_key c n t col upd del = elim (action_of upd) [
  | none ↦ none
  | some on_update ↦ elim (action_of del) [
    | none ↦ none
    | some on_delete ↦ some (record {
      constraint_name = c;
      namespace = n;
      referenced_table = t;
      referenced_column = col;
      on_update = on_update;
      on_delete = on_delete;
    })
  ]
]

-- `foreign_keys_iter`: it ends with the shortest list.
unfoldable pub zip_foreign_keys :
    List Str → List Str → List Str → List Str → List ℤ → List ℤ → Option (List RawForeignKey)
unfolding raw_foreign_key
zip_foreign_keys (c ∷ cs) (n ∷ ns) (t ∷ ts) (col ∷ cols) (u ∷ us) (d ∷ ds) =
    let rest = zip_foreign_keys cs ns ts cols us ds in
    elim (raw_foreign_key c n t col u d) [
      | none ↦ none
      | some fk ↦ elim rest [ none ↦ none | some fks ↦ some (fk ∷ fks) ]
    ]
zip_foreign_keys _ _ _ _ _ _ = some []

unfoldable pub foreign_keys_of : {D : Type 0} → RawRow D → Option (List RawForeignKey)
unfolding zip_foreign_keys
foreign_keys_of raw =
    zip_foreign_keys (or_default [] raw.fk_constraints) (or_default [] raw.fk_namespaces)
      (or_default [] raw.fk_tables) (or_default [] raw.fk_columns) (or_default [] raw.fk_on_update)
      (or_default [] raw.fk_on_delete)

-- A call that may panic, in a call that may fail.
abbrev pub or_panic : {E A : Type 0} → Option A → Run E A
or_panic none = panic
or_panic (some a) = ok a

-- `build` returns no error.
abbrev pub no_error : {E A : Type 0} → Run ⊥ A → Run E A
no_error (ok a) = ok a
no_error (err e) = absurd e
no_error panic = panic
no_error stuck = stuck

module _ {I D : Type 0} (intern : I → Str → Option (Symbol × I)) where
  -- The body of the loop. The foreign keys are made while `add_row` takes them.
  unfoldable pub load_row :
      RawRow D → DatabaseSchemaBuilder I → Run (DatabaseError D) (DatabaseSchemaBuilder I)
  unfolding foreign_keys_of add_row
  load_row raw builder = or_fail sqlx_error raw.table_name >>= λ table_name.
      or_fail sqlx_error raw.column_name >>= λ column_name.
      or_fail sqlx_error raw.data_type >>= λ data_type.
      or_fail sqlx_error raw.nullable >>= λ nullable.
      or_fail sqlx_error raw.is_primary >>= λ is_primary.
      or_fail sqlx_error raw.is_unique >>= λ is_unique.
      or_panic (foreign_keys_of raw) >>= λ foreign_keys. or_panic (
        add_row intern
          (record {
            table_name = table_name;
            column_name = column_name;
            data_type = data_type;
            nullable = nullable;
            is_primary = is_primary;
            is_unique = is_unique;
            default_expr = or_default none raw.default_expr;
            foreign_keys = foreign_keys;
            check_defs = or_default [] raw.check_defs;
            domain_checks = or_default [] raw.domain_checks;
          })
          builder)

  -- The loop over what the stream yields.
  unfoldable pub load_rows :
      List (D ⊎ RawRow D)
      → DatabaseSchemaBuilder I
      → Run (DatabaseError D) (DatabaseSchemaBuilder I)
  unfolding load_row
  load_rows [] builder = ok builder
  load_rows (item ∷ items) builder =
      or_fail sqlx_error item >>= λ raw. load_row raw builder >>= λ next. load_rows items next

  -- `hash` is what the second query answers.
  unfoldable pub load_schema :
      I → List (D ⊎ RawRow D) → D ⊎ List ℕ → Run (DatabaseError D) (DatabaseSchema I)
  unfolding load_rows with_capacity build
  load_schema interner items hash = load_rows items (with_capacity interner) >>= λ builder.
      elim hash [ inl d ↦ err schema_hash_computation_failed | inr h ↦ no_error (build builder h) ]
