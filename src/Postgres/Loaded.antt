-- ===== src/Postgres/Loaded.antt =====
-- What `load_schema` of crates/database/src/dialect/postgres.rs returns on a catalogue that is read.
use boomerang.Base.{
  ℕ, ◌^◌, ◌<◌, ◌≡◌, ◌⊎◌, inr, refl, ap, Option, none, some, List, [], ◌∷◌, length, map,
}
use boomerang.Base.Int.{ℤ}
use boomerang.Base.Order.{Str}
use boomerang.Base.Outcome.{ok}
use boomerang.Base.Panic.{>>=-eq-some}
use boomerang.Interner.Symbol.{Symbol}
use boomerang.Schema.Types.{
  Action, no_action, cascade, set_null, set_default, restrict, action_from_u8, action_to_u8,
  DatabaseSchema,
}
use boomerang.Builder.State.{RawForeignKey, DatabaseSchemaBuilder, Row, with_capacity}
use boomerang.Builder.Rows.{add_row, add_rows, finish_table}
use boomerang.Builder.Build.{build, no_start}
use boomerang.Builder.Pushed.{some_injective}
use boomerang.Builder.Promise.{build-IsSchemaOf}
use boomerang.Postgres.Load.{
  RawRow, or_default, cast_u8, action_of, raw_foreign_key, zip_foreign_keys, foreign_keys_of,
  load_row, load_rows, load_schema,
}

-- What the lists of a row hold: the fields of its foreign keys in their order, the actions by numbers
-- that are theirs when cast to a byte. A list that is not read counts as empty.
unfoldable pub AreForeignKeys : {D : Type 0} → RawRow D → List RawForeignKey → Type 0
AreForeignKeys raw fks =
    (or_default [] raw.fk_constraints ≡ map (λ fk. fk.constraint_name) fks)
    × (or_default [] raw.fk_namespaces ≡ map (λ fk. fk.namespace) fks)
    × (or_default [] raw.fk_tables ≡ map (λ fk. fk.referenced_table) fks)
    × (or_default [] raw.fk_columns ≡ map (λ fk. fk.referenced_column) fks)
    × (map cast_u8 (or_default [] raw.fk_on_update) ≡ map (λ fk. action_to_u8 fk.on_update) fks)
    × (map cast_u8 (or_default [] raw.fk_on_delete) ≡ map (λ fk. action_to_u8 fk.on_delete) fks)

-- A row that is read without an error, as the arguments of `add_row`.
unfoldable pub IsRead : {D : Type 0} → RawRow D → Row → Type 0
IsRead raw row =
    (raw.table_name ≡ inr row.table_name)
    × (raw.column_name ≡ inr row.column_name)
    × (raw.data_type ≡ inr row.data_type)
    × (raw.nullable ≡ inr row.nullable)
    × (raw.is_primary ≡ inr row.is_primary)
    × (raw.is_unique ≡ inr row.is_unique)
    × AreForeignKeys raw row.foreign_keys
    × (or_default none raw.default_expr ≡ row.default_expr)
    × (or_default [] raw.check_defs ≡ row.check_defs)
    × (or_default [] raw.domain_checks ≡ row.domain_checks)

action_of_lem :
    (z : ℤ) (action : Action) → cast_u8 z ≡ action_to_u8 action → action_of z ≡ some action
unfolding action_of action_from_u8 action_to_u8
action_of_lem z no_action e = rw (action_of, e) refl
action_of_lem z cascade e = rw (action_of, e) refl
action_of_lem z set_null e = rw (action_of, e) refl
action_of_lem z set_default e = rw (action_of, e) refl
action_of_lem z restrict e = rw (action_of, e) refl

zip_foreign_keys_lem :
    (fks : List RawForeignKey) (updates deletes : List ℤ)
    → map cast_u8 updates ≡ map (λ fk. action_to_u8 fk.on_update) fks
    → map cast_u8 deletes ≡ map (λ fk. action_to_u8 fk.on_delete) fks
    → zip_foreign_keys
        (map (λ fk. fk.constraint_name) fks)
        (map (λ fk. fk.namespace) fks)
        (map (λ fk. fk.referenced_table) fks)
        (map (λ fk. fk.referenced_column) fks)
        updates
        deletes
      ≡ some fks
unfolding zip_foreign_keys raw_foreign_key
zip_foreign_keys_lem [] us ds e e' = refl
zip_foreign_keys_lem (fk ∷ fks) [] ds e e' = cc
zip_foreign_keys_lem (fk ∷ fks) (u ∷ us) [] e e' = cc
zip_foreign_keys_lem (fk ∷ fks) (u ∷ us) (d ∷ ds) e e' =
    let here : cast_u8 u ≡ action_to_u8 fk.on_update = cc in
    let here' : cast_u8 d ≡ action_to_u8 fk.on_delete = cc in
    let more : map cast_u8 us ≡ map (λ k. action_to_u8 k.on_update) fks = cc in
    let more' : map cast_u8 ds ≡ map (λ k. action_to_u8 k.on_delete) fks = cc in
    rw
      (
        zip_foreign_keys,
        raw_foreign_key,
        action_of_lem u fk.on_update here,
        action_of_lem d fk.on_delete here',
        zip_foreign_keys_lem fks us ds more more',
      )
      refl

foreign_keys_of_lem :
    {D : Type 0} (raw : RawRow D) (fks : List RawForeignKey)
    → AreForeignKeys raw fks
    → foreign_keys_of raw ≡ some fks
unfolding foreign_keys_of AreForeignKeys
foreign_keys_of_lem raw fks (p1, p2, p3, p4, p5, p6) =
    rw (foreign_keys_of, p1, p2, p3, p4)
      (zip_foreign_keys_lem fks (or_default [] raw.fk_on_update) (or_default [] raw.fk_on_delete) p5
        p6)

unfoldable pub AreRead : {D : Type 0} → List (D ⊎ RawRow D) → List Row → Type 0
AreRead [] [] = Unit
AreRead [] (row ∷ rows) = ⊥
AreRead (item ∷ items) [] = ⊥
AreRead {D} (item ∷ items) (row ∷ rows) =
    ((raw : RawRow D) × (item ≡ inr raw) × IsRead raw row) × AreRead items rows

module _ {I D : Type 0} (intern : I → Str → Option (Symbol × I)) where
  load_row-add_row :
      (raw : RawRow D) (row : Row) (b b' : DatabaseSchemaBuilder I)
      → IsRead raw row
      → add_row intern row b ≡ some b'
      → load_row intern raw b ≡ ok b'
  unfolding load_row IsRead
  load_row-add_row raw row b b' (p1, p2, p3, p4, p5, p6, p7, p8, p9, p10) h =
      rw
        (
          load_row,
          p1,
          p2,
          p3,
          p4,
          p5,
          p6,
          foreign_keys_of_lem raw row.foreign_keys p7,
          p8,
          p9,
          p10,
          h,
        )
        refl

  load_rows-add_rows :
      (items : List (D ⊎ RawRow D)) (rows : List Row) (b b' : DatabaseSchemaBuilder I)
      → AreRead items rows
      → add_rows intern rows b ≡ some b'
      → load_rows intern items b ≡ ok b'
  unfolding load_rows add_rows AreRead
  load_rows-add_rows [] [] b b' read h = ap ok (some_injective h)
  load_rows-add_rows [] (row ∷ rows) b b' read h = absurd read
  load_rows-add_rows (item ∷ items) [] b b' read h = absurd read
  load_rows-add_rows (item ∷ items) (row ∷ rows) b b' ((raw, p, q), read) h =
      let (next, e, h') = >>=-eq-some (add_row intern row b) _ h in
      rw (load_rows, p, load_row-add_row raw row b next q e)
        (load_rows-add_rows items rows next b' read h')

  -- Rows that are all read without an error, whose lists hold the fields of their foreign keys in one
  -- order, the actions by numbers that are theirs when cast to a byte, which a new builder takes, of fewer
  -- than 2 ^ 16 tables and fewer than 2 ^ 32 - 1 foreign keys: with a hash that is read, `load_schema`
  -- returns the schema that `build` returns of these rows with these foreign keys.
  pub load_schema-build :
      (items : List (D ⊎ RawRow D)) (rows : List Row) (interner : I) (b : DatabaseSchemaBuilder I)
      (hash : List ℕ)
      → AreRead items rows
      → add_rows intern rows (with_capacity interner) ≡ some b
      → length (finish_table b).tables < 2 ^ 16
      → length b.foreign_key_pool < no_start
      → (schema : DatabaseSchema I) × (load_schema intern interner items (inr hash) ≡ ok schema)
        × (build b hash ≡ ok schema)
  unfolding load_schema
  load_schema-build items rows interner b hash read added few small =
      let (sorted, renewed, schema, e, once, done, size) =
        build-IsSchemaOf intern interner rows b hash added few small in
      (
        schema,
        rw (load_schema, load_rows-add_rows items rows (with_capacity interner) b read added, e)
            refl,
        e,
      )
