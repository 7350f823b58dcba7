-- ===== src/Schema/Codec/Write.antt =====
-- `DatabaseSchema::encode` of crates/database/src/core/schema.rs. The buffer's estimated capacity
-- changes no byte and is left out.
use boomerang.Base.{ℕ, Option, none, some, List, [], ◌∷◌, ◌++◌, length}
use boomerang.Interner.Symbol.{Symbol, into_raw}
use boomerang.Schema.Types.{
  ValueType, custom, to_u8, action_to_u8, ForeignKey, Column, TableMeta, DatabaseSchema,
}
use boomerang.Base.LittleEndian.{le_bytes}

abbrev pub u16_max : ℕ
u16_max = 65535

abbrev pub write_u8 : ℕ → List ℕ
write_u8 = le_bytes 1

abbrev pub write_u16 : ℕ → List ℕ
write_u16 = le_bytes 2

abbrev pub write_u32 : ℕ → List ℕ
write_u32 = le_bytes 4

abbrev pub write_sym : Symbol → List ℕ
write_sym s = write_u32 (into_raw s)

unfoldable pub write_sym_opt : Option Symbol → List ℕ
write_sym_opt (some s) = write_u32 (into_raw s)
write_sym_opt none = write_u32 0

unfoldable pub write_primary_key : Option ℕ → List ℕ
write_primary_key none = write_u16 u16_max
write_primary_key (some i) = write_u16 i

unfoldable pub write_table : TableMeta → List ℕ
unfolding write_primary_key
write_table t =
    write_sym t.name
    ++ (write_u32 t.columns_start
        ++ (write_u16 t.columns_len
            ++ (write_primary_key t.primary_key ++ (write_u32 t.fk_start ++ write_u16 t.fk_len))))

-- The symbol behind the tag of a custom type.
unfoldable pub write_custom : ValueType → List ℕ
write_custom (custom s) = write_sym s
write_custom _ = []

unfoldable pub write_column : Column → List ℕ
unfolding write_custom write_sym_opt
write_column c =
    write_sym c.name
    ++ (write_u8 (to_u8 c.data_type)
        ++ (write_custom c.data_type
            ++ (write_sym_opt c.default_value
                ++ (write_u8 c.flags.bits
                    ++ (write_u32 c.constraints.start
                        ++ (write_u16 c.constraints.len
                            ++ (write_u32 c.foreign_keys.start
                                ++ write_u16 c.foreign_keys.len)))))))

unfoldable pub write_foreign_key : ForeignKey → List ℕ
write_foreign_key fk =
    write_sym fk.constraint_name
    ++ (write_sym fk.namespace
        ++ (write_u16 fk.table
            ++ (write_u16 fk.column
                ++ (write_u8 (action_to_u8 fk.on_update) ++ write_u8 (action_to_u8 fk.on_delete)))))

-- A `for` loop that writes each item.
unfoldable pub write_each : {A : Type 0} → (A → List ℕ) → List A → List ℕ
write_each f [] = []
write_each f (x ∷ xs) = f x ++ write_each f xs

-- A length, and the items.
unfoldable pub write_list : {A : Type 0} → (A → List ℕ) → List A → List ℕ
unfolding write_each
write_list f xs = write_u32 (length xs) ++ write_each f xs

unfoldable pub write_pools : {I : Type 0} → DatabaseSchema I → List ℕ
unfolding write_list
write_pools s =
    write_list write_sym s.column_names
    ++ (write_list write_sym s.constraint_pool ++ write_list write_foreign_key s.foreign_key_pool)

-- `bytes` is `StringInterner::bytes`.
unfoldable pub encode : {I : Type 0} → (I → List ℕ) → DatabaseSchema I → List ℕ
unfolding write_list write_pools
encode bytes s =
    s.hash
    ++ (write_u32 (length (bytes s.interner))
        ++ (bytes s.interner
            ++ (write_list write_table s.tables
                ++ (write_list write_u16 s.by_name
                    ++ (write_list write_column s.columns ++ write_pools s)))))
