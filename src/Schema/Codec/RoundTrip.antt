-- ===== src/Schema/Codec/RoundTrip.antt =====
-- `decode` and `decode_unchecked` after `encode` of crates/database/src/core/schema.rs.
use boomerang.Base.{ℕ, ◌^◌, ◌<◌, ◌≡◌, refl, List, [], ◌∷◌, ◌++◌, length, All, arith}
use boomerang.Base.Outcome.{Run, ok}
use mathlib.Core.List.{append_assoc}
use boomerang.Schema.Types.{Column, PoolRange, DatabaseSchema, to_u8}
use boomerang.Schema.Types.{ValueType, null, custom}
use boomerang.Schema.Codec.Bytes.{
  Fault, missing, undefined, Decoder, read_bytes, read_many, read_bytes-append,
}
use boomerang.Schema.Codec.Write.{
  write_u16, write_u32, write_custom, write_column, write_each, write_list, write_pools, encode,
}
use boomerang.Schema.Codec.Read.{
  read_type, plain_type, read_pool_range, read_column, read_list, read_schema, decode,
  decode_unchecked,
}
use boomerang.Schema.Codec.Fields.{
  ReadsBack, ReadsBack-bind, ReadsBack-map, ReadsBack-lift, IsType, IsSym, IsU16, IsU32, IsTable,
  IsColumn, IsForeignKey, IsListOf,
}
use boomerang.Schema.Codec.Fields.{
  uint-ReadsBack, sym-ReadsBack, sym_opt-ReadsBack, table-ReadsBack, foreign_key-ReadsBack,
}

to_u8-lt : (t : ValueType) → to_u8 t < 256
unfolding to_u8
to_u8-lt null = omega arith
to_u8-lt _ = omega arith

module _ (fault : Fault) where
  type-ReadsBack :
      (t : ValueType) → IsType t → ReadsBack (read_type fault (to_u8 t)) (write_custom t) t
  unfolding read_type write_custom to_u8 plain_type
  type-ReadsBack (custom s) h = ReadsBack-map _ _ (sym-ReadsBack fault s h)
  type-ReadsBack null h = ReadsBack-lift refl
  type-ReadsBack _ h = ReadsBack-lift refl

  range-ReadsBack :
      (r : PoolRange)
      → IsU32 r.start × IsU16 r.len
      → ReadsBack (read_pool_range fault) (write_u32 r.start ++ write_u16 r.len) r
  unfolding read_pool_range
  range-ReadsBack r h =
      ReadsBack-bind _ _ (uint-ReadsBack fault 4 r.start h.0)
        (ReadsBack-map _ _ (uint-ReadsBack fault 2 r.len h.1))

  -- The bytes of two pieces read by one decoder, regrouped.
  ReadsBack-regroup :
      {A : Type 0} {d : Decoder A} (bs cs ds : List ℕ) {a : A}
      → ReadsBack d ((bs ++ cs) ++ ds) a
      → ReadsBack d (bs ++ (cs ++ ds)) a
  ReadsBack-regroup bs cs ds p = rw (append_assoc bs cs ds) at p

  column-ReadsBack : (c : Column) → IsColumn c → ReadsBack (read_column fault) (write_column c) c
  unfolding read_column write_column
  column-ReadsBack c h = ReadsBack-bind _ _ (sym-ReadsBack fault c.name h.name) (
      ReadsBack-bind _ _ (uint-ReadsBack fault 1 (to_u8 c.data_type) (to_u8-lt c.data_type)) (
        ReadsBack-bind _ _ (type-ReadsBack c.data_type h.data_type) (
          ReadsBack-bind _ _ (sym_opt-ReadsBack fault c.default_value h.default_value) (
            ReadsBack-bind _ _ (uint-ReadsBack fault 1 c.flags.bits h.bits) (
              ReadsBack-regroup (write_u32 c.constraints.start) (write_u16 c.constraints.len)
                (write_u32 c.foreign_keys.start ++ write_u16 c.foreign_keys.len)
                (ReadsBack-bind _ _ (range-ReadsBack c.constraints h.constraints)
                  (ReadsBack-map _ _ (range-ReadsBack c.foreign_keys h.foreign_keys))))))))

module _ {A : Type 0} (fault : Fault) (d : Decoder A) (write : A → List ℕ) where
  many-ReadsBack :
      (P : A → Type 0)
      → ((a : A) → P a → ReadsBack d (write a) a)
      → (xs : List A) → All P xs
      → ReadsBack (read_many (length xs) d) (write_each write xs) xs
  unfolding read_many write_each
  many-ReadsBack P each [] h = record { at = λ rest. refl }
  many-ReadsBack P each (x ∷ xs) h =
      ReadsBack-bind _ _ (each x h.0) (ReadsBack-map _ _ (many-ReadsBack P each xs h.1))

  list-ReadsBack :
      (P : A → Type 0)
      → ((a : A) → P a → ReadsBack d (write a) a)
      → (xs : List A) → IsListOf P xs
      → ReadsBack (read_list fault d) (write_list write xs) xs
  unfolding read_list write_list
  list-ReadsBack P each xs h =
      ReadsBack-bind _ _ (uint-ReadsBack fault 4 (length xs) h.0) (many-ReadsBack P each xs h.1)

-- A schema whose numbers are in the ranges of their Rust types, whose symbols are not 0, whose hash
-- has 32 bytes, and whose lengths fit 32 bits; `bytes` is what the interner is written as.
pub record IsEncodable {I : Type 0} (bytes : I → List ℕ) (s : DatabaseSchema I) : Type 0 where
  pub hash : length s.hash ≡ 32
  pub interner : length (bytes s.interner) < 2 ^ 32
  pub tables : IsListOf IsTable s.tables
  pub by_name : IsListOf IsU16 s.by_name
  pub columns : IsListOf IsColumn s.columns
  pub column_names : IsListOf IsSym s.column_names
  pub constraint_pool : IsListOf IsSym s.constraint_pool
  pub foreign_key_pool : IsListOf IsForeignKey s.foreign_key_pool

module _ {I : Type 0} (bytes : I → List ℕ) where
  bytes-ReadsBack :
      (fault : Fault) (n : ℕ) (bs : List ℕ) → length bs ≡ n → ReadsBack (read_bytes fault n) bs bs
  bytes-ReadsBack fault n bs e = record { at = λ rest. read_bytes-append fault bs rest n e }

  pub schema-ReadsBack :
      (fault : Fault) (load : List ℕ → Run Fault I) (s : DatabaseSchema I) (i : I)
      → IsEncodable bytes s
      → load (bytes s.interner) ≡ ok i
      → ReadsBack (read_schema fault load) (encode bytes s) (record s { interner = i })
  unfolding read_schema encode write_pools
  schema-ReadsBack fault load s i h e =
      ReadsBack-bind _ _ (bytes-ReadsBack fault 32 s.hash h.hash) (
        ReadsBack-bind _ _ (uint-ReadsBack fault 4 (length (bytes s.interner)) h.interner) (
          ReadsBack-bind _ _
            (bytes-ReadsBack fault (length (bytes s.interner)) (bytes s.interner) refl)
            (ReadsBack-bind _ _ (ReadsBack-lift e) (
              ReadsBack-bind _ _
                (list-ReadsBack fault _ _ IsTable (table-ReadsBack fault) s.tables h.tables)
                (ReadsBack-bind _ _
                  (list-ReadsBack fault _ _ IsU16 (uint-ReadsBack fault 2) s.by_name h.by_name)
                  (ReadsBack-bind _ _
                    (list-ReadsBack fault _ _ IsColumn (column-ReadsBack fault) s.columns h.columns)
                    (ReadsBack-bind _ _
                      (list-ReadsBack fault _ _ IsSym (sym-ReadsBack fault) s.column_names
                        h.column_names)
                      (ReadsBack-bind _ _
                        (list-ReadsBack fault _ _ IsSym (sym-ReadsBack fault) s.constraint_pool
                          h.constraint_pool)
                        (ReadsBack-map _ _ (
                          list-ReadsBack fault _ _ IsForeignKey (foreign_key-ReadsBack fault)
                            s.foreign_key_pool h.foreign_key_pool))))))))))

  -- Both decoders return the schema that `encode` was given, with the interner that they load from
  -- its bytes, whatever follows in the input; neither returns `None`, panics or has undefined
  -- behaviour.
  pub decode-encode :
      (load load_unchecked : List ℕ → Run Fault I) (s : DatabaseSchema I) (i : I) (extra : List ℕ)
      → IsEncodable bytes s
      → load (bytes s.interner) ≡ ok i
      → load_unchecked (bytes s.interner) ≡ ok i
      → (decode load (encode bytes s ++ extra) ≡ ok (record s { interner = i }))
        × (decode_unchecked load_unchecked (encode bytes s ++ extra)
            ≡ ok (record s { interner = i }))
  unfolding decode decode_unchecked
  decode-encode load load_unchecked s i extra h e f = (
    rw ((schema-ReadsBack missing load s i h e).at extra),
    rw ((schema-ReadsBack undefined load_unchecked s i h f).at extra),
  )
