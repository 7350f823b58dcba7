-- ===== src/Schema/Lookup/ByName.antt =====
-- The list of table indices by name in crates/database/src/core/schema.rs, and the search in it.
use boomerang.Base.{
  ℕ, ◌^◌, ◌≤◌, ◌<◌, ◌≡◌, ◌≢◌, ◌⊎◌, inl, inr, refl, sym, ap, ◌∙◌, none, some, List, length,
  get_elem?, lt-length, arith,
}
use boomerang.Base.Search.{binary_search, IsSearch, binary_search-Found}
use boomerang.Interner.Symbol.{Symbol, into_raw}
use boomerang.Schema.Types.{TableMeta, DatabaseSchema}
use boomerang.Schema.Lookup.{name_probe, table_at, table_by_symbol}

-- The raw name of the table that a slot names, and 0 where there is none.
unfoldable pub slot_key : List TableMeta → List ℕ → ℕ → ℕ
slot_key tables by_name slot = elim (get_elem? by_name slot) [
  | none ↦ 0
  | some i ↦ elim (get_elem? tables i) [ none ↦ 0 | some t ↦ t.name.raw ]
]

pub slot_key_lem :
    (tables : List TableMeta) (by_name : List ℕ) (slot i : ℕ) (t : TableMeta)
    → get_elem? by_name slot ≡ some i
    → get_elem? tables i ≡ some t
    → slot_key tables by_name slot ≡ t.name.raw
unfolding slot_key
slot_key_lem tables by_name slot i t p q = rw (slot_key, p, q) refl

-- Each slot holds the index of a table, each table has a slot, and the names ascend.
pub record IsByName (tables : List TableMeta) (by_name : List ℕ) : Type 0 where
  pub inside :
      (slot : ℕ)
      → slot < length by_name
      → (i : ℕ) × (t : TableMeta) × (get_elem? by_name slot ≡ some i)
        × (get_elem? tables i ≡ some t)
  pub covers : (i : ℕ) → i < length tables → (slot : ℕ) × (get_elem? by_name slot ≡ some i)
  pub ascends :
      (slot later : ℕ)
      → slot ≤ later
      → later < length by_name
      → slot_key tables by_name slot ≤ slot_key tables by_name later

module _ (tables : List TableMeta) (by_name : List ℕ) (valid : IsByName tables by_name)
    (symbol : Symbol) where
  probes-IsSearch :
      IsSearch
        (name_probe tables by_name symbol)
        (length by_name)
        (slot_key tables by_name)
        symbol.raw
  unfolding name_probe into_raw
  probes-IsSearch = record {
    probes = λ i h.
        let (j, t, p, q) = valid.inside i h in
        rw (slot_key_lem tables by_name i j t p q) (rw (name_probe, p, q) refl);
    ascends = valid.ascends;
  }

  -- The search of a name: the slot of a table of that name, or none of them has it.
  pub name_probe-Found :
      ((slot : ℕ) × (i : ℕ) × (t : TableMeta) × (get_elem? by_name slot ≡ some i)
        × (get_elem? tables i ≡ some t)
        × (t.name ≡ symbol)
        × (binary_search (name_probe tables by_name symbol) (length by_name) ≡ some (some slot)))
      ⊎ (((i : ℕ) (t : TableMeta) → get_elem? tables i ≡ some t → t.name ≢ symbol)
          × (binary_search (name_probe tables by_name symbol) (length by_name) ≡ some none))
  name_probe-Found =
      elim (binary_search-Found (name_probe tables by_name symbol) (length by_name)
        (slot_key tables by_name) symbol.raw probes-IsSearch) [
          | inl (slot, h, same, found) ↦
              let (i, t, p, q) = valid.inside slot h in
              let raw : t.name.raw ≡ symbol.raw =
                sym (slot_key_lem tables by_name slot i t p q) ∙ same in
              inl (slot, i, t, p, q, (λ k. record { raw = raw k }), found)
          | inr (other, missing) ↦ inr (
            λ i t q e.
                let (slot, p) = valid.covers i (lt-length tables i q) in
                other slot (lt-length by_name slot p)
                  (slot_key_lem tables by_name slot i t p q ∙ ap (λ n. n.raw) e),
            missing,
          )
        ]

-- In a schema of at most 2 ^ 16 tables whose index by name is right, `table_by_symbol` finds a table
-- of the name, or no table has that name and it finds none.
pub table_by_symbol-Found :
    {I : Type 0} (schema : DatabaseSchema I) (symbol : Symbol)
    → IsByName schema.tables schema.by_name
    → length schema.tables ≤ 2 ^ 16
    → ((i : ℕ) × (t : TableMeta) × (get_elem? schema.tables i ≡ some t)
        × (t.name ≡ symbol)
        × (table_by_symbol schema symbol ≡ some (some i)))
      ⊎ (((i : ℕ) (t : TableMeta) → get_elem? schema.tables i ≡ some t → t.name ≢ symbol)
          × (table_by_symbol schema symbol ≡ some none))
unfolding table_by_symbol table_at
table_by_symbol-Found schema symbol valid few =
    elim (name_probe-Found schema.tables schema.by_name valid symbol) [
      | inl (slot, i, t, p, q, same, found) ↦
          let low = lt-length schema.tables i q in
          let at : table_at schema i ≡ some i = ground arith in
          inl (i, t, q, same, rw (table_by_symbol, found, p) (ap some at))
      | inr (other, missing) ↦ inr (other, rw (table_by_symbol, missing) refl)
    ]
