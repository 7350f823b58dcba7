-- ===== src/Builder/Resolve.antt =====
-- What the names of a foreign key are resolved to in crates/database/src/core/schema_builder.rs.
use boomerang.Base.{
  ℕ, zero, suc, ◌+◌, ◌%◌, ◌^◌, ◌<◌, ◌≤◌, ◌≡◌, ◌≢◌, refl, sym, ap, ◌∙◌, ◌⊎◌, inl, inr, Bool, true,
  false, none, some, List, [], ◌∷◌, length, get_elem?, lt-length, take, drop, leb, arith,
  Bool-cases,
}
use boomerang.Interner.Symbol.{Symbol, eq_symbol, eq_symbol_self, eq_symbol_eq}
use boomerang.Schema.Types.{TableMeta}
use boomerang.Schema.Lookup.{slice, position}
use boomerang.Schema.Lookup.ByName.{name_probe-Found}
use boomerang.Builder.State.{UnresolvedFk}
use boomerang.Builder.Build.{ResolvedFk, index_by_name, resolve_fk}
use boomerang.Builder.ByName.{index_by_name-IsByName}

-- The symbols from `start` on, `len` of them, are there and are not `symbol`.
unfoldable pub IsAbsent : List Symbol → ℕ → ℕ → Symbol → Type 0
IsAbsent names start len symbol = (i : ℕ) → i < len → get_elem? names (start + i) ≢ some symbol

-- Fewer than 2 ^ 16 tables; the columns of each are there, and are fewer than 2 ^ 16.
pub record IsTables (tables : List TableMeta) (column_names : List Symbol) : Type 0 where
  pub few : length tables < 2 ^ 16
  pub inside :
      (i : ℕ) (t : TableMeta)
      → get_elem? tables i ≡ some t
      → (t.columns_start + t.columns_len ≤ length column_names) × (t.columns_len < 2 ^ 16)

position-Found :
    {A : Type 0} (test : A → Bool) (xs : List A)
    → ((i : ℕ) × (x : A) × (position test xs ≡ some i)
        × (get_elem? xs i ≡ some x)
        × (test x ≡ true))
      ⊎ ((position test xs ≡ none) × ((i : ℕ) (x : A) → get_elem? xs i ≡ some x → test x ≡ false))
unfolding position
position-Found test [] = inr (refl, λ i x h. cc)
position-Found test (x ∷ xs) = elim (Bool-cases (test x)) [
  | inl e ↦ inl (0, x, rw (position, e) refl, refl, e)
  | inr e ↦ elim (position-Found test xs) [
    | inl (i, y, p, q, t) ↦ inl (suc i, y, rw (position, e, p) refl, q, t)
    | inr (p, all) ↦ inr (rw (position, e, p) refl, λ i y h. others x xs e all i y h)
  ]
]
  where
    others :
        {A : Type 0} {test : A → Bool} (x : A) (xs : List A)
        → test x ≡ false
        → ((i : ℕ) (y : A) → get_elem? xs i ≡ some y → test y ≡ false)
        → (i : ℕ) (y : A) → get_elem? (x ∷ xs) i ≡ some y
        → test y ≡ false
    others {test} x xs e all zero y h = let same : x ≡ y = cc in sym (ap test same) ∙ e
    others x xs e all (suc i) y h = all i y h

get_elem?-take-drop :
    {A : Type 0} (xs : List A) (start len i : ℕ)
    → i < len
    → get_elem? (take len (drop start xs)) i ≡ get_elem? xs (start + i)
get_elem?-take-drop xs start zero i h = absurd (ground (arith, h))
get_elem?-take-drop [] zero (suc len) i h = refl
get_elem?-take-drop [] (suc start) (suc len) i h = refl
get_elem?-take-drop (x ∷ xs) (suc start) (suc len) i h =
    let e : suc (start + i) ≡ suc start + i = omega arith in
    get_elem?-take-drop xs start (suc len) i h ∙ ap (get_elem? (x ∷ xs)) e
get_elem?-take-drop (x ∷ xs) zero (suc len) zero h = refl
get_elem?-take-drop (x ∷ xs) zero (suc len) (suc i) h =
    let e : suc (0 + i) ≡ 0 + suc i = omega arith in
    get_elem?-take-drop xs zero len i (omega arith) ∙ ap (get_elem? (x ∷ xs)) e

-- The symbols of a slice, searched for one.
symbol_position :
    (names : List Symbol) (start len : ℕ) (symbol : Symbol)
    → start + len ≤ length names
    → (columns : List Symbol) × (slice names start len ≡ some columns)
      × (((col : ℕ) × (position (λ c. eq_symbol c symbol) columns ≡ some col)
            × (col < len)
            × (get_elem? names (start + col) ≡ some symbol))
          ⊎ ((position (λ c. eq_symbol c symbol) columns ≡ none) × IsAbsent names start len symbol))
unfolding slice IsAbsent
symbol_position names start len symbol h =
    let columns = take len (drop start names) in
    let c : leb (start + len) (length names) ≡ true = ground (arith, h) in
    let size : length columns ≤ len = length_take len (drop start names) in
    (
      columns,
      rw (slice, c) refl,
      elim (position-Found (λ c. eq_symbol c symbol) columns) [
        | inl (col, x, p, q, t) ↦
            let less : col < len = ground (arith, lt-length columns col q, size) in
            inl (
              col,
              p,
              less,
              sym (get_elem?-take-drop names start len col less)
                  ∙ q
                  ∙ ap some (eq_symbol_eq x symbol t),
            )
        | inr (p, all) ↦ inr (
          p,
          λ i less e. absurd (
              ground (
                arith,
                all i symbol (get_elem?-take-drop names start len i less ∙ e),
                eq_symbol_self symbol,
              )),
        )
      ],
    )
  where
    length_take : (n : ℕ) (xs : List Symbol) → length (take n xs) ≤ n
    length_take zero xs = omega arith
    length_take (suc n) [] = omega arith
    length_take (suc n) (x ∷ xs) = omega (arith, length_take n xs)

module _ (tables : List TableMeta) (names : List Symbol) (valid : IsTables tables names) where
  -- The result: the table and the column that the foreign key names; or there is no such table, or
  -- one of that name has no such column.
  pub record IsTarget (u : UnresolvedFk) (r : ResolvedFk) : Type 0 where
    pub pool_index : r.pool_index ≡ u.pool_index
    pub source : r.source_table_idx ≡ u.source_table_idx
    pub target :
        (t : TableMeta) × (get_elem? tables r.ref_table_old_idx ≡ some t)
        × (t.name ≡ u.ref_table_sym)
        × (r.col_idx_in_table < t.columns_len)
        × (get_elem? names (t.columns_start + r.col_idx_in_table) ≡ some u.ref_column_sym)

  unfoldable pub IsMissing : UnresolvedFk → Type 0
  IsMissing u =
      ((i : ℕ) (t : TableMeta) → get_elem? tables i ≡ some t → t.name ≢ u.ref_table_sym)
      ⊎ ((i : ℕ) × (t : TableMeta) × (get_elem? tables i ≡ some t)
          × (t.name ≡ u.ref_table_sym)
          × IsAbsent names t.columns_start t.columns_len u.ref_column_sym)

  -- Among fewer than 2 ^ 16 tables whose columns are in the list of names, a foreign key is resolved to
  -- a table of the name that it has and a column of the name that it has in it; or it is dropped, and
  -- then no table has that name, or a table of that name has no such column.
  pub resolve_fk_lem :
      (u : UnresolvedFk)
      → ((r : ResolvedFk) × (resolve_fk tables names (index_by_name tables) u ≡ some (some r))
          × IsTarget u r)
        ⊎ ((resolve_fk tables names (index_by_name tables) u ≡ some none) × IsMissing u)
  unfolding resolve_fk IsMissing
  resolve_fk_lem u =
      elim (name_probe-Found tables (index_by_name tables) (index_by_name-IsByName tables valid.few)
        u.ref_table_sym) [
          | inr (other, missing) ↦ inr (rw (resolve_fk, missing) refl, inl other)
          | inl (slot, ref, t, p, q, same, found) ↦
              let (inside, small) = valid.inside ref t q in
              let (columns, s, cases) =
                symbol_position names t.columns_start t.columns_len u.ref_column_sym inside in
              elim cases [
                | inr (e, absent) ↦
                    inr (rw (resolve_fk, found, p, q, s, e) refl, inr (ref, t, q, same, absent))
                | inl (col, e, less, at) ↦
                    let low : col % 2 ^ 16 ≡ col = ground (arith, less, small) in
                    inl (
                      record {
                        pool_index = u.pool_index;
                        source_table_idx = u.source_table_idx;
                        ref_table_old_idx = ref;
                        col_idx_in_table = col;
                      },
                      rw (resolve_fk, found, p, q, s, e, low) refl,
                      record { pool_index = refl; source = refl; target = (t, q, same, less, at) },
                    )
              ]
        ]
