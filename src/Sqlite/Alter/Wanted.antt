-- ===== src/Sqlite/Alter/Wanted.antt =====
-- The plan of `alter_tables` in crates/database/src/dialect/sqlite.rs without its loops: what each table
-- and each column asks for.
use boomerang.Base.{
  ℕ, ◌≡◌, refl, ap, inl, inr, Bool, true, false, not, ◌&&◌, Option, none, some, List, [], ◌∷◌, ◌++◌,
  map, if◌then◌else◌, Bool-cases,
}
use boomerang.Base.Order.{Str, eq_str}
use boomerang.Schema.Lookup.{is_primary_key}
use boomerang.Sqlite.Default.{sqlite_type, eq_ignore_case}
use boomerang.Sqlite.Live.{Entries, LiveColumn, find, without, keys}
use boomerang.Sqlite.Alter.{Statement, create_table, drop_table, add_column, drop_column, any_key}
use boomerang.Sqlite.Alter.Names.{Names}

-- Whether the key is one of the names.
unfoldable pub is_named : (ℕ → Str) → List ℕ → Str → Bool
is_named name [] k = false
is_named name (j ∷ js) k = let rest = is_named name js k in if eq_str k (name j) then true else rest

-- The entries under none of the names.
unfoldable pub unnamed : {A : Type 0} → (ℕ → Str) → List ℕ → Entries A → Entries A
unfolding is_named
unnamed name js [] = []
unnamed name js (e ∷ es) =
    let rest = unnamed name js es in if is_named name js e.0 then rest else e ∷ rest

pub unnamed-nil : {A : Type 0} (name : ℕ → Str) (es : Entries A) → unnamed name [] es ≡ es
unfolding unnamed is_named
unnamed-nil name [] = refl
unnamed-nil name (e ∷ es) = ap (λ rest. e ∷ rest) (unnamed-nil name es)

pub unnamed-without :
    {A : Type 0} (name : ℕ → Str) (j : ℕ) (js : List ℕ) (es : Entries A)
    → unnamed name js (without (name j) es) ≡ unnamed name (j ∷ js) es
unfolding unnamed is_named without
unnamed-without name j js [] = refl
unnamed-without name j js (e ∷ es) =
    let rest = unnamed-without name j js es in
    elim (Bool-cases (eq_str e.0 (name j))) [
      | inl hit ↦ rw (without, unnamed, is_named, hit) rest
      | inr miss ↦ elim (Bool-cases (is_named name js e.0)) [
        | inl named ↦ rw (without, unnamed, is_named, miss, named) rest
        | inr free ↦ rw (without, unnamed, is_named, miss, free) (ap (λ r. e ∷ r) rest)
      ]
    ]

module _ (names : Names) where
  -- Whether the column can stay or can be added: a live column of its name has its type, but for case,
  -- and is in the primary key if it is; without one it is not in the primary key.
  unfoldable pub fits : Entries LiveColumn → ℕ → Bool
  fits live j = elim (find (names.name j) live) [
    | none ↦ not (is_primary_key (names.column j))
    | some l ↦
        eq_ignore_case l.ty (sqlite_type (names.column j).data_type)
        && (if l.pk then is_primary_key (names.column j) else not (is_primary_key (names.column j)))
  ]

  unfoldable pub all_fit : Entries LiveColumn → List ℕ → Bool
  unfolding fits
  all_fit live [] = true
  all_fit live (j ∷ js) = fits live j && all_fit live js

  -- The columns that are not live.
  unfoldable pub missing : Entries LiveColumn → List ℕ → List ℕ
  missing live [] = []
  missing live (j ∷ js) =
      let rest = missing live js in
      elim (find (names.name j) live) [ none ↦ j ∷ rest | some l ↦ rest ]

  -- A table that is not live is created. One whose columns all fit, without a live column of the primary
  -- key that is not one of them, gets the columns that it lacks and loses those that it is not to have;
  -- another one is dropped and created.
  unfoldable pub table_change :
      (List Str → List Str) → ℕ → Option (Entries LiveColumn) → List Statement
  unfolding all_fit missing unnamed
  table_change order i none = create_table i ∷ []
  table_change order i (some live) =
      if all_fit live (names.columns i) && not (any_key (unnamed names.name (names.columns i) live))
      then map (add_column (names.table i)) (missing live (names.columns i))
        ++ map (drop_column (names.table i))
            (order (keys (unnamed names.name (names.columns i) live)))
      else drop_table (names.table i) ∷ create_table i ∷ []

  unfoldable pub table_changes :
      (List Str → List Str) → List ℕ → Entries (Entries LiveColumn) → List Statement
  unfolding table_change
  table_changes order [] existing = []
  table_changes order (i ∷ is) existing =
      table_change order i (find (names.table i) existing) ++ table_changes order is existing
