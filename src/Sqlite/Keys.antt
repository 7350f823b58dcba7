-- ===== src/Sqlite/Keys.antt =====
-- When `setup_triggers` of crates/database/src/dialect/sqlite.rs refuses a schema.
use boomerang.Base.{
  ℕ, zero, suc, ◌+◌, ◌%◌, ◌^◌, ◌<◌, ◌≤◌, ◌≡◌, refl, sym, ap, ◌∙◌, ◌⊎◌, inl, inr, Option, none, some,
  [], ◌++◌, length, get_elem?-lt, arith, Option-cases,
}
use mathlib.Core.Path.{subst}
use boomerang.Base.Order.{Str}
use boomerang.Base.Outcome.{Run, ok, err}
use boomerang.Base.Search.{eq_cases}
use boomerang.Base.Text.{codes}
use boomerang.Interner.Symbol.{Symbol}
use boomerang.Schema.Types.{DatabaseSchema}
use boomerang.Schema.Lookup.{table_name, column_name, primary_key}
use boomerang.Builder.Sort.{range}
use boomerang.Sqlite.Trigger.{table_triggers, all_triggers, triggers, triggers_text, events}

unfoldable pub no_key_reason : Str → Str
no_key_reason name = codes "Table " ++ (name ++ codes " has no primary key")

module _ {I : Type 0} (resolve : I → Symbol → Option Str) (schema : DatabaseSchema I) where
  -- The names of the tables and of the primary keys resolve.
  pub record IsNamed : Type 0 where
    pub tables :
        (i : ℕ)
        → i < length schema.tables
        → (name : Str) × (table_name resolve schema i ≡ some name)
    pub keys :
        (i column : ℕ)
        → primary_key schema i ≡ some (some column)
        → (name : Str) × (column_name resolve schema column ≡ some name)

  unfoldable pub HasKey : ℕ → Type 0
  HasKey i = (column : ℕ) × (primary_key schema i ≡ some (some column))

  -- A table without a primary key behind tables that have one, and the error of that.
  unfoldable pub IsRefused : ℕ → ℕ → Run Str Str → Type 0
  IsRefused from to result =
      (i : ℕ) × (name : Str) × (from ≤ i)
      × (i < to)
      × (primary_key schema i ≡ some none)
      × (table_name resolve schema i ≡ some name)
      × ((j : ℕ) → from ≤ j → j < i → HasKey j)
      × (result ≡ err (no_key_reason name))

  unfoldable pub IsAccepted : ℕ → ℕ → Run Str Str → Type 0
  IsAccepted from to result =
      (text : Str) × (result ≡ ok text) × ((j : ℕ) → from ≤ j → j < to → HasKey j)

  key_cases : (i : ℕ) → i < length schema.tables → HasKey i ⊎ (primary_key schema i ≡ some none)
  unfolding HasKey primary_key
  key_cases i h =
      let (t, at) = get_elem?-lt schema.tables i h in
      elim (Option-cases t.primary_key) [
        | inl e ↦ inr (rw (primary_key, at, e) refl)
        | inr (k, e) ↦ inl (t.columns_start + k, rw (primary_key, at, e) refl)
      ]

  all_triggers_lem :
      (named : IsNamed) (n i : ℕ)
      → i + n ≤ length schema.tables
      → IsAccepted i (i + n) (all_triggers resolve schema (range i n))
        ⊎ IsRefused i (i + n) (all_triggers resolve schema (range i n))
  unfolding all_triggers table_triggers range IsAccepted IsRefused HasKey no_key_reason
  all_triggers_lem named zero i h = inl ([], refl, λ j p q. absurd (ground (arith, p, q)))
  all_triggers_lem named (suc n) i h =
      let low : i < length schema.tables = omega (arith, h) in
      let (name, at) = named.tables i low in
      elim (key_cases i low) [
        | inr gone ↦ inr (
          i,
          name,
          omega arith,
          omega arith,
          gone,
          at,
          (λ j p q. absurd (ground (arith, p, q))),
          rw (all_triggers, table_triggers, at, gone) refl,
        )
        | inl (k, key) ↦
            let (column, at') = named.keys i k key in
            elim (all_triggers_lem named n (suc i) (omega (arith, h))) [
              | inl (text, e, all) ↦ inl (
                triggers_text name column events ++ text,
                rw (all_triggers, table_triggers, at, key, at', e) refl,
                λ j p q. elim (eq_cases i j) [
                  | inl same ↦ (k, ap (primary_key schema) (sym same) ∙ key)
                  | inr ne ↦ all j (ground (arith, p, ne)) (ground (arith, q))
                ],
              )
              | inr (j, other, p, q, gone, named_j, before, e) ↦ inr (
                j,
                other,
                omega (arith, p),
                omega (arith, q),
                gone,
                named_j,
                (λ m p' q'. elim (eq_cases i m) [
                  | inl same ↦ (k, ap (primary_key schema) (sym same) ∙ key)
                  | inr ne ↦ before m (ground (arith, p', ne)) q'
                ]),
                rw (all_triggers, table_triggers, at, key, at', e) refl,
              )
            ]
      ]

  -- In a schema of fewer than 2 ^ 16 tables, whose names resolve, each table has a primary key and the
  -- text of the triggers is made, or it is refused with the name of the first table that has none.
  pub triggers_lem :
      IsNamed
      → length schema.tables < 2 ^ 16
      → IsAccepted 0 (length schema.tables) (triggers resolve schema)
        ⊎ IsRefused 0 (length schema.tables) (triggers resolve schema)
  unfolding triggers
  triggers_lem named few =
      let n = length schema.tables in
      let all : ℕ → Run Str Str = λ m. all_triggers resolve schema (range 0 m) in
      let cast : n % 2 ^ 16 ≡ n = ground (arith, few) in
      let e : all n ≡ triggers resolve schema = ap all (sym cast) in
      let count : 0 + n ≡ n = omega arith in
      subst (λ r. IsAccepted 0 n r ⊎ IsRefused 0 n r) e
        (subst (λ m. IsAccepted 0 m (all n) ⊎ IsRefused 0 m (all n)) count
          (all_triggers_lem named n 0 (omega arith)))
