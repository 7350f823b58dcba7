-- ===== src/Sqlite/Live.antt =====
-- The tables that a SQLite database has, as `alter_tables` of crates/database/src/dialect/sqlite.rs
-- keeps them: a `HashMap` of `HashMap`s, each an association list. `D` is sqlx's error.
use boomerang.Base.{
  ◌≡◌, refl, sym, ◌∙◌, ◌⊎◌, inl, inr, ◌≢◌, Bool, true, false, not, Option, none, some, List, [],
  ◌∷◌, ◌==◌, if◌then◌else◌, Bool-cases, Option-cases, arith,
}
use boomerang.Base.Int.{ℤ, pos, negsuc}
use boomerang.Base.Order.{Str, eq_str, eq_str_eq}
use boomerang.Base.Outcome.{Run, ok, ◌>>=◌, or_fail}
use boomerang.Dialect.{DatabaseError, sqlx_error}

abbrev pub Entries : Type 0 → Type 0
Entries A = List (Str × A)

-- Whether a key is in a list.
unfoldable pub has : Str → List Str → Bool
has key [] = false
has key (k ∷ ks) = let rest = has key ks in if eq_str k key then true else rest

module _ {A : Type 0} where
  unfoldable pub find : Str → Entries A → Option A
  find key [] = none
  find key (e ∷ es) = let rest = find key es in if eq_str e.0 key then some e.1 else rest

  -- What `remove` leaves.
  unfoldable pub without : Str → Entries A → Entries A
  without key [] = []
  without key (e ∷ es) = let rest = without key es in if eq_str e.0 key then rest else e ∷ rest

  unfoldable pub insert : Str → A → Entries A → Entries A
  insert key value [] = (key, value) ∷ []
  insert key value (e ∷ es) =
      let rest = insert key value es in if eq_str e.0 key then (key, value) ∷ es else e ∷ rest

  unfoldable pub keys : Entries A → List Str
  keys [] = []
  keys (e ∷ es) = e.0 ∷ keys es

  pub find-without_other :
      (key other : Str) (es : Entries A) → key ≢ other → find key (without other es) ≡ find key es
  unfolding find without
  find-without_other key other [] ne = refl
  find-without_other key other (e ∷ es) ne =
      let rest = find-without_other key other es ne in
      elim (Bool-cases (eq_str e.0 other)) [
        | inl same ↦ elim (Bool-cases (eq_str e.0 key)) [
          | inl both ↦ absurd (ne (sym (eq_str_eq e.0 key both) ∙ eq_str_eq e.0 other same))
          | inr no_key ↦ rw (without, find, same, no_key) rest
        ]
        | inr differ ↦ elim (Bool-cases (eq_str e.0 key)) [
          | inl hit ↦ rw (without, find, differ, hit) refl
          | inr no_key ↦ rw (without, find, differ, no_key) rest
        ]
      ]

  pub has-find :
      (key : Str) (es : Entries A) {a : A} → find key es ≡ some a → has key (keys es) ≡ true
  unfolding find has keys
  has-find key [] h = cc
  has-find key (e ∷ es) {a} h = ground (arith, has-find key es {a = a})

  pub find-has : (key : Str) (es : Entries A) → find key es ≡ none → has key (keys es) ≡ false
  unfolding find has keys
  find-has key [] h = refl
  find-has key (e ∷ es) h = ground (arith, find-has key es)

  pub has-without_other :
      (key other : Str) (es : Entries A)
      → key ≢ other
      → has key (keys (without other es)) ≡ has key (keys es)
  has-without_other key other es ne =
      let same = find-without_other key other es ne in
      elim (Option-cases (find key es)) [
        | inl e ↦ find-has key (without other es) (same ∙ e) ∙ sym (find-has key es e)
        | inr (a, e) ↦ has-find key (without other es) (same ∙ e) ∙ sym (has-find key es e)
      ]

-- A column's type and whether it is in the primary key.
pub record LiveColumn : Type 0 where
  pub ty : Str
  pub pk : Bool

-- What `try_get` answers for each column of a row of the query.
pub record RawColumn (D : Type 0) : Type 0 where
  pub table : D ⊎ Str
  pub column : D ⊎ Str
  pub ty : D ⊎ Str
  pub pk : D ⊎ ℤ

unfoldable pub is_zero : ℤ → Bool
is_zero (pos n) = n == 0
is_zero (negsuc n) = false

-- `entry(..).or_default()`
unfoldable pub entry_or_default : Str → Entries (Entries LiveColumn) → Entries LiveColumn
unfolding find
entry_or_default table existing = elim (find table existing) [ none ↦ [] | some cols ↦ cols ]

-- The body of the loop over the rows.
unfoldable pub add_live :
    {D : Type 0}
    → RawColumn D
    → Entries (Entries LiveColumn)
    → Run (DatabaseError D) (Entries (Entries LiveColumn))
unfolding insert entry_or_default is_zero
add_live row existing = or_fail sqlx_error row.table >>= λ table.
    or_fail sqlx_error row.column >>= λ column. or_fail sqlx_error row.ty >>= λ ty.
    or_fail sqlx_error row.pk >>= λ pk. ok (
      insert table
        (insert column (record { ty = ty; pk = not (is_zero pk) })
          (entry_or_default table existing))
        existing)

unfoldable pub add_lives :
    {D : Type 0}
    → List (RawColumn D)
    → Entries (Entries LiveColumn)
    → Run (DatabaseError D) (Entries (Entries LiveColumn))
unfolding add_live
add_lives [] existing = ok existing
add_lives (row ∷ rows) existing = add_live row existing >>= λ more. add_lives rows more
