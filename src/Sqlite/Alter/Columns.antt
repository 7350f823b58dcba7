-- ===== src/Sqlite/Alter/Columns.antt =====
-- The loop over the columns of a table in `alter_tables` of crates/database/src/dialect/sqlite.rs.
use boomerang.Base.{
  ℕ, ◌≡◌, refl, inl, inr, true, false, not, ◌||◌, Option, some, List, [], ◌∷◌, ◌++◌, All,
  Bool-cases, Option-cases,
}
use boomerang.Base.Order.{Str}
use boomerang.Base.Panic.{◌>>=◌}
use boomerang.Interner.Symbol.{Symbol}
use boomerang.Schema.Types.{DatabaseSchema}
use boomerang.Schema.Lookup.{is_primary_key}
use boomerang.Sqlite.Default.{sqlite_type, eq_ignore_case}
use boomerang.Sqlite.Live.{Entries, LiveColumn, find, without}
use boomerang.Sqlite.Alter.{Scan, scan, differ}
use boomerang.Sqlite.Alter.Names.{Names, IsColumn}

module _ {I : Type 0} (resolve : I → Symbol → Option Str) (schema : DatabaseSchema I)
    (names : Names) where
  abbrev pub Reads : ℕ → Type 0
  Reads = IsColumn resolve schema names

  append-Reads : (xs : List ℕ) (j : ℕ) → All Reads xs → Reads j → All Reads (xs ++ j ∷ [])
  append-Reads [] j all is = (is, tt)
  append-Reads (x ∷ xs) j all is = (all.0, append-Reads xs j all.1 is)

  -- The loop ends, and adds columns of the table alone.
  pub scan_ends :
      (js added : List ℕ) (live : Entries LiveColumn)
      → All Reads js
      → All Reads added
      → (s : Scan) × (scan resolve schema js added live ≡ some s) × All Reads s.added
  unfolding scan
  scan_ends [] added live each before =
      (record { rebuild = false; added = added; live_cols = live }, refl, before)
  scan_ends (j ∷ js) added live each before =
      let is : IsColumn resolve schema names j = each.0 in
      let rest = without (names.name j) live in
      let stopped : Scan = record { rebuild = true; added = added; live_cols = rest } in
      elim (Option-cases (find (names.name j) live)) [
        | inl gone ↦ elim (Bool-cases (is_primary_key (names.column j))) [
          | inl key ↦ (stopped, rw (scan, is.meta, is.named, ◌>>=◌, gone, key) refl, before)
          | inr no_key ↦
              let (s, e, reads) =
                scan_ends js (added ++ j ∷ []) rest each.1 (append-Reads added j before is) in
              (s, rw (scan, is.meta, is.named, ◌>>=◌, gone, no_key) e, reads)
        ]
        | inr (l, found) ↦
            let c = names.column j in
            elim (Bool-cases (
              not (eq_ignore_case l.ty (sqlite_type c.data_type))
              || differ l.pk (is_primary_key c))) [
                | inl stop ↦
                    (stopped, rw (scan, is.meta, is.named, ◌>>=◌, found, stop) refl, before)
                | inr stays ↦
                    let (s, e, reads) = scan_ends js added rest each.1 before in
                    (s, rw (scan, is.meta, is.named, ◌>>=◌, found, stays) e, reads)
              ]
      ]
