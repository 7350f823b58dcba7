-- ===== src/Sqlite/Alter/Change.antt =====
-- The plan of `alter_tables` in crates/database/src/dialect/sqlite.rs is what the tables ask for.
use boomerang.Base.{ℕ, ◌≡◌, true, not, Option, List, ◌++◌}
use boomerang.Base.Order.{Str}
use boomerang.Interner.Symbol.{Symbol}
use boomerang.Schema.Types.{DatabaseSchema}
use boomerang.Sqlite.Live.{Entries, LiveColumn}
use boomerang.Sqlite.Alter.{Scan}
use boomerang.Sqlite.Alter.Names.{Names}
use boomerang.Sqlite.Alter.Wanted.{unnamed, all_fit, missing}

module _ (names : Names) {I : Type 0} (resolve : I → Symbol → Option Str)
    (schema : DatabaseSchema I) where
  -- What the loop over the columns leaves where it does not stop.
  IsScanned : List ℕ → List ℕ → Entries LiveColumn → Scan → Type 0
  IsScanned js added live s =
      (s.rebuild ≡ not (all_fit names live js))
      × (all_fit names live js ≡ true
          → (s.added ≡ added ++ missing names live js) × (s.live_cols ≡ unnamed names.name js live))
