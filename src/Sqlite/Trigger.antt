-- ===== src/Sqlite/Trigger.antt =====
-- The texts that create and drop the triggers, in crates/database/src/dialect/sqlite.rs. `resolve` is
-- `StringInterner::resolve`; `none` of an outer option is a panic.
use boomerang.Base.{ℕ, ◌%◌, ◌^◌, Option, none, some, List, [], ◌∷◌, ◌++◌, length}
use boomerang.Base.Order.{Str}
use boomerang.Base.Outcome.{Run, ok, err, panic, ◌>>=◌}
use boomerang.Base.Text.{codes}
use boomerang.Interner.Symbol.{Symbol}
use boomerang.Schema.Types.{DatabaseSchema}
use boomerang.Schema.Lookup.{table_name, column_name, primary_key}
use boomerang.Builder.Sort.{range}
use boomerang.Sql.Quote.{ident, lit}

-- The logged operation: the event, its letter and the row that has the key.
pub record Event : Type 0 where
  pub event : Str
  pub op : ℕ
  pub row : Str

abbrev pub events : List Event
events =
    record { event = codes "INSERT"; op = 73; row = codes "NEW" }
    ∷ record { event = codes "UPDATE"; op = 85; row = codes "NEW" }
    ∷ record { event = codes "DELETE"; op = 68; row = codes "OLD" }
    ∷ []

-- The name of a trigger, and the name of a table in the log.
unfoldable pub trigger_name : Str → Event → Str
trigger_name table e = codes "__trg_" ++ (table ++ (95 ∷ (e.event ++ codes "_sync_log__")))

unfoldable pub logged_name : Str → Str
logged_name table = codes "public." ++ table

unfoldable pub trigger_text : Str → Str → Event → Str
unfolding ident lit trigger_name logged_name
trigger_text table key e =
    codes "CREATE TRIGGER IF NOT EXISTS "
    ++ (ident (trigger_name table e)
        ++ (codes " AFTER "
            ++ (e.event
                ++ (codes " ON "
                    ++ (ident table
                        ++ (codes
                              " FOR EACH ROW BEGIN INSERT INTO __sync_log__ (table_name, record_id, op_type, version, updated_at) VALUES ("
                            ++ (lit (logged_name table)
                                ++ (codes ", CAST("
                                    ++ (e.row
                                        ++ (46
                                            ∷ (ident key
                                                ++ (codes " AS TEXT), '"
                                                    ++ (e.op
                                                        ∷ (codes
                                                            "', 1, CAST((julianday('now') - 2440587.5) * 86400000 AS INTEGER)) ON CONFLICT (table_name, record_id) DO UPDATE SET op_type = excluded.op_type, version = version + 1, updated_at = excluded.updated_at; END;"
                                                            ++ 10 ∷ []))))))))))))))

unfoldable pub triggers_text : Str → Str → List Event → Str
unfolding trigger_text
triggers_text table key [] = []
triggers_text table key (e ∷ es) = trigger_text table key e ++ triggers_text table key es

-- A call that may panic, in a call that may fail.
abbrev pub or_panic : {A : Type 0} → Option A → Run Str A
or_panic none = panic
or_panic (some a) = ok a

module _ {I : Type 0} (resolve : I → Symbol → Option Str) (schema : DatabaseSchema I) where
  -- One round of the loop over the tables. The error is the reason of `SetupFailed`.
  unfoldable pub table_triggers : ℕ → Run Str Str
  unfolding table_name column_name primary_key triggers_text
  table_triggers table = or_panic (table_name resolve schema table) >>= λ name.
      or_panic (primary_key schema table) >>= λ key. elim key [
        | none ↦ err (codes "Table " ++ (name ++ codes " has no primary key"))
        | some column ↦ or_panic (column_name resolve schema column) >>= λ primary_col.
            ok (triggers_text name primary_col events)
      ]

  unfoldable pub all_triggers : List ℕ → Run Str Str
  unfolding table_triggers
  all_triggers [] = ok []
  all_triggers (table ∷ tables) =
      table_triggers table >>= λ first. all_triggers tables >>= λ rest. ok (first ++ rest)

  -- `setup_triggers` in front of the transaction.
  unfoldable pub triggers : Run Str Str
  unfolding all_triggers range
  triggers = all_triggers (range 0 (length schema.tables % 2 ^ 16))

-- The text of `drop_triggers`.
unfoldable pub drop_triggers : List Str → Str
unfolding ident
drop_triggers [] = []
drop_triggers (name ∷ names) =
    codes "DROP TRIGGER IF EXISTS " ++ (ident name ++ (59 ∷ 10 ∷ drop_triggers names))
