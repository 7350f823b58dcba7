-- ===== src/Sqlite/Alter/Reading.antt =====
-- The texts that `alter_tables` of crates/database/src/dialect/sqlite.rs writes for a live table, read as
-- SQL reads them.
use boomerang.Base.{
  ℕ, ◌≡◌, refl, false, Option, none, some, [], ◌∷◌, ◌++◌, ◌==◌, if◌then◌else◌, arith,
}
use boomerang.Base.Order.{Str}
use boomerang.Base.Panic.{◌>>=◌}
use boomerang.Base.Text.{codes}
use boomerang.Interner.Symbol.{Symbol}
use boomerang.Sql.Quote.{ident, read_token, read_token-ident-lit}
use boomerang.Sqlite.Alter.{drop_text}

-- What a text says: the table that it drops, the column that it adds to a table, with the name of its
-- type, or the column that it drops of a table.
pub data Reading : Type 0 where
  drops : Str → Reading
  adds : Str → Str → Str → Reading
  loses : Str → Str → Reading

-- What stands behind the words at the front of a text.
unfoldable pub behind : Str → Str → Option Str
behind [] s = some s
behind (c ∷ cs) [] = none
behind (c ∷ cs) (d ∷ ds) = let rest = behind cs ds in if d == c then rest else none

-- A word ends before a space or a semicolon.
unfoldable pub word : Str → Str
word [] = []
word (c ∷ cs) = let rest = word cs in if c == 32 then [] else (if c == 59 then [] else c ∷ rest)

-- Behind the name of a table that is altered.
unfoldable pub read_change : Str → Str → Option Reading
unfolding behind word read_token
read_change table s = elim (behind (codes " ADD COLUMN ") s) [
  | some rest ↦ do
    (name, rest') ← read_token b'"' rest
    rest'' ← behind (codes " ") rest'
    some (adds table name (word rest''))
  | none ↦ do
    rest ← behind (codes " DROP COLUMN ") s
    (name, rest') ← read_token b'"' rest
    rest'' ← behind (codes ";") rest'
    some (loses table name)
]

-- The first statement of a text, where it is one of these.
unfoldable pub read_statement : Str → Option Reading
unfolding behind read_token read_change
read_statement s = elim (behind (codes "DROP TABLE IF EXISTS ") s) [
  | some rest ↦ do
    (table, rest') ← read_token b'"' rest
    rest'' ← behind (codes ";") rest'
    some (drops table)
  | none ↦ do
    rest ← behind (codes "ALTER TABLE ") s
    (table, rest') ← read_token b'"' rest
    read_change table rest'
]

read_name :
    (s : Str) (c : ℕ) (rest : Str)
    → (c == b'"') ≡ false
    → (c == b'\'') ≡ false
    → read_token b'"' (ident s ++ (c ∷ rest)) ≡ some (s, c ∷ rest)
read_name s c rest h k =
    (read_token-ident-lit s (c ∷ rest) (λ e. ground (arith, h, e)) (λ e. ground (arith, k, e))).0

pub read_drop : (table : Str) → read_statement (drop_text table) ≡ some (drops table)
unfolding read_statement behind drop_text
read_drop table = rw (read_name table 59 (10 ∷ []) refl refl, ◌>>=◌) refl
