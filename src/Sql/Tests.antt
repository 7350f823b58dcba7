-- ===== src/Sql/Tests.antt =====
-- The theorems about the SQL text at concrete inputs.
use boomerang.Base.{ℕ, ◌≡◌, refl, some, List, [], ◌∷◌, ◌++◌, arith}
use boomerang.Sql.Quote.{ident, lit, read_token, read_token-ident-lit}

-- The name a"b'c
abbrev awkward : List ℕ
awkward = b'a' ∷ b'"' ∷ b'b' ∷ b'\'' ∷ b'c' ∷ []

ident-awkward : ident awkward ≡ b'"' ∷ b'a' ∷ b'"' ∷ b'"' ∷ b'b' ∷ b'\'' ∷ b'c' ∷ b'"' ∷ []
unfolding ident
ident-awkward = refl

read_token-ident-lit_example :
    (read_token b'"' (ident awkward ++ (b' ' ∷ b'x' ∷ [])) ≡ some (awkward, b' ' ∷ b'x' ∷ []))
    × (read_token b'\'' (lit awkward ++ (b' ' ∷ b'x' ∷ [])) ≡ some (awkward, b' ' ∷ b'x' ∷ []))
read_token-ident-lit_example =
    read_token-ident-lit awkward (b' ' ∷ b'x' ∷ []) (omega arith) (omega arith)
