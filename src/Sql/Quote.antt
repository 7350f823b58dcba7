-- ===== src/Sql/Quote.antt =====
-- `Ident` and `Lit` of crates/database/src/core.rs: quoted identifiers and string literals. A text is
-- the list of its characters' code points.
use boomerang.Base.{
  ℕ, ◌≡◌, ◌≢◌, Option, none, some, List, [], ◌∷◌, ◌++◌, false, ◌==◌, ==_refl, if◌then◌else◌, arith,
}
use native.Mathlib.Decide.{ℕ_discrete}
use mathlib.Core.List.{append_assoc}

-- The loop over `chars`: a quote is written twice.
unfoldable pub escape : ℕ → List ℕ → List ℕ
escape q [] = []
escape q (c ∷ cs) = let rest = escape q cs in if c == q then q ∷ (c ∷ rest) else c ∷ rest

-- `Display for Ident`
unfoldable pub ident : List ℕ → List ℕ
unfolding escape
ident s = b'"' ∷ (escape b'"' s ++ (b'"' ∷ []))

-- `Display for Lit`
unfoldable pub lit : List ℕ → List ℕ
unfolding escape
lit s = b'\'' ∷ (escape b'\'' s ++ (b'\'' ∷ []))

-- How SQL reads a quoted token behind its opening quote: two quotes are one character, and one quote
-- ends it. Returns the text and what follows, or `none` where the token does not end.
abbrev cons_text : ℕ → Option (List ℕ × List ℕ) → Option (List ℕ × List ℕ)
cons_text c none = none
cons_text c (some (s, rest)) = some (c ∷ s, rest)

unfoldable pub read_quoted : ℕ → List ℕ → Option (List ℕ × List ℕ)
read_quoted q [] = none
read_quoted q (c ∷ []) = if c == q then some ([], []) else none
read_quoted q (c ∷ d ∷ cs) =
    let more = cons_text c (read_quoted q (d ∷ cs)) in
    let pair = cons_text c (read_quoted q cs) in
    if c == q then (if d == q then pair else some ([], d ∷ cs)) else more

-- What does not begin with the quote.
abbrev pub StartsOther : ℕ → List ℕ → Type 0
StartsOther q [] = Unit {0}
StartsOther q (c ∷ cs) = c ≢ q

==_ne : (a b : ℕ) → a ≢ b → (a == b) ≡ false
==_ne a b h = ground arith

read_quoted-end :
    (q : ℕ) (rest : List ℕ) → StartsOther q rest → read_quoted q (q ∷ rest) ≡ some ([], rest)
unfolding read_quoted
read_quoted-end q [] h = ground arith
read_quoted-end q (c ∷ cs) h = ground arith

read_quoted-plain :
    (q c : ℕ) (cs : List ℕ) → c ≢ q → read_quoted q (c ∷ cs) ≡ cons_text c (read_quoted q cs)
unfolding read_quoted
read_quoted-plain q c [] h = ground arith
read_quoted-plain q c (d ∷ cs) h = ground arith

read_quoted-pair :
    (q : ℕ) (cs : List ℕ) → read_quoted q (q ∷ q ∷ cs) ≡ cons_text q (read_quoted q cs)
unfolding read_quoted
read_quoted-pair q cs = ground arith

read_quoted-escape :
    (q : ℕ) (s rest : List ℕ)
    → StartsOther q rest
    → read_quoted q (escape q s ++ (q ∷ rest)) ≡ some (s, rest)
unfolding escape
read_quoted-escape q [] rest h = read_quoted-end q rest h
read_quoted-escape q (c ∷ cs) rest h = elim (ℕ_discrete c q) [
  | yes e ↦ rw (e, ==_refl q, read_quoted-pair, read_quoted-escape q cs rest h)
  | no n ↦ rw (==_ne c q n, read_quoted-plain q c _ n, read_quoted-escape q cs rest h)
]

-- The token at the front of a text, its opening quote included.
unfoldable pub read_token : ℕ → List ℕ → Option (List ℕ × List ℕ)
unfolding read_quoted
read_token q [] = none
read_token q (c ∷ cs) = if c == q then read_quoted q cs else none

-- Whatever characters a name or a value holds, SQL reads the quoted token back as that text and goes
-- on behind it, provided that what follows does not begin with the same quote: the text cannot end
-- its token early.
pub read_token-ident-lit :
    (s rest : List ℕ)
    → StartsOther b'"' rest
    → StartsOther b'\'' rest
    → (read_token b'"' (ident s ++ rest) ≡ some (s, rest))
      × (read_token b'\'' (lit s ++ rest) ≡ some (s, rest))
unfolding read_token ident lit
read_token-ident-lit s rest h k = (
  rw (append_assoc (escape b'"' s) (b'"' ∷ []) rest) (read_quoted-escape b'"' s rest h),
  rw (append_assoc (escape b'\'' s) (b'\'' ∷ []) rest) (read_quoted-escape b'\'' s rest k),
)
