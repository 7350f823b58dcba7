-- ===== src/Schema/Codec/Bytes.antt =====
-- Little-endian integers, and reading from the front of a byte slice: the macros of `decode` in
-- crates/database/src/core/schema.rs. A decoder takes what `ptr` has not passed and returns what it
-- leaves.
use boomerang.Base.{
  ℕ, zero, suc, ◌^◌, ◌<◌, ◌≡◌, List, [], ◌∷◌, ◌++◌, length, take, drop, take-append, drop-append,
  length-append, leb, if◌then◌else◌, arith,
}
use boomerang.Base.LittleEndian.{le_bytes, from_le_bytes, length-le_bytes, from_le_bytes-le_bytes}
use boomerang.Base.Outcome.{Run, ok, err, panic, stuck}

-- How a read can fail: `decode` returns `None`, and in `decode_unchecked` behaviour is undefined.
pub data Fault : Type 0 where
  missing undefined : Fault

abbrev pub Decoder : Type 0 → Type 0
Decoder A = List ℕ → Run Fault (A × List ℕ)

abbrev pub continue :
    {A B : Type 0} → (A → Decoder B) → Run Fault (A × List ℕ) → Run Fault (B × List ℕ)
continue f (ok (a, rest)) = f a rest
continue f (err e) = err e
continue f panic = panic
continue f stuck = stuck

infixl 5 ◌>>=◌
abbrev pub ◌>>=◌ : {A B : Type 0} → Decoder A → (A → Decoder B) → Decoder B
◌>>=◌ d f buf = continue f (d buf)

abbrev pub pure : {A : Type 0} → A → Decoder A
pure a buf = ok (a, buf)

abbrev pub lift : {A : Type 0} → Run Fault A → Decoder A
lift (ok a) buf = ok (a, buf)
lift (err e) buf = err e
lift panic buf = panic
lift stuck buf = stuck

module _ (fault : Fault) where
  unfoldable pub read_bytes : ℕ → Decoder (List ℕ)
  read_bytes n buf = if leb n (length buf) then ok (take n buf, drop n buf) else err fault

  unfoldable pub read_uint : ℕ → Decoder ℕ
  unfolding read_bytes
  read_uint n = do bs ← read_bytes n; pure (from_le_bytes bs)

  pub read_bytes-append :
      (bs rest : List ℕ) (n : ℕ) → length bs ≡ n → read_bytes n (bs ++ rest) ≡ ok (bs, rest)
  unfolding read_bytes
  read_bytes-append bs rest n e =
      rw (← e) (ground (arith, length-append bs rest, take-append bs rest, drop-append bs rest))

  pub read_uint-le_bytes :
      (n v : ℕ) (rest : List ℕ) → v < 256 ^ n → read_uint n (le_bytes n v ++ rest) ≡ ok (v, rest)
  unfolding read_uint
  read_uint-le_bytes n v rest h =
      rw (
        read_bytes-append (le_bytes n v) rest n (length-le_bytes n v),
        from_le_bytes-le_bytes n v h,
      )

-- `for _ in 0..n { push(item) }`
unfoldable pub read_many : {A : Type 0} → ℕ → Decoder A → Decoder (List A)
read_many zero d = pure []
read_many (suc n) d = do x ← d; xs ← read_many n d; pure (x ∷ xs)
