-- ===== src/Schema/Codec/Extends.antt =====
-- One decoder of crates/database/src/core/schema.rs beside another on more input: rules for each way
-- in which a decoder is built.
use boomerang.Base.{
  ℕ, zero, suc, ◌≤◌, ◌≡◌, refl, ap, Bool, true, false, Option, none, some, List, [], ◌∷◌, ◌++◌,
  length, take, drop, length-append, if◌then◌else◌, arith,
}
use boomerang.Base.Outcome.{Run, ok, err, panic, stuck}
use boomerang.Schema.Codec.Bytes.{
  Fault, Decoder, continue, ◌>>=◌, pure, lift, read_bytes, read_many,
}
use boomerang.Schema.Codec.Read.{present}

-- `e` returns or panics where `d` does, and behind the bytes that `d` took it leaves the rest.
pub record Extends {A : Type 0} (d e : Decoder A) : Type 0 where
  pub returns :
      (buf more : List ℕ) (a : A) (rest : List ℕ)
      → d buf ≡ ok (a, rest)
      → e (buf ++ more) ≡ ok (a, rest ++ more)
  pub panics : (buf more : List ℕ) → d buf ≡ panic → e (buf ++ more) ≡ panic

-- The same of calls that read nothing.
pub record Follows {A : Type 0} (r s : Run Fault A) : Type 0 where
  pub returns : (a : A) → r ≡ ok a → s ≡ ok a
  pub panics : r ≡ panic → s ≡ panic

module _ {A B : Type 0} where
  pub Extends-bind :
      (d d' : Decoder A) (f f' : A → Decoder B)
      → Extends d d'
      → ((a : A) → Extends (f a) (f' a))
      → Extends (d >>= f) (d' >>= f')
  Extends-bind d d' f f' p q = record {
    returns = λ buf more b rest h. go buf more b rest (d buf) refl h;
    panics = λ buf more h. go_panic buf more (d buf) refl h;
  }
    where
      go :
          (buf more : List ℕ) (b : B) (rest : List ℕ) (r : Run Fault (A × List ℕ))
          → d buf ≡ r
          → continue f r ≡ ok (b, rest)
          → continue f' (d' (buf ++ more)) ≡ ok (b, rest ++ more)
      go buf more b rest (ok (a, r)) e h =
          rw (p.returns buf more a r e) ((q a).returns r more b rest h)
      go buf more b rest (err x) e h = cc
      go buf more b rest panic e h = cc
      go buf more b rest stuck e h = cc

      go_panic :
          (buf more : List ℕ) (r : Run Fault (A × List ℕ))
          → d buf ≡ r
          → continue f r ≡ panic
          → continue f' (d' (buf ++ more)) ≡ panic
      go_panic buf more (ok (a, r)) e h = rw (p.returns buf more a r e) ((q a).panics r more h)
      go_panic buf more (err x) e h = cc
      go_panic buf more panic e h = rw (p.panics buf more e)
      go_panic buf more stuck e h = cc

module _ {A : Type 0} where
  pub Extends-pure : (a : A) → Extends (pure a) (pure a)
  Extends-pure a = record { returns = λ buf more b rest h. ground arith; panics = λ buf more h. cc }

  pub Extends-lift : (r s : Run Fault A) → Follows r s → Extends (lift r) (lift s)
  Extends-lift (ok a) s p = record {
    returns = λ buf more b rest h. rw (p.returns a refl) (ground arith);
    panics = λ buf more h. cc;
  }
  Extends-lift (err x) s p = record { returns = λ buf more b rest h. cc; panics = λ buf more h. cc }
  Extends-lift panic s p = record {
    returns = λ buf more b rest h. cc;
    panics = λ buf more h. rw (p.panics refl);
  }
  Extends-lift stuck s p = record { returns = λ buf more b rest h. cc; panics = λ buf more h. cc }

  pub Extends-if :
      (b : Bool) (d d' e e' : Decoder A)
      → Extends d e
      → Extends d' e'
      → Extends (if b then d else d') (if b then e else e')
  Extends-if true d d' e e' p q = p
  Extends-if false d d' e e' p q = q

  take-more : (n : ℕ) (xs ys : List A) → n ≤ length xs → take n (xs ++ ys) ≡ take n xs
  take-more zero xs ys h = refl
  take-more (suc n) [] ys h = absurd (omega arith)
  take-more (suc n) (x ∷ xs) ys h = ap (λ t. x ∷ t) (take-more n xs ys (omega arith))

  drop-more : (n : ℕ) (xs ys : List A) → n ≤ length xs → drop n (xs ++ ys) ≡ drop n xs ++ ys
  drop-more zero xs ys h = refl
  drop-more (suc n) [] ys h = absurd (omega arith)
  drop-more (suc n) (x ∷ xs) ys h = drop-more n xs ys (omega arith)

module _ (f g : Fault) where
  pub read_bytes-Extends : (n : ℕ) → Extends (read_bytes f n) (read_bytes g n)
  unfolding read_bytes
  read_bytes-Extends n = record {
    returns = λ buf more a rest h.
        ground (arith, length-append buf more, take-more n buf more, drop-more n buf more);
    panics = λ buf more h. ground arith;
  }

  pub Follows-present : {A : Type 0} (o : Option A) → Follows (present f o) (present g o)
  Follows-present none = record { returns = λ a h. cc; panics = λ h. cc }
  Follows-present (some b) = record { returns = λ a h. h; panics = λ h. cc }

pub Follows-self : {A : Type 0} (r : Run Fault A) → Follows r r
Follows-self r = record { returns = λ a h. h; panics = λ h. h }

pub read_many-Extends :
    {A : Type 0} (d e : Decoder A) → Extends d e → (n : ℕ) → Extends (read_many n d) (read_many n e)
unfolding read_many
read_many-Extends d e p zero = Extends-pure []
read_many-Extends d e p (suc n) =
    Extends-bind _ _ _ _ p
      (λ x. Extends-bind _ _ _ _ (read_many-Extends d e p n) (λ xs. Extends-pure (x ∷ xs)))

pub ruleset extends_rules = (
  Extends-bind, Extends-pure, Extends-lift, Extends-if, read_bytes-Extends, Follows-present,
  Follows-self, read_many-Extends,
)
