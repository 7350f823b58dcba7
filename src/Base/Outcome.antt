-- ===== src/Base/Outcome.antt =====
-- What a fallible call does: it returns, returns an error, or panics. `stuck` is no Rust value: a
-- loop's fuel ran out.
use mathlib.Core.Path.{◌≡◌, refl}
use mathlib.Core.Logic.{◌⊎◌, inl, inr}

pub data Run {ℓ} (E A : Type ℓ) : Type ℓ where
  ok : A → Run E A
  err : E → Run E A
  panic : Run E A
  stuck : Run E A

-- `?` between two calls.
infixl 5 ◌>>=◌ ◌>>◌
abbrev pub ◌>>=◌ {ℓ} : {E A B : Type ℓ} → Run E A → (A → Run E B) → Run E B
panic >>= next = panic
stuck >>= next = stuck
err why >>= next = err why
ok out >>= next = next out

abbrev pub ◌>>◌ {ℓ} : {E A B : Type ℓ} → Run E A → Run E B → Run E B
first >> next = first >>= λ _. next

-- `r.map_err(f)?`
abbrev pub or_fail {ℓ} : {D E A : Type ℓ} → (D → E) → D ⊎ A → Run E A
or_fail f (inl d) = err (f d)
or_fail f (inr a) = ok a

-- A bind that returned had an action that returned.
pub >>=-eq-ok {ℓ} :
    {E A B : Type ℓ} (first : Run E A) (next : A → Run E B) {out : B}
    → (first >>= next) ≡ ok out
    → (mid : A) × (first ≡ ok mid) × (next mid ≡ ok out)
>>=-eq-ok panic next returned = cc
>>=-eq-ok stuck next returned = cc
>>=-eq-ok (err why) next returned = cc
>>=-eq-ok (ok mid) next returned = (mid, refl, returned)

pub or_fail-eq-ok {ℓ} :
    {D E A : Type ℓ} (f : D → E) (r : D ⊎ A) {a : A} → or_fail f r ≡ ok a → r ≡ inr a
or_fail-eq-ok f (inl d) h = cc
or_fail-eq-ok f (inr b) h = cc

pub ok-injective {ℓ} : {E A : Type ℓ} {a b : A} → ◌≡◌ {A = Run E A} (ok a) (ok b) → a ≡ b
ok-injective h = cc
