-- ===== src/Base/Panic.antt =====
-- A call that may panic is an `Option`: `none` is the panic.
use mathlib.Core.Path.{◌≡◌, refl}
use mathlib.Core.Option.{Option, none, some}

infixl 5 ◌>>=◌
abbrev pub ◌>>=◌ {ℓ} : {A B : Type ℓ} → Option A → (A → Option B) → Option B
none >>= rest = none
some done >>= rest = rest done

-- A call that returned had parts that returned.
pub >>=-eq-some {ℓ} :
    {A B : Type ℓ} (call : Option A) (rest : A → Option B) {result : B}
    → (call >>= rest) ≡ some result
    → (part : A) × (call ≡ some part) × (rest part ≡ some result)
>>=-eq-some none rest ended = cc
>>=-eq-some (some part) rest ended = (part, refl, ended)
