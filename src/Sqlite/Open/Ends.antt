-- ===== src/Sqlite/Open/Ends.antt =====
-- A call that fails or returns a value of a predicate, as the operations of
-- crates/database/src/dialect/sqlite.rs are built of.
use boomerang.Base.{◌≡◌, refl, ◌⊎◌, inl, inr, Option, none, some}
use boomerang.Base.Outcome.{Run, ok, err, or_fail, ◌>>=◌}
use boomerang.Sqlite.Open.{or_err}

-- The call returned an error, or a value of the predicate.
unfoldable pub Ends : {E A : Type 0} → (A → Type 0) → Run E A → Type 0
Ends {E} {A} P r = ((e : E) × (r ≡ err e)) ⊎ ((a : A) × (r ≡ ok a) × P a)

pub Ends->>= :
    {E A B : Type 0} (P : A → Type 0) (Q : B → Type 0) (first : Run E A) (next : A → Run E B)
    → Ends P first
    → ((a : A) → first ≡ ok a → P a → Ends Q (next a))
    → Ends Q (first >>= next)
unfolding Ends
Ends->>= P Q first next (inl (e, h)) k = inl (e, rw h refl)
Ends->>= P Q first next (inr (a, h, p)) k = elim (k a h p) [
  | inl (e, g) ↦ inl (e, rw h g)
  | inr (b, g, q) ↦ inr (b, rw h g, q)
]

pub Ends-map :
    {E A : Type 0} (P Q : A → Type 0) (r : Run E A) → Ends P r → ((a : A) → P a → Q a) → Ends Q r
unfolding Ends
Ends-map P Q r (inl failed) k = inl failed
Ends-map P Q r (inr (a, h, p)) k = inr (a, h, k a p)

pub result_cases : {D A : Type 0} (r : D ⊎ A) → ((d : D) × (r ≡ inl d)) ⊎ ((a : A) × (r ≡ inr a))
result_cases (inl d) = inl (d, refl)
result_cases (inr a) = inr (a, refl)

pub or_err-Ends : {E A : Type 0} (e : E) (o : Option A) → Ends (λ a. o ≡ some a) (or_err e o)
unfolding Ends
or_err-Ends e none = inl (e, refl)
or_err-Ends e (some a) = inr (a, refl, refl)

pub or_fail-Ends : {D E A : Type 0} (f : D → E) (r : D ⊎ A) → Ends (λ a. r ≡ inr a) (or_fail f r)
unfolding Ends
or_fail-Ends f (inl d) = inl (f d, refl)
or_fail-Ends f (inr a) = inr (a, refl, refl)
