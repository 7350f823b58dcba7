-- ===== src/Builder/Sort.antt =====
-- `sort_unstable_by_key` of the standard library, as crates/database/src/core/schema_builder.rs calls
-- it, on table indices: some ascending order of them. Indices with equal keys keep their order here.
use boomerang.Base.{ℕ, zero, suc, List, [], ◌∷◌, leb, if◌then◌else◌}

module _ (key : ℕ → ℕ) where
  unfoldable pub insert_by_key : ℕ → List ℕ → List ℕ
  insert_by_key i [] = i ∷ []
  insert_by_key i (j ∷ js) =
      let later = insert_by_key i js in if leb (key i) (key j) then i ∷ j ∷ js else j ∷ later

  unfoldable pub sort_by_key : List ℕ → List ℕ
  unfolding insert_by_key
  sort_by_key [] = []
  sort_by_key (i ∷ is) = insert_by_key i (sort_by_key is)

-- `(from..from + n).collect()`
unfoldable pub range : ℕ → ℕ → List ℕ
range from zero = []
range from (suc n) = from ∷ range (suc from) n
