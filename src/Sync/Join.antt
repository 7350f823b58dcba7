-- ===== src/Sync/Join.antt =====
-- The merge-join of two keyed lists xs a plain function, and what it finds at each key: the
-- independent description that crates/database/src/sync/truth_table.rs is held against.
use Prim.Native.Nat.{Ordering}
use boomerang.Base.{◌≡◌, refl, sym, ◌⊎◌, inl, inr, Option, none, some, List, [], ◌∷◌, All, arith}
use boomerang.Base.Order.{IsOrder, lt, eq, gt}

pub Ordering-cases : (o : Ordering) → (o ≡ lt) ⊎ (o ≡ eq) ⊎ (o ≡ gt)
Ordering-cases lt = inl refl
Ordering-cases eq = inr (inl refl)
Ordering-cases gt = inr (inr refl)

module _ {K A : Type 0} (cmp : K → K → Ordering) (key : A → K) where
  -- What a list holds under a key.
  unfoldable pub find : K → List A → Option A
  find k [] = none
  find k (a ∷ xs) = elim (cmp k (key a)) [ eq ↦ some a | _ ↦ find k xs ]

  -- Every key of the list lies behind `k`.
  abbrev pub Behind : K → List A → Type 0
  Behind k xs = All (λ a. cmp k (key a) ≡ lt) xs

  abbrev pub IsAscending : List A → Type 0
  IsAscending [] = Unit {0}
  IsAscending (a ∷ xs) = Behind (key a) xs × IsAscending xs

module _ {K A : Type 0} {cmp : K → K → Ordering} (ord : IsOrder cmp) (key : A → K) where
  pub Behind-trans :
      (k m : K) (xs : List A) → cmp k m ≡ lt → Behind cmp key m xs → Behind cmp key k xs
  Behind-trans k m [] h b = tt
  Behind-trans k m (a ∷ xs) h b = (ord.cmp_trans k m (key a) h b.0, Behind-trans k m xs h b.1)

  pub find-Behind : (k : K) (xs : List A) → Behind cmp key k xs → find cmp key k xs ≡ none
  unfolding find
  find-Behind k [] b = refl
  find-Behind k (a ∷ xs) b = ground (arith, b.0, find-Behind k xs b.1)

module _ {K A V : Type 0} (cmp : K → K → Ordering) (key : A → K)
    (decide : Option A → Option A → Option V) where
  abbrev pub emit : K → Option V → List (K × V) → List (K × V)
  emit k none out = out
  emit k (some v) out = (k, v) ∷ out

  -- Every key of either list, in order, with the decision on what the two lists hold there.
  unfoldable pub join : List A → List A → List (K × V)
  join [] [] = []
  join (p ∷ ps) [] = emit (key p) (decide (some p) none) (join ps [])
  join [] (s ∷ ss) = emit (key s) (decide none (some s)) (join [] ss)
  join (p ∷ ps) (s ∷ ss) = elim (cmp (key p) (key s)) [
    | lt ↦ emit (key p) (decide (some p) none) (join ps (s ∷ ss))
    | eq ↦ emit (key p) (decide (some p) (some s)) (join ps ss)
    | gt ↦ emit (key s) (decide none (some s)) (join (p ∷ ps) ss)
  ]

-- What the result holds under a key.
unfoldable pub value_at : {K V : Type 0} → (K → K → Ordering) → K → List (K × V) → Option V
value_at cmp k [] = none
value_at cmp k ((m, v) ∷ r) = elim (cmp k m) [ eq ↦ some v | _ ↦ value_at cmp k r ]

abbrev pub pair_key : {K V : Type 0} → K × V → K
pair_key (k, v) = k

module _ {K A V : Type 0} {cmp : K → K → Ordering} (ord : IsOrder cmp) (key : A → K)
    (decide : Option A → Option A → Option V) where
  emit-Behind :
      (x k : K) (d : Option V) (out : List (K × V))
      → cmp x k ≡ lt
      → Behind cmp pair_key x out
      → Behind cmp pair_key x (emit cmp key decide k d out)
  emit-Behind x k none out h b = b
  emit-Behind x k (some v) out h b = (h, b)

  join-Behind :
      (x : K) (ps ss : List A)
      → Behind cmp key x ps
      → Behind cmp key x ss
      → Behind cmp pair_key x (join cmp key decide ps ss)
  unfolding join
  join-Behind x [] [] bp bs = tt
  join-Behind x (p ∷ ps) [] bp bs = emit-Behind x _ _ _ bp.0 (join-Behind x ps [] bp.1 bs)
  join-Behind x [] (s ∷ ss) bp bs = emit-Behind x _ _ _ bs.0 (join-Behind x [] ss bp bs.1)
  join-Behind x (p ∷ ps) (s ∷ ss) bp bs = elim (Ordering-cases (cmp (key p) (key s))) [
    | inl e ↦ rw (e, join) (emit-Behind x _ _ _ bp.0 (join-Behind x ps (s ∷ ss) bp.1 bs))
    | inr (inl e) ↦ rw (e, join) (emit-Behind x _ _ _ bp.0 (join-Behind x ps ss bp.1 bs.1))
    | inr (inr e) ↦ rw (e, join) (emit-Behind x _ _ _ bs.0 (join-Behind x (p ∷ ps) ss bp bs.1))
  ]

  emit-IsAscending :
      (k : K) (d : Option V) (out : List (K × V))
      → Behind cmp pair_key k out
      → IsAscending cmp pair_key out
      → IsAscending cmp pair_key (emit cmp key decide k d out)
  emit-IsAscending k none out b h = h
  emit-IsAscending k (some v) out b h = (b, h)

  -- The head of `ps` is in front of all of `s ∷ ss` where it is in front of `s`.
  before_all :
      (p s : A) (ss : List A)
      → cmp (key p) (key s) ≡ lt
      → Behind cmp key (key s) ss
      → Behind cmp key (key p) (s ∷ ss)
  before_all p s ss h b = (h, Behind-trans ord key (key p) (key s) ss h b)

  gt→lt : (a b : K) → cmp a b ≡ gt → cmp b a ≡ lt
  gt→lt a b h = ground (arith, ord.cmp-flip a b)

  eq-Behind : (a b : K) (ss : List A) → cmp a b ≡ eq → Behind cmp key b ss → Behind cmp key a ss
  eq-Behind a b ss h bs = rw (ord.cmp_eq a b h) bs

  -- The result is in strictly ascending order of keys, so it has each key once at most.
  pub join-IsAscending :
      (ps ss : List A)
      → IsAscending cmp key ps
      → IsAscending cmp key ss
      → IsAscending cmp pair_key (join cmp key decide ps ss)
  unfolding join
  join-IsAscending [] [] ap xs = tt
  join-IsAscending (p ∷ ps) [] ap xs =
      emit-IsAscending _ _ _ (join-Behind (key p) ps [] ap.0 tt) (join-IsAscending ps [] ap.1 tt)
  join-IsAscending [] (s ∷ ss) ap xs =
      emit-IsAscending _ _ _ (join-Behind (key s) [] ss tt xs.0) (join-IsAscending [] ss tt xs.1)
  join-IsAscending (p ∷ ps) (s ∷ ss) ap xs = elim (Ordering-cases (cmp (key p) (key s))) [
    | inl e ↦
        rw (e, join)
          (emit-IsAscending _ _ _ (join-Behind (key p) ps (s ∷ ss) ap.0 (before_all p s ss e xs.0))
            (join-IsAscending ps (s ∷ ss) ap.1 xs))
    | inr (inl e) ↦
        rw (e, join)
          (emit-IsAscending _ _ _ (join-Behind (key p) ps ss ap.0 (eq-Behind _ _ ss e xs.0))
            (join-IsAscending ps ss ap.1 xs.1))
    | inr (inr e) ↦
        rw (e, join)
          (emit-IsAscending _ _ _
            (join-Behind (key s) (p ∷ ps) ss (before_all s p ps (gt→lt _ _ e) ap.0) xs.0)
            (join-IsAscending (p ∷ ps) ss ap xs.1))
  ]

  value_at-Behind :
      (k : K) (out : List (K × V)) → Behind cmp pair_key k out → value_at cmp k out ≡ none
  unfolding value_at
  value_at-Behind k [] b = refl
  value_at-Behind k ((m, v) ∷ out) b = ground (arith, b.0, value_at-Behind k out b.1)

  value_at-emit :
      (k m : K) (d : Option V) (out : List (K × V))
      → Behind cmp pair_key m out
      → value_at cmp k (emit cmp key decide m d out)
        ≡ (elim (cmp k m) [ eq ↦ d | _ ↦ value_at cmp k out ])
  unfolding value_at
  value_at-emit k m none out b = ground (arith, value_at-Behind m out b, ord.cmp_eq k m)
  value_at-emit k m (some v) out b = ground arith

  -- Under each key the result holds the decision on what the two lists hold there.
  pub value_at-join :
      decide none none ≡ none
      → (k : K) (ps ss : List A) → IsAscending cmp key ps
      → IsAscending cmp key ss
      → value_at cmp k (join cmp key decide ps ss) ≡ decide (find cmp key k ps) (find cmp key k ss)
  unfolding join find value_at
  value_at-join dn k [] [] ap aq = sym dn
  value_at-join dn k (p ∷ ps) [] ap aq = ground (
    arith,
    dn,
    value_at-emit k (key p) (decide (some p) none) (join cmp key decide ps [])
        (join-Behind (key p) ps [] ap.0 tt),
    value_at-join dn k ps [] ap.1 tt,
  )
  value_at-join dn k [] (s ∷ ss) ap aq = ground (
    arith,
    dn,
    value_at-emit k (key s) (decide none (some s)) (join cmp key decide [] ss)
        (join-Behind (key s) [] ss tt aq.0),
    value_at-join dn k [] ss tt aq.1,
  )
  value_at-join dn k (p ∷ ps) (s ∷ ss) ap aq = elim (Ordering-cases (cmp (key p) (key s))) [
    | inl e ↦ ground (
      arith,
      value_at-emit k (key p) (decide (some p) none) (join cmp key decide ps (s ∷ ss))
          (join-Behind (key p) ps (s ∷ ss) ap.0 (before_all p s ss e aq.0)),
      find-Behind ord key (key p) (s ∷ ss) (before_all p s ss e aq.0),
      ord.cmp_eq k (key p),
      value_at-join dn k ps (s ∷ ss) ap.1 aq,
    )
    | inr (inl e) ↦ ground (
      arith,
      value_at-emit k (key p) (decide (some p) (some s)) (join cmp key decide ps ss)
          (join-Behind (key p) ps ss ap.0 (eq-Behind _ _ ss e aq.0)),
      ord.cmp_eq (key p) (key s),
      value_at-join dn k ps ss ap.1 aq.1,
    )
    | inr (inr e) ↦ ground (
      arith,
      value_at-emit k (key s) (decide none (some s)) (join cmp key decide (p ∷ ps) ss)
          (join-Behind (key s) (p ∷ ps) ss (before_all s p ps (gt→lt _ _ e) ap.0) aq.0),
      find-Behind ord key (key s) (p ∷ ps) (before_all s p ps (gt→lt _ _ e) ap.0),
      ord.cmp_eq k (key s),
      value_at-join dn k (p ∷ ps) ss ap aq.1,
    )
  ]
