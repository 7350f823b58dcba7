-- ===== src/Builder/ByName.antt =====
-- The index of the tables by name that `DatabaseSchemaBuilder::build` of
-- crates/database/src/core/schema_builder.rs sorts is the one that crates/database/src/core/schema.rs
-- searches.
use boomerang.Base.{
  ℕ, zero, suc, ◌+◌, ◌%◌, ◌^◌, ◌<◌, ◌≤◌, ◌≡◌, refl, ap, ◌∙◌, inl, inr, some, List, [], ◌∷◌, length,
  get_elem?, get_elem?-lt, All, leb, ltb, if◌then◌else◌, arith, Bool-cases,
}
use boomerang.Schema.Types.{TableMeta}
use boomerang.Schema.Lookup.ByName.{slot_key_lem, IsByName}
use boomerang.Builder.Sort.{insert_by_key, sort_by_key, range}
use boomerang.Builder.Build.{name_key, index_by_name}
use boomerang.Builder.Kahn.Count.{count, get_elem?-count, count-get_elem?}
use boomerang.Builder.Kahn.Drain.{bit}

module _ (key : ℕ → ℕ) where
  abbrev IsAscending : List ℕ → Type 0
  IsAscending [] = Unit
  IsAscending (i ∷ is) = All (λ j. key i ≤ key j) is × IsAscending is

  count-insert_by_key :
      (v i : ℕ) (js : List ℕ) → count v (insert_by_key key i js) ≡ count v (i ∷ js)
  unfolding count insert_by_key
  count-insert_by_key v i [] = refl
  count-insert_by_key v i (j ∷ js) = ground (arith, count-insert_by_key v i js)

  count-sort_by_key : (v : ℕ) (is : List ℕ) → count v (sort_by_key key is) ≡ count v is
  unfolding count sort_by_key
  count-sort_by_key v [] = refl
  count-sort_by_key v (i ∷ is) =
      ground (arith, count-insert_by_key v i (sort_by_key key is), count-sort_by_key v is)

  insert_by_key-All :
      (a i : ℕ) (js : List ℕ)
      → key a ≤ key i
      → All (λ j. key a ≤ key j) js
      → All (λ j. key a ≤ key j) (insert_by_key key i js)
  unfolding insert_by_key
  insert_by_key-All a i [] h all = (h, all)
  insert_by_key-All a i (j ∷ js) h (p, all) = elim (Bool-cases (leb (key i) (key j))) [
    | inl e ↦ rw (insert_by_key, e) (h, (p, all))
    | inr e ↦ rw (insert_by_key, e) (p, insert_by_key-All a i js h all)
  ]

  All_le :
      (a b : ℕ) (js : List ℕ)
      → key a ≤ key b
      → All (λ j. key b ≤ key j) js
      → All (λ j. key a ≤ key j) js
  All_le a b [] h all = all
  All_le a b (j ∷ js) h (p, all) = (omega arith, All_le a b js h all)

  insert_by_key-IsAscending :
      (i : ℕ) (js : List ℕ) → IsAscending js → IsAscending (insert_by_key key i js)
  unfolding insert_by_key
  insert_by_key-IsAscending i [] h = (tt, h)
  insert_by_key-IsAscending i (j ∷ js) (all, h) = elim (Bool-cases (leb (key i) (key j))) [
    | inl e ↦
        let less : key i ≤ key j = ground (arith, e) in
        rw (insert_by_key, e) ((less, All_le i j js less all), (all, h))
    | inr e ↦
        rw (insert_by_key, e)
          (insert_by_key-All j i js (ground (arith, e)) all, insert_by_key-IsAscending i js h)
  ]

  sort_by_key-IsAscending : (is : List ℕ) → IsAscending (sort_by_key key is)
  unfolding sort_by_key
  sort_by_key-IsAscending [] = tt
  sort_by_key-IsAscending (i ∷ is) =
      insert_by_key-IsAscending i (sort_by_key key is) (sort_by_key-IsAscending is)

  All_get :
      (a : ℕ) (js : List ℕ)
      → All (λ j. key a ≤ key j) js
      → (n b : ℕ) → get_elem? js n ≡ some b
      → key a ≤ key b
  All_get a [] all n b h = cc
  All_get a (j ∷ js) (p, all) zero b h = let e : j ≡ b = cc in ground (arith, p, ap key e)
  All_get a (j ∷ js) (p, all) (suc n) b h = All_get a js all n b h

  IsAscending-get :
      (is : List ℕ)
      → IsAscending is
      → (m n a b : ℕ) → m ≤ n
      → get_elem? is m ≡ some a
      → get_elem? is n ≡ some b
      → key a ≤ key b
  IsAscending-get [] asc m n a b h p q = cc
  IsAscending-get (i ∷ is) (all, asc) zero zero a b h p q =
      let e : a ≡ b = cc in ground (arith, ap key e)
  IsAscending-get (i ∷ is) (all, asc) zero (suc n) a b h p q =
      let e : i ≡ a = cc in ground (arith, All_get i is all n b q, ap key e)
  IsAscending-get (i ∷ is) (all, asc) (suc m) zero a b h p q = absurd (ground (arith, h))
  IsAscending-get (i ∷ is) (all, asc) (suc m) (suc n) a b h p q =
      IsAscending-get is asc m n a b (omega arith) p q

count-range : (v i n : ℕ) → count v (range i n) ≡ (if ltb v i then 0 else bit (ltb v (i + n)))
unfolding count range bit
count-range v i zero = ground arith
count-range v i (suc n) = ground (arith, count-range v (suc i) n)

name_key_lem :
    (tables : List TableMeta) (i : ℕ) (t : TableMeta)
    → get_elem? tables i ≡ some t
    → name_key tables i ≡ t.name.raw
unfolding name_key
name_key_lem tables i t h = rw (name_key, h) refl

-- Of fewer than 2 ^ 16 tables the sorted index holds the index of each table, no other, and in
-- ascending order of the names.
pub index_by_name-IsByName :
    (tables : List TableMeta) → length tables < 2 ^ 16 → IsByName tables (index_by_name tables)
unfolding index_by_name bit
index_by_name-IsByName tables few =
    let sorted = index_by_name tables in
    let counts : (v : ℕ) → count v sorted ≡ bit (ltb v (length tables)) = λ v.
      count-sort_by_key (name_key tables) v (range 0 (length tables % 2 ^ 16))
      ∙ count-range v 0 (length tables % 2 ^ 16)
      ∙ ground (arith, few) in
    let inside : (slot i : ℕ)
        → get_elem? sorted slot ≡ some i
        → (t : TableMeta) × (get_elem? tables i ≡ some t) =
      λ slot i p.
        get_elem?-lt tables i (ground (arith, counts i, count-get_elem? i sorted slot p)) in
    record {
      inside = λ slot h.
          let (i, p) = get_elem?-lt sorted slot h in let (t, q) = inside slot i p in (i, t, p, q);
      covers = λ i h. get_elem?-count i sorted (ground (arith, counts i, h));
      ascends = λ slot later h low.
          let (j, p') = get_elem?-lt sorted later low in
          let (i, p) = get_elem?-lt sorted slot (ground (arith, h, low)) in
          let (t, q) = inside slot i p in
          let (t', q') = inside later j p' in
          ground (
            arith,
            IsAscending-get (name_key tables) sorted
                (sort_by_key-IsAscending (name_key tables) (range 0 (length tables % 2 ^ 16))) slot
                later i j h p p',
            slot_key_lem tables sorted slot i t p q,
            slot_key_lem tables sorted later j t' p' q',
            name_key_lem tables i t q,
            name_key_lem tables j t' q',
          );
    }
