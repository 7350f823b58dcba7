-- ===== src/Interner/Intern/Later.antt =====
-- Later calls of crates/database/src/core/string_interner.rs, and the symbols of earlier ones.
use boomerang.Base.{
  ℕ, ◌+◌, ◌^◌, ◌<◌, ◌≡◌, sym, Bool, Option, none, some, Option-cases, inl, inr, List, [], ◌∷◌, All,
  length, get_elem?, arith,
}
use mathlib.Core.Path.{subst}
use boomerang.Base.Order.{Str}
use boomerang.Interner.Symbol.{Symbol}
use boomerang.Interner.Pool.Alloc.{IsPool}
use boomerang.Interner.Cache.{Key, ThreadLocalCache, cached}
use boomerang.Interner.Types.{HashTable, Entry, Shard, StringInterner}
use boomerang.Interner.Lookup.{
  resolve, static_symbol, key_of, shard_of, is_entry, text_of_unchecked,
}
use boomerang.Interner.Intern.{
  add_record, insert_unique, find_known, find_or_add, intern_in_shard, intern_hashed, get_or_intern,
}
use boomerang.Interner.Intern.Resolves.{add_record-after, resolve-static_symbol, shard_of-lt}
use boomerang.Interner.Intern.Keeps.{IsInterner, insert_unique-IsInterner, get_or_intern-IsInterner}
use boomerang.Interner.Intern.Stays.{IsAt, resolve-IsAt, new-IsAt, old-IsAt}

module _ (tables : HashTable Entry) (debug : Bool) (interner : StringInterner tables.Table)
    (valid : IsPool interner.pool) (i : ℕ) (shard : Shard tables.Table)
    (at : get_elem? interner.shards i ≡ some shard) (low : i < 128) (k : Key) (text : Str)
    (short : length text + 8 < 2 ^ 32) (offset : ℕ) (new : Symbol)
    (added : (add_record tables debug interner i shard k text).0 ≡ some (offset, new)) where
  add_record-new : IsAt (add_record tables debug interner i shard k text).1 new text
  add_record-new =
      let (n, p, q, r, e) =
        add_record-after tables debug interner valid i shard at low k text short new added in
      subst (λ x. IsAt x new text) (sym e)
        (new-IsAt tables debug interner valid i shard at low k text short offset n new p q r)

  add_record_old :
      (symbol : Symbol) (t : Str)
      → IsAt interner symbol t
      → IsAt (add_record tables debug interner i shard k text).1 symbol t
  add_record_old symbol t is =
      let (n, p, q, r, e) =
        add_record-after tables debug interner valid i shard at low k text short new added in
      subst (λ x. IsAt x symbol t) (sym e)
        (old-IsAt tables debug interner valid i shard at low k text short offset n new p q r symbol
          t is)

module _ (tables : HashTable Entry) (hash_one : Str → ℕ) (debug : Bool)
    (interner : StringInterner tables.Table) (valid : IsPool interner.pool)
    (few : interner.shard_mask < 128) (text : Str) (short : length text + 8 < 2 ^ 32) where
  insert_unique-IsAt :
      (symbol : Symbol)
      → static_symbol text ≡ none
      → (insert_unique tables hash_one debug interner text).0 ≡ some symbol
      → IsAt (insert_unique tables hash_one debug interner text).1 symbol text
  unfolding insert_unique
  insert_unique-IsAt symbol e h =
      let k = key_of tables hash_one interner text in
      let i = shard_of tables hash_one interner k in
      elim (Option-cases (get_elem? interner.shards i)) [
        | inl f ↦ absurd (ground (arith, h, e, f))
        | inr (shard, f) ↦ elim (Option-cases (add_record tables debug interner i shard k text).0) [
          | inl g ↦ absurd (ground (arith, h, e, f, g))
          | inr ((offset, s), g) ↦
              let same : s ≡ symbol = ground (arith, h, e, f, g) in
              let low = shard_of-lt tables hash_one interner k few in
              let r =
                add_record-new tables debug interner valid i shard f low k text short offset s g in
              rw (insert_unique, e, f, g) (rw (same) at r)
        ]
      ]

  module _ (symbol : Symbol) (t : Str) (is : IsAt interner symbol t) where
    find_or_add_old :
        (k : Key) (i : ℕ) (shard : Shard tables.Table) {out : _}
        → i < 128
        → get_elem? interner.shards i ≡ some shard
        → (find_or_add tables hash_one debug interner i shard k text).0 ≡ some out
        → IsAt (find_or_add tables hash_one debug interner i shard k text).1 symbol t
    unfolding find_or_add
    find_or_add_old k i shard low at h =
        let found =
          tables.find k.hash (is_entry shard.strings interner.pool.mem k text) shard.entries in
        elim (Option-cases found) [
          | inr (e, f) ↦
              elim (Option-cases (text_of_unchecked shard.strings interner.pool.mem e.symbol)) [
                | inl g ↦ rw (find_or_add, f, g) is
                | inr (x, g) ↦ rw (find_or_add, f, g) is
              ]
          | inl f ↦ elim (Option-cases (add_record tables debug interner i shard k text).0) [
            | inl g ↦ absurd (ground (arith, h, f, g))
            | inr ((offset, s), g) ↦
                rw (find_or_add, f, g)
                  (add_record_old tables debug interner valid i shard at low k text short offset s g
                    symbol t is)
          ]
        ]

    intern_in_shard_old :
        (k : Key) {out : _}
        → (intern_in_shard tables hash_one debug interner k text).0 ≡ some out
        → IsAt (intern_in_shard tables hash_one debug interner k text).1 symbol t
    unfolding intern_in_shard
    intern_in_shard_old k h =
        let i = shard_of tables hash_one interner k in
        elim (Option-cases (get_elem? interner.shards i)) [
          | inl e ↦ rw (intern_in_shard, e) is
          | inr (shard, e) ↦
              elim (Option-cases (find_known tables hash_one debug interner shard k text)) [
                | inl f ↦ rw (intern_in_shard, e, f) is
                | inr (some found, f) ↦ rw (intern_in_shard, e, f) is
                | inr (none, f) ↦
                    rw (intern_in_shard, e, f)
                      (find_or_add_old k i shard (shard_of-lt tables hash_one interner k few) e
                        (rw (intern_in_shard, e, f) at h))
              ]
        ]

    get_or_intern_old :
        (cache : ThreadLocalCache) {out : Symbol}
        → (get_or_intern tables hash_one debug interner text cache).0 ≡ some out
        → IsAt (get_or_intern tables hash_one debug interner text cache).1 symbol t
    unfolding get_or_intern intern_hashed
    get_or_intern_old cache h =
        let k = key_of tables hash_one interner text in
        elim (Option-cases (static_symbol text)) [
          | inr (s, e) ↦ rw (get_or_intern, e) is
          | inl e ↦ elim (Option-cases (cached interner.pool.mem k text cache)) [
            | inr (s, f) ↦ rw (get_or_intern, e, intern_hashed, f) is
            | inl f ↦
                elim (Option-cases (intern_in_shard tables hash_one debug interner k text).0) [
                  | inl g ↦ absurd (ground (arith, h, e, f, g))
                  | inr ((x, s), g) ↦
                      rw (get_or_intern, e, intern_hashed, f, g) (intern_in_shard_old k g)
                ]
          ]
        ]

some_injective : {A : Type 0} {a b : A} → some a ≡ some b → a ≡ b
some_injective h = cc

module _ (tables : HashTable Entry) (hash_one : Str → ℕ) (debug : Bool) where
  pool_of :
      (interner : StringInterner tables.Table) → IsInterner tables interner → IsPool interner.pool
  unfolding IsInterner
  pool_of interner valid = valid.0

  few_of :
      (interner : StringInterner tables.Table)
      → IsInterner tables interner
      → interner.shard_mask < 128
  unfolding IsInterner
  few_of interner valid = valid.1

  -- The texts, interned one after the other; `none` if a call panics.
  unfoldable pub interned :
      List Str
      → StringInterner tables.Table
      → ThreadLocalCache
      → Option (StringInterner tables.Table)
  interned [] interner cache = some interner
  interned (text ∷ texts) interner cache =
      let (found, after, cache') = get_or_intern tables hash_one debug interner text cache in
      let rest = interned texts after cache' in elim found [ none ↦ none | some symbol ↦ rest ]

  interned-IsAt :
      (texts : List Str) (interner : StringInterner tables.Table) (cache : ThreadLocalCache)
      (symbol : Symbol) (t : Str) {later : StringInterner tables.Table}
      → IsInterner tables interner
      → All (λ text. length text + 8 < 2 ^ 32) texts
      → IsAt interner symbol t
      → interned texts interner cache ≡ some later
      → IsAt later symbol t
  unfolding interned
  interned-IsAt [] interner cache symbol t valid short is h =
      subst (λ x. IsAt x symbol t) (some_injective h) is
  interned-IsAt (text ∷ texts) interner cache symbol t valid short is h =
      elim (Option-cases (get_or_intern tables hash_one debug interner text cache).0) [
        | inl e ↦ absurd (ground (arith, h, e))
        | inr (s, e) ↦
            interned-IsAt texts (get_or_intern tables hash_one debug interner text cache).1
              (get_or_intern tables hash_one debug interner text cache).2 symbol t
              (get_or_intern-IsInterner tables hash_one debug interner valid text cache) short.1
              (get_or_intern_old tables hash_one debug interner (pool_of interner valid)
                (few_of interner valid) text short.0 symbol t is cache e)
              (rw (interned, e) at h)
      ]

  -- In an interner of at most 128 shards whose pool is less than 4 GiB, with regions that fit and cursors
  -- inside their regions, and whose tables hold symbols of their own shards under the hashes that they
  -- name, a symbol that insert_unique gave a text resolves to that text after further texts were interned
  -- without a panic, where all texts are shorter than 4 GiB less eight bytes.
  pub resolve-interned :
      (interner : StringInterner tables.Table) (text : Str) (symbol : Symbol) (texts : List Str)
      (cache : ThreadLocalCache) (later : StringInterner tables.Table)
      → IsInterner tables interner
      → All (λ t. length t + 8 < 2 ^ 32) (text ∷ texts)
      → (insert_unique tables hash_one debug interner text).0 ≡ some symbol
      → interned texts (insert_unique tables hash_one debug interner text).1 cache ≡ some later
      → resolve later symbol ≡ some (some text)
  unfolding insert_unique
  resolve-interned interner text symbol texts cache later valid short h ended =
      elim (Option-cases (static_symbol text)) [
        | inr (none, e) ↦ absurd (ground (arith, h, e))
        | inr (some s, e) ↦
            let same : s ≡ symbol = ground (arith, h, e) in
            resolve-static_symbol later text symbol (rw (same) at e)
        | inl e ↦ resolve-IsAt later symbol text (
            interned-IsAt texts (insert_unique tables hash_one debug interner text).1 cache symbol
              text (insert_unique-IsInterner tables hash_one debug interner valid text) short.1
              (insert_unique-IsAt tables hash_one debug interner (pool_of interner valid)
                (few_of interner valid) text short.0 symbol e h)
              ended)
      ]
