-- ===== src/Interner/Intern/Keeps.antt =====
-- What the calls of crates/database/src/core/string_interner.rs keep of an interner.
use boomerang.Base.{
  ℕ, ◌%◌, ◌<◌, ◌≡◌, refl, sym, ap, ◌∙◌, Bool, none, some, Option-cases, Bool-cases, inl, inr,
  get_elem?, set, length-set, get_elem?-set_self, get_elem?-set_ne, lt-length, ◌==◌, arith,
}
use boomerang.Base.Order.{Str}
use boomerang.Interner.Symbol
use boomerang.Interner.Symbol.{Symbol, shard_id, new_parts}
use boomerang.Interner.Pool.{alloc}
use boomerang.Interner.Pool.Alloc.{IsPool, alloc-IsPool}
use boomerang.Interner.Strings.{push}
use boomerang.Interner.Cache.{Key, ThreadLocalCache, cached}
use boomerang.Interner.Types.{HashTable, Entry, Shard, StringInterner}
use boomerang.Interner.Lookup.{static_symbol, key_of, shard_of, is_entry, text_of_unchecked}
use boomerang.Interner.Intern.{
  with_shard, add_record, insert_unique, find_known, find_or_add, intern_in_shard, intern_hashed,
  get_or_intern,
}
use boomerang.Interner.Intern.Resolves.{shard_of-lt}

-- Each shard's table holds symbols of that shard, each under the hash that it names.
unfoldable pub IsInterner : (tables : HashTable Entry) → StringInterner tables.Table → Type 0
IsInterner tables interner =
    IsPool interner.pool
    × (interner.shard_mask < 128)
    × ((i : ℕ) (shard : Shard tables.Table) (h : ℕ) (e : Entry)
        → get_elem? interner.shards i ≡ some shard
        → tables.Holds shard.entries h e
        → (shard_id e.symbol ≡ i) × (e.hash ≡ h))

module _ (tables : HashTable Entry) (interner : StringInterner tables.Table)
    (valid : IsInterner tables interner) (i : ℕ) (low : i < 128) where
  -- A shard written back, with a table of its own symbols.
  with_shard-IsInterner :
      (shard : Shard tables.Table)
      → ((h : ℕ) (e : Entry)
          → tables.Holds shard.entries h e
          → (shard_id e.symbol ≡ i) × (e.hash ≡ h))
      → IsInterner tables (with_shard interner i shard)
  unfolding IsInterner
  with_shard-IsInterner shard held = (
    valid.0,
    valid.1,
    λ j other h e at m. elim (Bool-cases (i == j)) [
      | inl p ↦
          let same : i ≡ j = ground arith in
          let len = length-set interner.shards i shard in
          let in_range = lt-length (set interner.shards i shard) j at in
          let self = get_elem?-set_self interner.shards i shard (omega arith) in
          let at' : get_elem? (set interner.shards i shard) i ≡ some other =
            ap (λ k. get_elem? (set interner.shards i shard) k) same ∙ at in
          let q : other.entries ≡ shard.entries = ground (arith, self, at') in
          let (x, y) = held h e (rw (q) at m) in (x ∙ same, y)
      | inr p ↦
          valid.2 j other h e (sym (get_elem?-set_ne interner.shards i j shard (ground arith)) ∙ at)
            m
    ],
  )

module _ (tables : HashTable Entry) (debug : Bool) (interner : StringInterner tables.Table)
    (valid : IsInterner tables interner) (i : ℕ) (low : i < 128) (shard : Shard tables.Table)
    (at : get_elem? interner.shards i ≡ some shard) (k : Key) (text : Str) where
  held_old :
      (h : ℕ) (e : Entry) → tables.Holds shard.entries h e → (shard_id e.symbol ≡ i) × (e.hash ≡ h)
  unfolding IsInterner
  held_old h e m = valid.2 i shard h e at m

  held_new :
      (n : ℕ) (s : Symbol)
      → Symbol.new (i % 256) n ≡ some s
      → (h : ℕ) (e : Entry)
      → tables.Holds
          (tables.insert_unique k.hash
            (record { hash = k.hash; prefix = k.prefix; symbol = s })
            (λ a. a.hash)
            shard.entries)
          h
          e
      → (shard_id e.symbol ≡ i) × (e.hash ≡ h)
  held_new n s r h e m =
      let (fits, here, place) = new_parts (i % 256) n s (omega arith) r in
      let added : Entry = record { hash = k.hash; prefix = k.prefix; symbol = s } in
      let old =
        tables.insert_unique-Holds k.hash added (λ a. a.hash) shard.entries refl
          (λ j b x. (held_old j b x).1) h e m in
      elim old [ inl (p, q) ↦ rw (p, q) (omega arith, refl) | inr x ↦ held_old h e x ]

  pooled : IsInterner tables (record interner { pool = (alloc debug interner.pool i text).1 })
  unfolding IsInterner
  pooled = (alloc-IsPool debug interner.pool i text valid.0, valid.1, valid.2)

  add_record-IsInterner : IsInterner tables (add_record tables debug interner i shard k text).1
  unfolding add_record
  add_record-IsInterner =
      let base = record interner { pool = (alloc debug interner.pool i text).1 } in
      elim (Option-cases (alloc debug interner.pool i text).0) [
        | inl p ↦ rw (add_record, p) pooled
        | inr (offset, p) ↦ elim (Option-cases (push shard.strings offset).0) [
          | inl q ↦
              rw (add_record, p, q) (with_shard-IsInterner tables base pooled i low _ held_old)
          | inr (n, q) ↦ elim (Option-cases (Symbol.new (i % 256) n)) [
            | inl r ↦
                rw (add_record, p, q, r) (with_shard-IsInterner tables base pooled i low _ held_old)
            | inr (s, r) ↦
                rw (add_record, p, q, r)
                  (with_shard-IsInterner tables base pooled i low _ (held_new n s r))
          ]
        ]
      ]

module _ (tables : HashTable Entry) (hash_one : Str → ℕ) (debug : Bool)
    (interner : StringInterner tables.Table) (valid : IsInterner tables interner) (text : Str) where
  few : interner.shard_mask < 128
  unfolding IsInterner
  few = valid.1

  pub insert_unique-IsInterner :
      IsInterner tables (insert_unique tables hash_one debug interner text).1
  unfolding insert_unique
  insert_unique-IsInterner = elim (Option-cases (static_symbol text)) [
    | inr (s, e) ↦ rw (insert_unique, e) valid
    | inl e ↦
        let k = key_of tables hash_one interner text in
        let i = shard_of tables hash_one interner k in
        elim (Option-cases (get_elem? interner.shards i)) [
          | inl f ↦ rw (insert_unique, e, f) valid
          | inr (shard, f) ↦
              let low = shard_of-lt tables hash_one interner k few in
              let r = add_record-IsInterner tables debug interner valid i low shard f k text in
              elim (Option-cases (add_record tables debug interner i shard k text).0) [
                | inl g ↦ rw (insert_unique, e, f, g) r
                | inr ((offset, s), g) ↦ rw (insert_unique, e, f, g) r
              ]
        ]
  ]

  find_or_add-IsInterner :
      (k : Key) (i : ℕ) (shard : Shard tables.Table)
      → i < 128
      → get_elem? interner.shards i ≡ some shard
      → IsInterner tables (find_or_add tables hash_one debug interner i shard k text).1
  unfolding find_or_add
  find_or_add-IsInterner k i shard low at =
      let found =
        tables.find k.hash (is_entry shard.strings interner.pool.mem k text) shard.entries in
      elim (Option-cases found) [
        | inr (e, f) ↦
            elim (Option-cases (text_of_unchecked shard.strings interner.pool.mem e.symbol)) [
              | inl g ↦ rw (find_or_add, f, g) valid
              | inr (t, g) ↦ rw (find_or_add, f, g) valid
            ]
        | inl f ↦
            let r = add_record-IsInterner tables debug interner valid i low shard at k text in
            elim (Option-cases (add_record tables debug interner i shard k text).0) [
              | inl g ↦ rw (find_or_add, f, g) r
              | inr ((offset, s), g) ↦ rw (find_or_add, f, g) r
            ]
      ]

  intern_in_shard-IsInterner :
      (k : Key) → IsInterner tables (intern_in_shard tables hash_one debug interner k text).1
  unfolding intern_in_shard
  intern_in_shard-IsInterner k =
      let i = shard_of tables hash_one interner k in
      elim (Option-cases (get_elem? interner.shards i)) [
        | inl e ↦ rw (intern_in_shard, e) valid
        | inr (shard, e) ↦
            elim (Option-cases (find_known tables hash_one debug interner shard k text)) [
              | inl f ↦ rw (intern_in_shard, e, f) valid
              | inr (some found, f) ↦ rw (intern_in_shard, e, f) valid
              | inr (none, f) ↦
                  rw (intern_in_shard, e, f)
                    (find_or_add-IsInterner k i shard (shard_of-lt tables hash_one interner k few)
                      e)
            ]
      ]

  -- `get_or_intern` leaves an interner of at most 128 shards whose pool is less than 4 GiB, with
  -- regions that fit and cursors inside their regions, and whose tables hold symbols of their own
  -- shards under the hashes that they name, if it found such an interner, whether it returned or
  -- panicked.
  pub get_or_intern-IsInterner :
      (cache : ThreadLocalCache)
      → IsInterner tables (get_or_intern tables hash_one debug interner text cache).1
  unfolding get_or_intern intern_hashed
  get_or_intern-IsInterner cache =
      let k = key_of tables hash_one interner text in
      elim (Option-cases (static_symbol text)) [
        | inr (s, e) ↦ rw (get_or_intern, e) valid
        | inl e ↦ elim (Option-cases (cached interner.pool.mem k text cache)) [
          | inr (s, f) ↦ rw (get_or_intern, e, intern_hashed, f) valid
          | inl f ↦
              let r = intern_in_shard-IsInterner k in
              elim (Option-cases (intern_in_shard tables hash_one debug interner k text).0) [
                | inl g ↦ rw (get_or_intern, e, intern_hashed, f, g) r
                | inr ((t, s), g) ↦ rw (get_or_intern, e, intern_hashed, f, g) r
              ]
        ]
      ]
