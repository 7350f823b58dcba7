-- ===== src/Interner/Intern/Known.antt =====
-- `get_or_intern` of crates/database/src/core/string_interner.rs behind the cache: the symbol of a
-- text that its shard holds, or of a new one.
use boomerang.Base.{
  ℕ, ◌+◌, ◌^◌, ◌<◌, ◌≡◌, ap, ◌∙◌, Bool, true, false, none, some, Option-cases, inl, inr, length,
  get_elem?, ◌==◌, arith,
}
use boomerang.Base.Order.{Str, eq_str_eq}
use boomerang.Interner.Symbol.{Symbol, shard_id, index}
use boomerang.Interner.Pool.{Memory}
use boomerang.Interner.Pool.Alloc.{IsPool}
use boomerang.Interner.Strings
use boomerang.Interner.Strings.{
  LockFreeStringArray, Text, get_unchecked, get_from_chunk, load_chunk,
}
use boomerang.Interner.Cache.{Key}
use boomerang.Interner.Types.{HashTable, Entry, Shard, StringInterner}
use boomerang.Interner.Lookup.{
  resolve, shard_of, is_text, text_of, text_of_unchecked, is_entry, is_entry_unchecked,
}
use boomerang.Interner.Intern.{add_record, find_known, find_or_add, intern_in_shard}
use boomerang.Interner.Intern.Resolves.{resolve-add_record, shard_of-lt}

get-get_unchecked :
    (strings : LockFreeStringArray) (i : ℕ) (mem : Memory) {t : Text}
    → Strings.get strings i mem ≡ some t
    → get_unchecked strings i mem ≡ some t
unfolding Strings.get get_unchecked get_from_chunk load_chunk
get-get_unchecked strings i mem h = ground (arith, h)

text_of-text_of_unchecked :
    (strings : LockFreeStringArray) (mem : Memory) (symbol : Symbol) {t : Text}
    → text_of strings mem symbol ≡ some t
    → text_of_unchecked strings mem symbol ≡ some t
unfolding text_of text_of_unchecked
text_of-text_of_unchecked strings mem symbol h = elim (Option-cases (index symbol)) [
  | inl e ↦ absurd (ground (arith, h, e))
  | inr (i, e) ↦ rw (text_of_unchecked, e) (get-get_unchecked strings i mem (rw (text_of, e) at h))
]

is_text_eq : (text : Str) (t : Text) → is_text text (some t) ≡ true → t.bytes ≡ text
unfolding is_text
is_text_eq text t h = eq_str_eq t.bytes text h

module _ (strings : LockFreeStringArray) (mem : Memory) (k : Key) (text : Str) (e : Entry) where
  is_entry_eq :
      is_entry strings mem k text e ≡ true
      → (t : Text) × (text_of strings mem e.symbol ≡ some t) × (t.bytes ≡ text)
  unfolding is_entry is_text
  is_entry_eq h =
      let m : is_text text (text_of strings mem e.symbol) ≡ true = ground (arith, h) in
      elim (Option-cases (text_of strings mem e.symbol)) [
        | inl f ↦ absurd (let m' : false ≡ true = rw (f) at m in cc)
        | inr (t, f) ↦ (t, f, is_text_eq text t (rw (f) at m))
      ]

  is_entry_unchecked_eq :
      {t : Text}
      → is_entry_unchecked strings mem k text e ≡ true
      → text_of strings mem e.symbol ≡ some t
      → t.bytes ≡ text
  unfolding is_entry_unchecked
  is_entry_unchecked_eq {t = t} h f =
      let m : is_text text (text_of_unchecked strings mem e.symbol) ≡ true = ground (arith, h) in
      is_text_eq text t (rw (text_of-text_of_unchecked strings mem e.symbol f) at m)

-- Every entry of a shard's table has a symbol of that shard.
unfoldable pub Placed : (tables : HashTable Entry) → StringInterner tables.Table → Type 0
Placed tables interner =
    (i : ℕ) (shard : Shard tables.Table) (h : ℕ) (e : Entry)
    → get_elem? interner.shards i ≡ some shard
    → tables.Holds shard.entries h e
    → shard_id e.symbol ≡ i

module _ (tables : HashTable Entry) (hash_one : Str → ℕ) (debug : Bool)
    (interner : StringInterner tables.Table) (valid : IsPool interner.pool)
    (placed : Placed tables interner) (i : ℕ) (shard : Shard tables.Table)
    (at : get_elem? interner.shards i ≡ some shard) (low : i < 128) (k : Key) (text : Str)
    (short : length text + 8 < 2 ^ 32) where
  resolve-found :
      (h : ℕ) (e : Entry) {t : Text}
      → tables.Holds shard.entries h e
      → text_of shard.strings interner.pool.mem e.symbol ≡ some t
      → t.bytes ≡ text
      → resolve interner e.symbol ≡ some (some text)
  unfolding resolve Placed text_of
  resolve-found h e m f b = elim (Option-cases (index e.symbol)) [
    | inl p ↦ absurd (ground (arith, f, p))
    | inr (j, p) ↦
        let here : shard_id e.symbol ≡ i = placed i shard h e at m in
        let z : (shard_id e.symbol == 255) ≡ false = ground arith in
        let r = ap (λ n. get_elem? interner.shards n) here ∙ at in
        rw (resolve, p, z, r, rw (text_of, p) at f) (ap (λ x. some (some x)) b)
  ]

  resolve-find_known :
      (t : Text) (symbol : Symbol)
      → find_known tables hash_one debug interner shard k text ≡ some (some (t, symbol))
      → resolve interner symbol ≡ some (some text)
  unfolding find_known
  resolve-find_known t symbol h =
      let test = is_entry_unchecked shard.strings interner.pool.mem k text in
      elim (Option-cases (tables.find k.hash test shard.entries)) [
        | inl f ↦ absurd (ground (arith, h, f))
        | inr (e, f) ↦ elim (Option-cases (text_of shard.strings interner.pool.mem e.symbol)) [
          | inl g ↦ absurd (ground (arith, h, f, g))
          | inr (u, g) ↦
              let same : e.symbol ≡ symbol = ground (arith, h, f, g) in
              let ((n, m), passed) = tables.find-some k.hash test shard.entries f in
              let b = is_entry_unchecked_eq shard.strings interner.pool.mem k text e passed g in
              rw (← same) (resolve-found n e m g b)
        ]
      ]

  resolve-find_or_add :
      (t : Text) (symbol : Symbol)
      → (find_or_add tables hash_one debug interner i shard k text).0 ≡ some (t, symbol)
      → resolve (find_or_add tables hash_one debug interner i shard k text).1 symbol
        ≡ some (some text)
  unfolding find_or_add
  resolve-find_or_add t symbol h =
      let test = is_entry shard.strings interner.pool.mem k text in
      elim (Option-cases (tables.find k.hash test shard.entries)) [
        | inr (e, f) ↦
            let ((n, m), passed) = tables.find-some k.hash test shard.entries f in
            let (u, g, b) = is_entry_eq shard.strings interner.pool.mem k text e passed in
            let g' = text_of-text_of_unchecked shard.strings interner.pool.mem e.symbol g in
            let same : e.symbol ≡ symbol = ground (arith, h, f, g') in
            rw (find_or_add, f, g') (rw (← same) (resolve-found n e m g b))
        | inl f ↦ elim (Option-cases (add_record tables debug interner i shard k text).0) [
          | inl g ↦ absurd (ground (arith, h, f, g))
          | inr ((offset, s), g) ↦
              let same : s ≡ symbol = ground (arith, h, f, g) in
              let r =
                resolve-add_record tables debug interner valid i shard at low k text short s g in
              rw (find_or_add, f, g) (rw (same) at r)
        ]
      ]

module _ (tables : HashTable Entry) (hash_one : Str → ℕ) (debug : Bool)
    (interner : StringInterner tables.Table) (valid : IsPool interner.pool)
    (placed : Placed tables interner) (few : interner.shard_mask < 128) (text : Str)
    (short : length text + 8 < 2 ^ 32) where
  pub resolve-intern_in_shard :
      (k : Key) (t : Text) (symbol : Symbol)
      → (intern_in_shard tables hash_one debug interner k text).0 ≡ some (t, symbol)
      → resolve (intern_in_shard tables hash_one debug interner k text).1 symbol ≡ some (some text)
  unfolding intern_in_shard
  resolve-intern_in_shard k t symbol h =
      let i = shard_of tables hash_one interner k in
      let low = shard_of-lt tables hash_one interner k few in
      elim (Option-cases (get_elem? interner.shards i)) [
        | inl e ↦ absurd (ground (arith, h, e))
        | inr (shard, e) ↦
            let known = find_known tables hash_one debug interner shard k text in
            elim (Option-cases known) [
              | inl f ↦ absurd (ground (arith, h, e, f))
              | inr (none, f) ↦
                  let h' = rw (intern_in_shard, e, f) at h in
                  rw (intern_in_shard, e, f)
                    (resolve-find_or_add tables hash_one debug interner valid placed i shard e low k
                      text short t symbol h')
              | inr (some (u, s), f) ↦
                  let same : s ≡ symbol = ground (arith, h, e, f) in
                  let r =
                    resolve-find_known tables hash_one debug interner valid placed i shard e low k
                      text short u s f in
                  rw (intern_in_shard, e, f) (rw (same) at r)
            ]
      ]
