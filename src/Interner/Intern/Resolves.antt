-- ===== src/Interner/Intern/Resolves.antt =====
-- A symbol that a new text is given in crates/database/src/core/string_interner.rs resolves to it.
use boomerang.Base.{
  ℕ, ◌+◌, ◌-◌, ◌%◌, ◌^◌, ◌<◌, ◌≡◌, ◌≢◌, refl, ap, ◌∙◌, Bool, true, false, some, Option-cases, inl,
  inr, [], ◌∷◌, length, get_elem?, get_elem?-set_self, lt-length, ◌==◌, leb, arith,
}
use native.Mathlib.Nat.{mod-lt, zero-lt-suc}
use boomerang.Base.Order.{Str}
use boomerang.Interner.Symbol
use boomerang.Interner.Symbol.{Symbol, shard_id, index, new_parts}
use boomerang.Interner.Pool.{MemoryPool, alloc}
use boomerang.Interner.Pool.Alloc.{IsPool, alloc-Allocated}
use boomerang.Interner.Pool.Grows.{text_at-alloc, global_offset_lem}
use boomerang.Interner.Strings
use boomerang.Interner.Strings.{LockFreeStringArray, text_at, push}
use boomerang.Interner.Strings.Push.{get-push, push-some}
use boomerang.Interner.Cache.{Key}
use boomerang.Interner.Types.{HashTable, Entry, Shard, StringInterner}
use boomerang.Interner.Lookup.{resolve, resolve_static, static_symbol, shard_of}
use boomerang.Interner.Intern.{with_shard, add_record}

module _ (debug : Bool) (pool : MemoryPool) (valid : IsPool pool) (shard : ℕ) (text : Str)
    (short : length text + 8 < 2 ^ 32) (strings : LockFreeStringArray) (offset : ℕ)
    (allocated : (alloc debug pool shard text).0 ≡ some offset) where
  pub offset_ne : offset ≢ 0
  offset_ne =
      let a = alloc-Allocated debug pool shard text allocated in
      let o = a.offset_eq ∙ global_offset_lem pool valid shard a.cursor a.at in omega arith

  -- What the array reads after the push, in the memory that the allocation left.
  get-push-alloc :
      strings.len < 2 ^ 24
      → Strings.get (push strings offset).1 strings.len (alloc debug pool shard text).1.mem
        ≡ some (record { ptr = offset + 4; bytes = text })
  get-push-alloc h =
      let mem = (alloc debug pool shard text).1.mem in
      let read = get-push strings offset strings.len mem h offset_ne in
      let at = text_at-alloc debug pool valid shard text short offset allocated in
      read.1 ∙ rw (at) (ground arith)

module _ {T : Type 0} (interner : StringInterner T) (symbol : Symbol) (i : ℕ) (shard : Shard T)
    (text : Str) where
  -- The path of `resolve` through a shard.
  pub resolve-get :
      index symbol ≡ some i
      → shard_id symbol < 255
      → get_elem? interner.shards (shard_id symbol) ≡ some shard
      → {ptr : ℕ}
      → Strings.get shard.strings i interner.pool.mem ≡ some (record { ptr = ptr; bytes = text })
      → resolve interner symbol ≡ some (some text)
  unfolding resolve
  resolve-get p q r g =
      let z : (shard_id symbol == 255) ≡ false = ground arith in rw (resolve, p, z, r, g)

module _ (tables : HashTable Entry) (debug : Bool) (interner : StringInterner tables.Table)
    (valid : IsPool interner.pool) (i : ℕ) (shard : Shard tables.Table)
    (at : get_elem? interner.shards i ≡ some shard) (low : i < 128) (k : Key) (text : Str)
    (short : length text + 8 < 2 ^ 32) where
  -- What `add_record` leaves where nothing panics.
  abbrev pub after : ℕ → Symbol → StringInterner tables.Table
  after offset symbol =
      with_shard (record interner { pool = (alloc debug interner.pool i text).1 }) i
        (record {
          entries =
              tables.insert_unique k.hash
                (record { hash = k.hash; prefix = k.prefix; symbol = symbol }) (λ e. e.hash)
                shard.entries;
          strings = (push shard.strings offset).1;
        })

  resolve-after :
      (offset n : ℕ) (symbol : Symbol)
      → (alloc debug interner.pool i text).0 ≡ some offset
      → (push shard.strings offset).0 ≡ some n
      → Symbol.new (i % 256) n ≡ some symbol
      → resolve (after offset symbol) symbol ≡ some (some text)
  resolve-after offset n symbol p q r =
      let (fits, same_shard, same_index) = new_parts (i % 256) n symbol (omega arith) r in
      let (last, room) = push-some shard.strings offset q in
      let here : shard_id symbol ≡ i = omega arith in
      let added = (after offset symbol).shards in
      let found = get_elem?-set_self interner.shards i _ (lt-length interner.shards i at) in
      let g = get-push-alloc debug interner.pool valid i text short shard.strings offset p room in
      resolve-get (after offset symbol) symbol n _ text same_index (omega arith)
        (ap (λ j. get_elem? added j) here ∙ found)
        (ap
            (λ j.
              Strings.get (push shard.strings offset).1 j (alloc debug interner.pool i text).1.mem)
            last
          ∙ g)

  add_record_eq :
      (offset n : ℕ) (symbol : Symbol)
      → (alloc debug interner.pool i text).0 ≡ some offset
      → (push shard.strings offset).0 ≡ some n
      → Symbol.new (i % 256) n ≡ some symbol
      → add_record tables debug interner i shard k text
        ≡ (some (offset, symbol), after offset symbol)
  unfolding add_record
  add_record_eq offset n symbol p q r = rw (add_record, p, q, r) refl

  pub add_record-after :
      (symbol : Symbol) {offset : ℕ}
      → (add_record tables debug interner i shard k text).0 ≡ some (offset, symbol)
      → (n : ℕ) × ((alloc debug interner.pool i text).0 ≡ some offset)
        × ((push shard.strings offset).0 ≡ some n)
        × (Symbol.new (i % 256) n ≡ some symbol)
        × ((add_record tables debug interner i shard k text).1 ≡ after offset symbol)
  unfolding add_record
  add_record-after symbol {offset = o} h =
      elim (Option-cases (alloc debug interner.pool i text).0) [
        | inl p ↦ absurd (ground (arith, h, p))
        | inr (offset, p) ↦ elim (Option-cases (push shard.strings offset).0) [
          | inl q ↦ absurd (ground (arith, h, p, q))
          | inr (n, q) ↦ elim (Option-cases (Symbol.new (i % 256) n)) [
            | inl r ↦ absurd (ground (arith, h, p, q, r))
            | inr (s, r) ↦
                let same : s ≡ symbol = ground (arith, h, p, q, r) in
                let same' : offset ≡ o = ground (arith, h, p, q, r) in
                let e = add_record_eq offset n s p q r in
                rw (← same, ← same') (n, p, q, r, ap (λ x. x.1) e)
          ]
        ]
      ]

  pub resolve-add_record :
      (symbol : Symbol) {offset : ℕ}
      → (add_record tables debug interner i shard k text).0 ≡ some (offset, symbol)
      → resolve (add_record tables debug interner i shard k text).1 symbol ≡ some (some text)
  resolve-add_record symbol {offset = offset} h =
      let (n, p, q, r, e) = add_record-after symbol h in
      rw (e) (resolve-after offset n symbol p q r)

-- The early returns: the empty text and one ASCII character.
pub resolve-static_symbol :
    {T : Type 0} (interner : StringInterner T) (text : Str) (symbol : Symbol)
    → static_symbol text ≡ some (some symbol)
    → resolve interner symbol ≡ some (some text)
unfolding static_symbol resolve resolve_static
resolve-static_symbol interner [] symbol h =
    let r : Symbol.new 255 0 ≡ some symbol = ground (arith, h) in
    let (fits, shard, i) = new_parts 255 0 symbol (omega arith) r in rw (resolve, i, shard) refl
resolve-static_symbol interner (b ∷ []) symbol h =
    let r : Symbol.new 255 (b + 1) ≡ some symbol = ground (arith, h) in
    let low : b < 128 = ground (arith, h) in
    let (fits, shard, i) = new_parts 255 (b + 1) symbol (omega arith) r in
    let z : (b + 1 == 0) ≡ false = ground arith in
    let le : leb (b + 1) 128 ≡ true = ground arith in
    let e : b + 1 - 1 ≡ b = omega arith in rw (resolve, i, shard, z, le, e) refl
resolve-static_symbol interner (a ∷ b ∷ text) symbol h = cc

pub shard_of-lt :
    (tables : HashTable Entry) (hash_one : Str → ℕ) (interner : StringInterner tables.Table)
    (k : Key)
    → interner.shard_mask < 128
    → shard_of tables hash_one interner k < 128
unfolding shard_of
shard_of-lt tables hash_one interner k few =
    let m = mod-lt k.hash (zero-lt-suc interner.shard_mask) in omega arith
