-- ===== src/Interner/Intern/Answers.antt =====
-- `get_or_intern` of crates/database/src/core/string_interner.rs, with its cache.
use boomerang.Base.{
  ℕ, ◌+◌, ◌^◌, ◌<◌, ◌≤◌, ◌≡◌, ◌⊎◌, ap, ◌∙◌, Bool, true, none, some, Option-cases, inl, inr, All,
  length, arith,
}
use boomerang.Base.Order.{Str}
use boomerang.Interner.Symbol.{Symbol, from_raw}
use boomerang.Interner.Pool.{Memory}
use boomerang.Interner.Pool.Alloc.{IsPool}
use boomerang.Interner.Cache.{Slot, Key, ThreadLocalCache, matches, first_slot, candidate, cached}
use boomerang.Interner.Utf8.{is_utf8}
use boomerang.Interner.Hash.{prefix8}
use boomerang.Interner.Hash.Injective.{IsByte, prefix8_injective}
use boomerang.Interner.Types.{HashTable, Entry, StringInterner}
use boomerang.Interner.Lookup.{resolve, static_symbol, key_of}
use boomerang.Interner.Intern.{intern_in_shard, intern_hashed, get_or_intern}
use boomerang.Interner.Intern.Resolves.{resolve-static_symbol}
use boomerang.Interner.Intern.Known.{Placed, resolve-intern_in_shard}

-- What a slot remembers of a short text: its length, its prefix and its symbol.
pub record Remembers {T : Type 0} (interner : StringInterner T) (s : Slot) : Type 0 where
  pub text : Str
  pub bytes : All IsByte text
  pub utf8 : is_utf8 text ≡ true
  pub hashed : static_symbol text ≡ none
  pub len : length text ≡ s.len
  pub prefix : prefix8 text ≡ s.prefix
  pub resolved : resolve interner (record { raw = s.symbol }) ≡ some (some text)

-- A cache whose slots for short texts of this interner remember such texts.
unfoldable pub IsCache : {T : Type 0} → StringInterner T → ThreadLocalCache → Type 0
IsCache interner cache =
    (idx : ℕ)
    → (cache idx).interner_id ≡ interner.interner_id
    → (cache idx).len ≤ 8
    → Remembers interner (cache idx)

candidate-matches :
    (k : Key) (cache : ThreadLocalCache) {idx : ℕ}
    → candidate k cache ≡ some idx
    → matches k (cache idx) ≡ true
unfolding candidate first_slot
candidate-matches k cache h = ground (arith, h)

-- A hit on a short text.
cached-short :
    (mem : Memory) (k : Key) (text : Str) (cache : ThreadLocalCache) {symbol : Symbol}
    → k.len ≤ 8
    → cached mem k text cache ≡ some (some symbol)
    → (idx : ℕ) × ((cache idx).interner_id ≡ k.interner_id)
      × ((cache idx).len ≡ k.len)
      × ((cache idx).prefix ≡ k.prefix)
      × (symbol.raw ≡ (cache idx).symbol)
unfolding cached matches from_raw
cached-short mem k text cache short h = elim (Option-cases (candidate k cache)) [
  | inl e ↦ absurd (ground (arith, h, e))
  | inr (idx, e) ↦
      let m = candidate-matches k cache e in
      (idx, ground (arith, m), ground (arith, m), ground (arith, m), ground (arith, h, e))
]

module _ (tables : HashTable Entry) (hash_one : Str → ℕ) (debug : Bool)
    (interner : StringInterner tables.Table) (text : Str) (cache : ThreadLocalCache) where
  -- The symbol of a slot that answers a short text.
  resolve-cached :
      (symbol : Symbol)
      → IsCache interner cache
      → All IsByte text
      → length text ≤ 8
      → cached interner.pool.mem (key_of tables hash_one interner text) text cache
        ≡ some (some symbol)
      → resolve interner symbol ≡ some (some text)
  unfolding IsCache key_of
  resolve-cached symbol sound bytes short h =
      let k = key_of tables hash_one interner text in
      let (idx, id, len, prefix, raw) = cached-short interner.pool.mem k text cache short h in
      let r = sound idx id (omega arith) in
      let same : r.text ≡ text =
        prefix8_injective r.text text r.bytes bytes r.utf8 r.hashed (r.len ∙ len) (omega arith)
          (r.prefix ∙ prefix) in
      let here : symbol ≡ record { raw = (cache idx).symbol } = λ i. record { raw = raw i } in
      rw (here) (r.resolved ∙ ap (λ t. some (some t)) same)

  -- In an interner of at most 128 shards whose pool is less than 4 GiB, with regions that fit and
  -- cursors inside their regions, whose tables hold symbols of their own shards, and with a cache
  -- whose slots for short texts remember texts of that length and prefix with their symbols: the
  -- symbol that `get_or_intern` returned for a text shorter than 4 GiB less eight bytes resolves to
  -- that text afterwards, if the text has at most eight bytes or was not found in the cache.
  pub resolve-get_or_intern :
      (symbol : Symbol)
      → IsPool interner.pool
      → Placed tables interner
      → interner.shard_mask < 128
      → IsCache interner cache
      → All IsByte text
      → length text + 8 < 2 ^ 32
      → (length text ≤ 8)
        ⊎ (cached interner.pool.mem (key_of tables hash_one interner text) text cache ≡ none)
      → (get_or_intern tables hash_one debug interner text cache).0 ≡ some symbol
      → resolve (get_or_intern tables hash_one debug interner text cache).1 symbol
        ≡ some (some text)
  unfolding get_or_intern intern_hashed
  resolve-get_or_intern symbol valid placed few sound bytes short safe h =
      let k = key_of tables hash_one interner text in
      elim (Option-cases (static_symbol text)) [
        | inr (s, e) ↦
            let same : s ≡ some symbol = ground (arith, h, e) in
            rw (get_or_intern, e) (resolve-static_symbol interner text symbol (rw (same) at e))
        | inl e ↦ elim (Option-cases (cached interner.pool.mem k text cache)) [
          | inr (s, f) ↦
              let same : s ≡ some symbol = ground (arith, h, e, f) in
              let tiny : length text ≤ 8 = elim safe [
                | inl t ↦ t
                | inr miss ↦ absurd (ground (arith, f, miss))
              ] in
              rw (get_or_intern, e, intern_hashed, f)
                (resolve-cached symbol sound bytes tiny (f ∙ ap some same))
          | inl f ↦ elim (Option-cases (intern_in_shard tables hash_one debug interner k text).0) [
            | inl g ↦ absurd (ground (arith, h, e, f, g))
            | inr ((t, s), g) ↦
                let same : s ≡ symbol = ground (arith, h, e, f, g) in
                let r =
                  resolve-intern_in_shard tables hash_one debug interner valid placed few text short
                    k t s g in
                rw (get_or_intern, e, intern_hashed, f, g) (rw (same) at r)
          ]
        ]
      ]
