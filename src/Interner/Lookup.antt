-- ===== src/Interner/Lookup.antt =====
-- `get`, `resolve` and the small queries of `StringInterner` in
-- crates/database/src/core/string_interner.rs. `none` of an outer option is a panic.
use boomerang.Base.{
  ℕ, suc, ◌+◌, ◌-◌, ◌/◌, ◌%◌, ◌^◌, Bool, true, false, ◌&&◌, Option, none, some, List, [], ◌∷◌,
  length, get_elem?, take, drop, ltb, leb, ◌==◌, if◌then◌else◌,
}
use boomerang.Base.Order.{Str, eq_str}
use boomerang.Base.LittleEndian.{from_le_bytes}
use boomerang.Interner.Symbol
use boomerang.Interner.Symbol.{Symbol, shard_id, index}
use boomerang.Interner.Pool.{Memory}
use boomerang.Interner.Strings.{LockFreeStringArray, Text, chunk_size, load_chunk, get_unchecked}
use boomerang.Interner.Strings
use boomerang.Interner.Cache.{Key, ThreadLocalCache, cached, fill}
use boomerang.Interner.Utf8.{from_utf8}
use boomerang.Interner.Hash.{prefix8, hash_of}
use boomerang.Interner.Types.{HashTable, Entry, Shard, StringInterner}

abbrev pub static_shard_id : ℕ
static_shard_id = 255

-- The early returns for the empty text and for one ASCII character. The outer `none` is a text
-- that is neither.
unfoldable pub static_symbol : Str → Option (Option Symbol)
static_symbol [] = some (Symbol.new static_shard_id 0)
static_symbol (b ∷ []) = if ltb b 128 then some (Symbol.new static_shard_id (b + 1)) else none
static_symbol _ = none

-- `ASCII_STRINGS[i]`
abbrev pub ascii_string : ℕ → Str
ascii_string i = i ∷ []

-- The comparison of a stored text. `none` is undefined behaviour or a panic on a symbol that no call
-- inserts, and is no match here.
unfoldable pub is_text : Str → Option Text → Bool
is_text text none = false
is_text text (some t) = eq_str t.bytes text

unfoldable pub text_of : LockFreeStringArray → Memory → Symbol → Option Text
text_of strings mem symbol = elim (index symbol) [
  | none ↦ none
  | some i ↦ Strings.get strings i mem
]

unfoldable pub text_of_unchecked : LockFreeStringArray → Memory → Symbol → Option Text
text_of_unchecked strings mem symbol = elim (index symbol) [
  | none ↦ none
  | some i ↦ get_unchecked strings i mem
]

-- The closure of `find` and of `entry`, with the checked read of the text.
unfoldable pub is_entry : LockFreeStringArray → Memory → Key → Str → Entry → Bool
unfolding is_text text_of
is_entry strings mem k text e =
    e.hash == k.hash && (e.prefix == k.prefix && is_text text (text_of strings mem e.symbol))

-- The closure of `find` in `get_or_intern`, with the unchecked read.
unfoldable pub is_entry_unchecked : LockFreeStringArray → Memory → Key → Str → Entry → Bool
unfolding is_text text_of_unchecked
is_entry_unchecked strings mem k text e =
    e.hash == k.hash
    && (e.prefix == k.prefix && is_text text (text_of_unchecked strings mem e.symbol))

module _ (tables : HashTable Entry) (hash_one : Str → ℕ) where
  abbrev pub Interner : Type 0
  Interner = StringInterner tables.Table

  unfoldable pub key_of : Interner → Str → Key
  unfolding hash_of prefix8
  key_of interner text = record {
    interner_id = interner.interner_id;
    hash = hash_of hash_one text;
    len = length text;
    prefix = prefix8 text;
  }

  -- `hash & shard_mask`: the mask is a power of two less one.
  unfoldable pub shard_of : Interner → Key → ℕ
  shard_of interner k = k.hash % suc interner.shard_mask

  -- `get` behind the cache: the entry's text and symbol.
  unfoldable pub find_text : Interner → Key → Str → Option (Option (Text × Symbol))
  unfolding is_entry text_of shard_of
  find_text interner k text = elim (get_elem? interner.shards (shard_of interner k)) [
    | none ↦ none
    | some shard ↦
        elim (tables.find k.hash (is_entry shard.strings interner.pool.mem k text) shard.entries) [
          | none ↦ some none
          | some e ↦ elim (text_of shard.strings interner.pool.mem e.symbol) [
            | none ↦ some none
            | some t ↦ some (some (t, e.symbol))
          ]
        ]
  ]

  -- `get` behind the early returns. What is remembered is where the text starts.
  unfoldable pub get_hashed :
      Interner → Key → Str → ThreadLocalCache → Option (Option Symbol) × ThreadLocalCache
  unfolding find_text
  get_hashed interner k text cache = elim (cached interner.pool.mem k text cache) [
    | some none ↦ (none, cache)
    | some (some symbol) ↦ (some (some symbol), cache)
    | none ↦ elim (find_text interner k text) [
      | none ↦ (none, cache)
      | some none ↦ (some none, cache)
      | some (some (t, symbol)) ↦ (some (some symbol), fill k (t.ptr % 2 ^ 32) symbol cache)
    ]
  ]

  unfoldable pub get : Interner → Str → ThreadLocalCache → Option (Option Symbol) × ThreadLocalCache
  unfolding get_hashed static_symbol key_of
  get interner text cache = elim (static_symbol text) [
    | some none ↦ (none, cache)
    | some (some symbol) ↦ (some (some symbol), cache)
    | none ↦ get_hashed interner (key_of interner text) text cache
  ]

  unfoldable pub contains : Interner → Str → ThreadLocalCache → Option Bool × ThreadLocalCache
  unfolding get
  contains interner text cache =
      let (found, cache') = get interner text cache in
      elim found [
        | none ↦ (none, cache')
        | some none ↦ (some false, cache')
        | some (some _) ↦ (some true, cache')
      ]

-- The static symbols: the empty text and the 128 characters.
unfoldable pub resolve_static : ℕ → Option Str
resolve_static i =
    if i == 0 then some [] else if leb i 128 then some (ascii_string (i - 1)) else none

module _ {T : Type 0} where
  unfoldable pub resolve : StringInterner T → Symbol → Option (Option Str)
  unfolding resolve_static
  resolve interner symbol = elim (index symbol) [
    | none ↦ none
    | some i ↦
        if shard_id symbol == static_shard_id
        then some (resolve_static i)
        else elim (get_elem? interner.shards (shard_id symbol)) [
          | none ↦ some none
          | some shard ↦ elim (Strings.get shard.strings i interner.pool.mem) [
            | none ↦ some none
            | some t ↦ some (some t.bytes)
          ]
        ]
  ]

  -- `none` is a panic or undefined behaviour.
  unfoldable pub resolve_unchecked : StringInterner T → Symbol → Option Str
  resolve_unchecked interner symbol = elim (index symbol) [
    | none ↦ none
    | some i ↦
        if shard_id symbol == static_shard_id
        then (if i == 0 then some [] else if leb i 128 then some (ascii_string (i - 1)) else none)
        else elim (get_elem? interner.shards (shard_id symbol)) [
          | none ↦ none
          | some shard ↦ elim (get_unchecked shard.strings i interner.pool.mem) [
            | none ↦ none
            | some t ↦ some t.bytes
          ]
        ]
  ]

  unfoldable pub offset_of : StringInterner T → Symbol → Option (Option ℕ)
  offset_of interner symbol = elim (get_elem? interner.shards (shard_id symbol)) [
    | none ↦ some none
    | some shard ↦ elim (index symbol) [
      | none ↦ none
      | some i ↦ elim (load_chunk shard.strings (i / chunk_size)) [
        | none ↦ some none
        | some chunk ↦
            let offset = chunk (i % chunk_size) in
            if offset == 0 then some none else some (some offset)
      ]
    ]
  ]

  unfoldable pub sum_len : List (Shard T) → ℕ
  sum_len [] = 0
  sum_len (s ∷ ss) = s.strings.len + sum_len ss

  unfoldable pub len : StringInterner T → ℕ
  unfolding sum_len
  len interner = sum_len interner.shards

  unfoldable pub is_empty : StringInterner T → Bool
  unfolding len
  is_empty interner = len interner == 0

-- `&bytes[from..to]` inside the bounds
abbrev pub slice : List ℕ → ℕ → ℕ → List ℕ
slice bytes from to = take (to - from) (drop from bytes)

unfoldable pub resolve_raw_offset : List ℕ → ℕ → Option Str
unfolding from_le_bytes from_utf8
resolve_raw_offset bytes offset =
    let n = from_le_bytes (slice bytes offset (offset + 4)) in
    if offset == 0
    then none
    else if ltb (length bytes) (offset + 4)
    then none
    else if ltb (length bytes) (offset + 4 + n)
    then none
    else from_utf8 (slice bytes (offset + 4) (offset + 4 + n))
