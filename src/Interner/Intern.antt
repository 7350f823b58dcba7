-- ===== src/Interner/Intern.antt =====
-- `get_or_intern` and `insert_unique` of `StringInterner` in
-- crates/database/src/core/string_interner.rs. A call returns `none` where it panics, and the state
-- that it leaves.
pub mod Resolves
pub mod Known
pub mod Answers
pub mod Keeps
pub mod Stays
pub mod Later
use boomerang.Base.{ℕ, ◌+◌, ◌%◌, ◌^◌, Bool, Option, none, some, length, get_elem?, set}
use boomerang.Base.Order.{Str}
use boomerang.Interner.Symbol
use boomerang.Interner.Symbol.{Symbol}
use boomerang.Interner.Pool.{read, alloc}
use boomerang.Interner.Strings.{Text, push}
use boomerang.Interner.Cache.{Key, ThreadLocalCache, cached, fill}
use boomerang.Interner.Types.{HashTable, Entry, Shard, StringInterner}
use boomerang.Interner.Lookup.{
  static_symbol, text_of, text_of_unchecked, is_entry, is_entry_unchecked, key_of, shard_of,
}

module _ {T : Type 0} where
  abbrev pub with_shard : StringInterner T → ℕ → Shard T → StringInterner T
  with_shard interner shard_id shard = record interner {
    shards = set interner.shards shard_id shard;
  }

module _ (tables : HashTable Entry) (debug : Bool) where
  -- A new record, in the pool, in the shard's array and in its table: its offset and its symbol.
  unfoldable pub add_record :
      StringInterner tables.Table
      → ℕ
      → Shard tables.Table
      → Key
      → Str
      → Option (ℕ × Symbol) × StringInterner tables.Table
  unfolding alloc push
  add_record interner shard_id shard k text =
      let (allocated, pool) = alloc debug interner.pool shard_id text in
      elim allocated [
        | none ↦ (none, record interner { pool = pool })
        | some offset ↦
            let (pushed, strings) = push shard.strings offset in
            elim pushed [
              | none ↦ (
                none,
                with_shard (record interner { pool = pool }) shard_id
                    (record shard { strings = strings }),
              )
              | some i ↦ elim (Symbol.new (shard_id % 256) i) [
                | none ↦ (
                  none,
                  with_shard (record interner { pool = pool }) shard_id
                      (record shard { strings = strings }),
                )
                | some symbol ↦ (
                  some (offset, symbol),
                  with_shard (record interner { pool = pool }) shard_id
                      (record {
                        entries =
                            tables.insert_unique k.hash
                              (record { hash = k.hash; prefix = k.prefix; symbol = symbol })
                              (λ e. e.hash) shard.entries;
                        strings = strings;
                      }),
                )
              ]
            ]
      ]

module _ (tables : HashTable Entry) (hash_one : Str → ℕ) (debug : Bool) where
  unfoldable pub insert_unique :
      StringInterner tables.Table → Str → Option Symbol × StringInterner tables.Table
  unfolding add_record static_symbol key_of shard_of
  insert_unique interner text = elim (static_symbol text) [
    | some s ↦ (s, interner)
    | none ↦
        let k = key_of tables hash_one interner text in
        let shard_id = shard_of tables hash_one interner k in
        elim (get_elem? interner.shards shard_id) [
          | none ↦ (none, interner)
          | some shard ↦
              let (added, interner') = add_record tables debug interner shard_id shard k text in
              elim added [
                | none ↦ (none, interner')
                | some (offset, symbol) ↦ (some symbol, interner')
              ]
        ]
  ]

  -- The read lock: an entry, and its text by `get(..).unwrap()`. The outer `none` is its panic.
  unfoldable pub find_known :
      StringInterner tables.Table → Shard tables.Table → Key → Str → Option (Option (Text × Symbol))
  unfolding is_entry_unchecked text_of
  find_known interner shard k text =
      elim (tables.find k.hash (is_entry_unchecked shard.strings interner.pool.mem k text)
        shard.entries) [
          | none ↦ some none
          | some e ↦ elim (text_of shard.strings interner.pool.mem e.symbol) [
            | none ↦ none
            | some t ↦ some (some (t, e.symbol))
          ]
        ]

  -- The write lock: the entry that is there, or a new one.
  unfoldable pub find_or_add :
      StringInterner tables.Table
      → ℕ
      → Shard tables.Table
      → Key
      → Str
      → Option (Text × Symbol) × StringInterner tables.Table
  unfolding is_entry text_of_unchecked add_record read
  find_or_add interner shard_id shard k text =
      elim (tables.find k.hash (is_entry shard.strings interner.pool.mem k text) shard.entries) [
        | some e ↦ elim (text_of_unchecked shard.strings interner.pool.mem e.symbol) [
          | none ↦ (none, interner)
          | some t ↦ (some (t, e.symbol), interner)
        ]
        | none ↦
            let (added, interner') = add_record tables debug interner shard_id shard k text in
            elim added [
              | none ↦ (none, interner')
              | some (offset, symbol) ↦ (
                some (
                  record {
                    ptr = offset + 4;
                    bytes = read interner'.pool.mem (offset + 4) (length text);
                  },
                  symbol,
                ),
                interner',
              )
            ]
      ]

  -- The text and the symbol, from the shard.
  unfoldable pub intern_in_shard :
      StringInterner tables.Table → Key → Str → Option (Text × Symbol) × StringInterner tables.Table
  unfolding find_known find_or_add shard_of
  intern_in_shard interner k text =
      let shard_id = shard_of tables hash_one interner k in
      elim (get_elem? interner.shards shard_id) [
        | none ↦ (none, interner)
        | some shard ↦ elim (find_known interner shard k text) [
          | none ↦ (none, interner)
          | some (some found) ↦ (some found, interner)
          | some none ↦ find_or_add interner shard_id shard k text
        ]
      ]

  -- `get_or_intern` behind the early returns. What is remembered is where the text starts.
  unfoldable pub intern_hashed :
      StringInterner tables.Table
      → Key
      → Str
      → ThreadLocalCache
      → Option Symbol × StringInterner tables.Table × ThreadLocalCache
  unfolding intern_in_shard
  intern_hashed interner k text cache = elim (cached interner.pool.mem k text cache) [
    | some s ↦ (s, interner, cache)
    | none ↦
        let (found, interner') = intern_in_shard interner k text in
        elim found [
          | none ↦ (none, interner', cache)
          | some (t, symbol) ↦ (some symbol, interner', fill k (t.ptr % 2 ^ 32) symbol cache)
        ]
  ]

  unfoldable pub get_or_intern :
      StringInterner tables.Table
      → Str
      → ThreadLocalCache
      → Option Symbol × StringInterner tables.Table × ThreadLocalCache
  unfolding intern_hashed static_symbol key_of
  get_or_intern interner text cache = elim (static_symbol text) [
    | some s ↦ (s, interner, cache)
    | none ↦ intern_hashed interner (key_of tables hash_one interner text) text cache
  ]
