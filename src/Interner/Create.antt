-- ===== src/Interner/Create.antt =====
-- The constructors of `StringInterner` in crates/database/src/core/string_interner.rs, and the bytes
-- that it is stored as. `next_id` is NEXT_INTERNER_ID, and `fresh` what the allocator returned.
pub mod Loads
use boomerang.Base.{
  ℕ, zero, suc, ◌+◌, ◌-◌, ◌*◌, ◌/◌, ◌%◌, ◌^◌, Bool, Option, none, some, List, [], ◌∷◌, length, ltb,
  leb, if◌then◌else◌,
}
use boomerang.Base.Order.{Str}
use boomerang.Base.Outcome.{Run, ok, panic, stuck}
use boomerang.Base.LittleEndian.{from_le_bytes}
use boomerang.Interner.Pool
use boomerang.Interner.Pool.{Memory, committed_bytes, read_shard_count_header, padded_record_size}
use boomerang.Interner.Strings
use boomerang.Interner.Utf8.{from_utf8}
use boomerang.Interner.Types.{HashTable, Entry, Shard, StringInterner}
use boomerang.Interner.Lookup.{slice}
use boomerang.Interner.Intern.{insert_unique}

abbrev pub default_shard_count : ℕ
default_shard_count = 16

abbrev pub arena_capacity : ℕ
arena_capacity = 512 * 1024 * 1024

-- `count.clamp(1, 128).next_power_of_two()`
unfoldable pub round_count : ℕ → ℕ
round_count n =
    if leb n 1
    then 1
    else if leb n 2
    then 2
    else if leb n 4
    then 4
    else if leb n 8
    then 8
    else if leb n 16
    then 16
    else if leb n 32
    then 32
    else if leb n 64
    then 64
    else 128

unfoldable pub new_shards : {T : Type 0} → ℕ → T → List (Shard T)
new_shards zero t = []
new_shards (suc n) t = record { entries = t; strings = Strings.new } ∷ new_shards n t

module _ (tables : HashTable Entry) where
  unfoldable pub with_capacity_and_shards :
      ℕ → Memory → ℕ → ℕ → Option (StringInterner tables.Table) × ℕ
  unfolding round_count new_shards
  with_capacity_and_shards next_id fresh symbols count =
      let count' = round_count count in
      let per_shard = (symbols + (count' - 1)) / count' * 4 / 3 in
      let made : Option (StringInterner tables.Table) =
        elim (Pool.new fresh arena_capacity count') [
          | none ↦ none
          | some pool ↦ some (record {
            interner_id = next_id;
            pool = pool;
            shards = new_shards count' (tables.with_capacity per_shard);
            shard_mask = count' - 1;
          })
        ] in
      (made, suc next_id % 2 ^ 32)

  unfoldable pub with_capacity : ℕ → Memory → ℕ → Option (StringInterner tables.Table) × ℕ
  unfolding with_capacity_and_shards
  with_capacity next_id fresh symbols =
      with_capacity_and_shards next_id fresh symbols default_shard_count

unfoldable pub bytes : {T : Type 0} → StringInterner T → List ℕ
unfolding committed_bytes
bytes interner = committed_bytes interner.pool

-- `unwrap_or(DEFAULT_SHARD_COUNT as u32)`
unfoldable pub shard_count_of : Option ℕ → ℕ
shard_count_of none = default_shard_count
shard_count_of (some n) = n

-- `insert_unique(text)` where `from_utf8` gave a text.
unfoldable pub insert_text : {A S : Type 0} → (S → Str → Option A × S) → S → Option Str → Option S
insert_text insert interner none = some interner
insert_text insert interner (some text) =
    let (added, interner') = insert interner text in
    elim added [ none ↦ none | some _ ↦ some interner' ]

-- The loop of `from_bytes`, from `cursor` on: `check` makes a text of the bytes. The fuel is a
-- number of rounds.
unfoldable pub load_records :
    {A S : Type 0} → (S → Str → Option A × S) → (List ℕ → Option Str) → List ℕ → ℕ → ℕ → S → Run ⊥ S
unfolding insert_text from_le_bytes padded_record_size
load_records insert check bytes zero cursor interner = stuck
load_records insert check bytes (suc fuel) cursor interner =
    let len = from_le_bytes (slice bytes cursor (cursor + 4)) in
    let record_end = cursor + 4 + len in
    let next = load_records insert check bytes fuel (cursor + padded_record_size (len % 2 ^ 32)) in
    if ltb (length bytes) (cursor + 4)
    then ok interner
    else if ltb (length bytes) record_end
    then ok interner
    else elim (insert_text insert interner (check (slice bytes (cursor + 4) record_end))) [
      | none ↦ panic
      | some interner' ↦ next interner'
    ]

module _ (tables : HashTable Entry) (hash_one : Str → ℕ) (debug : Bool) where
  -- What they read into a new interner, with fuel for as many rounds as there are bytes.
  unfoldable pub load_into :
      (List ℕ → Option Str)
      → List ℕ
      → Option (StringInterner tables.Table)
      → Run ⊥ (StringInterner tables.Table)
  unfolding load_records insert_unique
  load_into check bytes none = panic
  load_into check bytes (some interner) =
      if leb (length bytes) 4
      then ok interner
      else load_records (insert_unique tables hash_one debug) check bytes (length bytes) 4 interner

  -- `from_bytes` and `from_bytes_unchecked`, which differ in `check`.
  unfoldable pub load_bytes :
      (List ℕ → Option Str) → ℕ → Memory → List ℕ → Run ⊥ (StringInterner tables.Table) × ℕ
  unfolding with_capacity_and_shards load_into shard_count_of read_shard_count_header
  load_bytes check next_id fresh bytes =
      let shard_count = shard_count_of (read_shard_count_header bytes) in
      let (made, next_id') =
        with_capacity_and_shards tables next_id fresh (length bytes / 16) shard_count in
      (load_into check bytes made, next_id')

  unfoldable pub from_bytes : ℕ → Memory → List ℕ → Run ⊥ (StringInterner tables.Table) × ℕ
  unfolding load_bytes from_utf8
  from_bytes = load_bytes from_utf8

  unfoldable pub from_bytes_unchecked :
      ℕ → Memory → List ℕ → Run ⊥ (StringInterner tables.Table) × ℕ
  unfolding load_bytes
  from_bytes_unchecked = load_bytes some
