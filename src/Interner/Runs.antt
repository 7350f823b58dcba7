-- ===== src/Interner/Runs.antt =====
-- Runs of `get_or_intern` and `insert_unique` of crates/database/src/core/string_interner.rs at
-- concrete inputs.
use boomerang.Base.{ℕ, get_elem?, zero, suc, ◌≡◌, refl, inl, true, List, none, some, [], ◌∷◌, arith}
use boomerang.Base.Order.{Str, eq_str}
use boomerang.Base.LittleEndian.{le_bytes}
use boomerang.Interner.Symbol
use boomerang.Interner.Symbol.{Symbol}
use boomerang.Interner.Pool
use boomerang.Interner.Pool.{new_cursors, alloc}
use boomerang.Interner.Pool.Alloc.{IsPool}
use boomerang.Interner.Pool.Create.{new-IsPool}
use boomerang.Interner.Strings
use boomerang.Interner.Cache
use boomerang.Interner.Types.{Entry, Shard, StringInterner}
use boomerang.Interner.Lookup.{resolve}
use boomerang.Interner.Intern.{insert_unique, get_or_intern}
use boomerang.Interner.Intern.Later
use boomerang.Interner.Intern.Later.{resolve-interned}
use boomerang.Interner.Intern.Known.{Placed}
use boomerang.Interner.Intern.Answers.{IsCache, resolve-get_or_intern}
use boomerang.Interner.Intern.Keeps.{IsInterner, get_or_intern-IsInterner}
use boomerang.Interner.Tests.{list_table, small_pool, blank, hello}

abbrev empty_shard : Shard list_table.Table
empty_shard = record { entries = []; strings = Strings.new }

abbrev two_shards : StringInterner list_table.Table
two_shards = record {
  interner_id = 1;
  pool = small_pool;
  shards = empty_shard ∷ empty_shard ∷ [];
  shard_mask = 1;
}

small_pool-new : Pool.new blank 103 2 ≡ some small_pool
unfolding Pool.new
small_pool-new = refl

small_pool-IsPool : IsPool small_pool
small_pool-IsPool = new-IsPool blank 103 2 (omega arith) small_pool-new

no_entries :
    (i : ℕ) (shard : Shard list_table.Table) (h : ℕ) (e : Entry)
    → get_elem? two_shards.shards i ≡ some shard
    → ¬ list_table.Holds shard.entries h e
no_entries zero shard h e at m = let p : shard.entries ≡ [] = ground (arith, at) in rw (p) at m
no_entries (suc zero) shard h e at m =
    let p : shard.entries ≡ [] = ground (arith, at) in rw (p) at m
no_entries (suc (suc i)) shard h e at m = ground (arith, at)

two_shards-Placed : Placed list_table two_shards
unfolding Placed
two_shards-Placed i shard h e at m = absurd (no_entries i shard h e at m)

new-IsCache : IsCache two_shards Cache.new
unfolding IsCache
new-IsCache idx e h = absurd (omega arith)

abbrev first_symbol : Symbol
first_symbol = record { raw = 1 }

interned : (get_or_intern list_table (λ s. 0) true two_shards hello Cache.new).0 ≡ some first_symbol
unfolding get_or_intern Cache.cached Cache.matches new_cursors Symbol.new
interned = refl

inserted : (insert_unique list_table (λ s. 0) true two_shards hello).0 ≡ some first_symbol
unfolding insert_unique new_cursors Symbol.new
inserted = refl

resolve-get_or_intern_example :
    resolve (get_or_intern list_table (λ s. 0) true two_shards hello Cache.new).1 first_symbol
    ≡ some (some hello)
resolve-get_or_intern_example =
    resolve-get_or_intern list_table (λ s. 0) true two_shards hello Cache.new first_symbol
      small_pool-IsPool two_shards-Placed (omega arith) new-IsCache (omega arith) (omega arith)
      (inl (omega arith)) interned

two_shards-IsInterner : IsInterner list_table two_shards
unfolding IsInterner
two_shards-IsInterner =
    (small_pool-IsPool, omega arith, λ i shard h e at m. absurd (no_entries i shard h e at m))

get_or_intern-IsInterner_example :
    IsInterner list_table (get_or_intern list_table (λ s. 0) true two_shards hello Cache.new).1
get_or_intern-IsInterner_example =
    get_or_intern-IsInterner list_table (λ s. 0) true two_shards two_shards-IsInterner hello
      Cache.new

-- Another text behind it, and the first again.
abbrev more : List Str
more = (b'w' ∷ hello) ∷ hello ∷ []

abbrev inserted_interner : StringInterner list_table.Table
inserted_interner = (insert_unique list_table (λ s. 0) true two_shards hello).1

abbrev later : StringInterner list_table.Table
later = elim (Later.interned list_table (λ s. 0) true more inserted_interner Cache.new) [
  | none ↦ two_shards
  | some interner ↦ interner
]

later_lem : Later.interned list_table (λ s. 0) true more inserted_interner Cache.new ≡ some later
unfolding Later.interned insert_unique get_or_intern Cache.cached Cache.matches new_cursors
    Symbol.new Cache.fill Symbol.index Strings.get_unchecked eq_str Strings.text_at le_bytes
    Strings.get
later_lem = refl

resolve-interned_example : resolve later first_symbol ≡ some (some hello)
resolve-interned_example =
    resolve-interned list_table (λ s. 0) true two_shards hello first_symbol more Cache.new later
      two_shards-IsInterner (omega arith, (omega arith, (omega arith, tt))) inserted later_lem
