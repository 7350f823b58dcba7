-- ===== src/Interner/Types.antt =====
-- The state of `StringInterner` in crates/database/src/core/string_interner.rs. A shard's table is
-- hashbrown's `HashTable`, which is a parameter.
use boomerang.Base.{ℕ, ◌≡◌, Bool, true, false, Option, none, some, List, ◌⊎◌}
use boomerang.Interner.Symbol.{Symbol}
use boomerang.Interner.Pool.{MemoryPool}
use boomerang.Interner.Strings.{LockFreeStringArray}

-- hashbrown's `HashTable`. `Holds t h a`: the table holds `a`, inserted under the hash `h`. `find`
-- returns an item of the table that passes the test, and none only if no item under that hash does.
-- `insert_unique` adds an item under its hash, if the hasher gives every item its hash, for it may
-- move all of them.
pub record HashTable (A : Type 0) : Type 1 where
  pub Table : Type 0
  pub with_capacity : ℕ → Table
  pub find : ℕ → (A → Bool) → Table → Option A
  pub insert_unique : ℕ → A → (A → ℕ) → Table → Table
  pub Holds : Table → ℕ → A → Type 0
  pub with_capacity-Holds : (n h : ℕ) (a : A) → ¬ Holds (with_capacity n) h a
  pub find-some :
      (h : ℕ) (test : A → Bool) (t : Table) {a : A}
      → find h test t ≡ some a
      → ((k : ℕ) × Holds t k a) × (test a ≡ true)
  pub find-none :
      (h : ℕ) (test : A → Bool) (t : Table) (a : A)
      → find h test t ≡ none
      → Holds t h a
      → test a ≡ false
  pub insert_unique-Holds :
      (h : ℕ) (a : A) (hasher : A → ℕ) (t : Table)
      → hasher a ≡ h
      → ((k : ℕ) (b : A) → Holds t k b → hasher b ≡ k)
      → (k : ℕ) (b : A) → Holds (insert_unique h a hasher t) k b
      → ((k ≡ h) × (b ≡ a)) ⊎ Holds t k b
  pub insert_unique_self :
      (h : ℕ) (a : A) (hasher : A → ℕ) (t : Table)
      → hasher a ≡ h
      → ((k : ℕ) (b : A) → Holds t k b → hasher b ≡ k)
      → Holds (insert_unique h a hasher t) h a
  pub insert_unique_keeps :
      (h : ℕ) (a : A) (hasher : A → ℕ) (t : Table)
      → hasher a ≡ h
      → ((k : ℕ) (b : A) → Holds t k b → hasher b ≡ k)
      → (k : ℕ) (b : A) → Holds t k b
      → Holds (insert_unique h a hasher t) k b

-- `(u64, u64, Symbol)`
pub record Entry : Type 0 where
  pub hash : ℕ
  pub prefix : ℕ
  pub symbol : Symbol

-- The lock is left out: one call runs at a time.
pub record Shard (T : Type 0) : Type 0 where
  pub entries : T
  pub strings : LockFreeStringArray

pub record StringInterner (T : Type 0) : Type 0 where
  pub interner_id : ℕ
  pub pool : MemoryPool
  pub shards : List (Shard T)
  pub shard_mask : ℕ
