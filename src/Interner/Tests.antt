-- ===== src/Interner/Tests.antt =====
-- Runs of the interner of crates/database/src/core/string_interner.rs, with a list for hashbrown's
-- table, and the theorems at concrete inputs.
use boomerang.Base.{
  ℕ, ◌+◌, ◌≢◌, ◌++◌, ◌==◌, ◌≡◌, ◌⊎◌, inl, inr, refl, sym, ap, ◌∙◌, Bool, true, false, Option, none,
  some, Bool-cases, List, [], ◌∷◌, if◌then◌else◌, arith,
}
use boomerang.Base.Order.{Str}
use boomerang.Base.Order.{eq_str}
use boomerang.Base.Outcome.{stuck}
use boomerang.Base.LittleEndian.{le_bytes}
use boomerang.Interner.Pool
use boomerang.Interner.Pool.{Memory, MemoryPool, new_cursor, new_cursors, read, write, alloc}
use boomerang.Interner.Pool.Alloc.{IsPool, alloc-IsPool}
use boomerang.Interner.Pool.Grows.{text_at-alloc}
use boomerang.Interner.Pool.Create.{new-IsPool}
use boomerang.Interner.Strings
use boomerang.Interner.Strings.{text_at, push}
use boomerang.Interner.Strings.Push.{get-push}
use boomerang.Interner.Cache
use boomerang.Interner.Cache.{Key, candidate, first_slot, matches, cached, fill}
use boomerang.Interner.Cache.Remembers.{cached-fill_short, cached-fill_long}
use boomerang.Interner.Utf8.{is_utf8, valid_from, lead, from_utf8}
use boomerang.Interner.Lookup.{static_symbol}
use boomerang.Interner.Hash.Injective.{prefix8_injective}
use boomerang.Interner.Types.{HashTable, Entry}
use boomerang.Interner.Create.{load_bytes}
use boomerang.Interner.Create.Loads.{load_bytes_ends}

module _ {A : Type 0} where
  abbrev pub find : (A → Bool) → List (ℕ × A) → Option A
  find test [] = none
  find test ((k, a) ∷ t) = let rest = find test t in if test a then some a else rest

  abbrev pub Holds : List (ℕ × A) → ℕ → A → Type 0
  Holds [] h b = ⊥
  Holds ((k, a) ∷ t) h b = ((h ≡ k) × (b ≡ a)) ⊎ Holds t h b

  pub find-some :
      (test : A → Bool) (t : List (ℕ × A)) {a : A}
      → find test t ≡ some a
      → ((k : ℕ) × Holds t k a) × (test a ≡ true)
  find-some test [] h = cc
  find-some test ((k, a) ∷ t) {a = b} h = elim (Bool-cases (test a)) [
    | inl e ↦ let p : a ≡ b = ground (arith, h, e) in ((k, inl (refl, sym p)), ap test (sym p) ∙ e)
    | inr e ↦ let ((j, m), q) = find-some test t (rw (e) at h) in ((j, inr m), q)
  ]

  pub find-none :
      (test : A → Bool) (t : List (ℕ × A)) (h : ℕ) (b : A)
      → find test t ≡ none
      → Holds t h b
      → test b ≡ false
  find-none test [] h b e m = absurd m
  find-none test ((k, a) ∷ t) h b e (inl (p, q)) = ap test q ∙ ground (arith, e)
  find-none test ((k, a) ∷ t) h b e (inr m) =
      let e' : find test t ≡ none = ground (arith, e) in find-none test t h b e' m

abbrev pub list_table : HashTable Entry
list_table = record {
  Table = List (ℕ × Entry);
  with_capacity = λ n. [];
  find = λ h. find;
  insert_unique = λ h a hasher t. (h, a) ∷ t;
  Holds = Holds;
  with_capacity-Holds = λ n h a m. m;
  find-some = λ h. find-some;
  find-none = λ h test t a. find-none test t h a;
  insert_unique-Holds = λ h a hasher t p q k b m. m;
  insert_unique_self = λ h a hasher t p q. inl (refl, refl);
  insert_unique_keeps = λ h a hasher t p q k b m. inr m;
}

abbrev pub blank : Memory
blank i = 0

abbrev pub hello : Str
hello = b'h' ∷ b'e' ∷ b'l' ∷ b'l' ∷ b'o' ∷ []

abbrev long_name : Str
long_name = hello ++ hello

-- Two regions of 48 bytes.
abbrev pub small_pool : MemoryPool
small_pool = record {
  mem = write blank 0 (le_bytes 4 2);
  cursors = new_cursors 2;
  region_size = 48;
  header_size = 4;
  capacity = 103;
}

small_pool-new : Pool.new blank 103 2 ≡ some small_pool
unfolding Pool.new
small_pool-new = refl

alloc_runs : (alloc true small_pool 1 hello).0 ≡ some 52
unfolding alloc new_cursors
alloc_runs = refl

small_pool-IsPool : IsPool small_pool
small_pool-IsPool = new-IsPool blank 103 2 (omega arith) small_pool-new

alloc-IsPool_example : IsPool (alloc true small_pool 1 hello).1
alloc-IsPool_example = alloc-IsPool true small_pool 1 hello small_pool-IsPool

text_at-alloc_example :
    text_at (alloc true small_pool 1 hello).1.mem 52 ≡ record { ptr = 56; bytes = hello }
text_at-alloc_example =
    text_at-alloc true small_pool small_pool-IsPool 1 hello (omega arith) 52 alloc_runs

get-push_example :
    ((push Strings.new 52).0 ≡ some 0)
    × (Strings.get (push Strings.new 52).1 0 blank
        ≡ (if 0 == 0 then some (text_at blank 52) else Strings.get Strings.new 0 blank))
get-push_example = get-push Strings.new 52 0 blank (omega arith) (omega arith)

abbrev short_key : Key
short_key = record { interner_id = 1; hash = 7; len = 5; prefix = 9 }

abbrev long_key : Key
long_key = record { interner_id = 1; hash = 7; len = 10; prefix = 9 }

no_candidate : (candidate short_key Cache.new ≡ none) × (candidate long_key Cache.new ≡ none)
unfolding candidate first_slot matches
no_candidate = (refl, refl)

cached-fill_short_example :
    cached blank short_key hello (fill short_key 56 (record { raw = 1 }) Cache.new)
    ≡ some (some (record { raw = 1 }))
cached-fill_short_example =
    cached-fill_short blank short_key hello 56 (record { raw = 1 }) Cache.new no_candidate.0
      (omega arith) (omega arith)

-- A text of ten bytes, at the offset 52.
abbrev filled : Memory
filled = write blank 56 long_name

cached-fill_long_example :
    cached filled long_key long_name
      (fill long_key (text_at filled 52).ptr (record { raw = 1 }) Cache.new)
    ≡ (if eq_str (read filled (52 + 8) 10) long_name
        then some (some (record { raw = 1 }))
        else none)
cached-fill_long_example =
    cached-fill_long filled long_key long_name 52 (record { raw = 1 }) Cache.new no_candidate.1
      (omega arith) (omega arith)

-- It is not found in the cache.
not_found : eq_str (read filled (52 + 8) 10) long_name ≡ false
unfolding read write eq_str
not_found = refl

hello_utf8 : is_utf8 hello ≡ true
unfolding is_utf8 valid_from lead
hello_utf8 = refl

hello_hashed : static_symbol hello ≡ none
unfolding static_symbol
hello_hashed = refl

prefix8_injective_example : hello ≡ hello
prefix8_injective_example =
    prefix8_injective hello hello (omega arith) (omega arith) hello_utf8 hello_hashed refl
      (omega arith) refl

load_bytes_ends_example :
    (load_bytes list_table (λ s. 0) true from_utf8 1 blank (le_bytes 4 2 ++ le_bytes 4 1)).0 ≢ stuck
unfolding le_bytes
load_bytes_ends_example =
    load_bytes_ends list_table (λ s. 0) true from_utf8 1 blank (le_bytes 4 2 ++ le_bytes 4 1)
      (omega arith)
