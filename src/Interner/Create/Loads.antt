-- ===== src/Interner/Create/Loads.antt =====
-- The loop of `from_bytes` in crates/database/src/core/string_interner.rs ends.
use boomerang.Base.{
  ℕ, zero, suc, ◌+◌, ◌-◌, ◌%◌, ◌^◌, ◌≤◌, ◌<◌, ◌≢◌, Bool, Option, none, some, List, length, inl, inr,
  Bool-cases, Option-cases, ltb, leb, arith,
}
use boomerang.Base.Order.{Str}
use boomerang.Base.Outcome.{stuck}
use boomerang.Base.LittleEndian.{from_le_bytes}
use boomerang.Interner.Pool.{Memory, padded_record_size}
use boomerang.Interner.Pool.Grows.{padded-le}
use boomerang.Interner.Types.{HashTable, Entry, StringInterner}
use boomerang.Interner.Lookup.{slice}
use boomerang.Interner.Intern.{insert_unique}
use boomerang.Interner.Create.{insert_text, load_records, load_into, load_bytes}

-- The record at `cursor`: its length, and the end of its text.
abbrev record_len : List ℕ → ℕ → ℕ
record_len bytes cursor = from_le_bytes (slice bytes cursor (cursor + 4))

abbrev record_end : List ℕ → ℕ → ℕ
record_end bytes cursor = cursor + 4 + record_len bytes cursor

-- In a buffer of less than 4 GiB each round moves the cursor.
load_records_ends :
    {A S : Type 0} (insert : S → Str → Option A × S) (check : List ℕ → Option Str) (bytes : List ℕ)
    (fuel cursor : ℕ) (interner : S)
    → length bytes + 8 < 2 ^ 32
    → length bytes - cursor < fuel
    → load_records insert check bytes fuel cursor interner ≢ stuck
unfolding load_records
load_records_ends insert check bytes zero cursor interner h k e = absurd (omega arith)
load_records_ends insert check bytes (suc fuel) cursor interner h k e =
    elim (Bool-cases (ltb (length bytes) (cursor + 4))) [
      | inl t ↦ absurd (ground (arith, e, t))
      | inr t ↦ elim (Bool-cases (ltb (length bytes) (record_end bytes cursor))) [
        | inl u ↦ absurd (ground (arith, e, t, u))
        | inr u ↦
            let text = check (slice bytes (cursor + 4) (record_end bytes cursor)) in
            elim (Option-cases (insert_text insert interner text)) [
              | inl q ↦ absurd (ground (arith, e, t, u, q))
              | inr (interner', q) ↦
                  let len = record_len bytes cursor in
                  let fits : record_end bytes cursor ≤ length bytes = ground arith in
                  let moved = padded-le len (omega arith) in
                  load_records_ends insert check bytes fuel
                    (cursor + padded_record_size (len % 2 ^ 32)) interner' h (omega arith)
                    (rw (t, u, q) at e)
            ]
      ]
    ]

module _ (tables : HashTable Entry) (hash_one : Str → ℕ) (debug : Bool)
    (check : List ℕ → Option Str) where
  load_into_ends :
      (bytes : List ℕ) (made : Option (StringInterner tables.Table))
      → length bytes + 8 < 2 ^ 32
      → load_into tables hash_one debug check bytes made ≢ stuck
  unfolding load_into
  load_into_ends bytes none h e = cc
  load_into_ends bytes (some interner) h e = elim (Bool-cases (leb (length bytes) 4)) [
    | inl t ↦ absurd (ground (arith, e, t))
    | inr t ↦
        load_records_ends (insert_unique tables hash_one debug) check bytes (length bytes) 4
          interner h (ground arith) (rw (t) at e)
  ]

  -- `from_bytes` and `from_bytes_unchecked` end on every buffer of less than 4 GiB less eight
  -- bytes: as many rounds as there are bytes are enough.
  pub load_bytes_ends :
      (next_id : ℕ) (fresh : Memory) (bytes : List ℕ)
      → length bytes + 8 < 2 ^ 32
      → (load_bytes tables hash_one debug check next_id fresh bytes).0 ≢ stuck
  unfolding load_bytes
  load_bytes_ends next_id fresh bytes h = load_into_ends bytes _ h
