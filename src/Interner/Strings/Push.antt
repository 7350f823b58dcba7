-- ===== src/Interner/Strings/Push.antt =====
-- What `LockFreeStringArray::push` of crates/database/src/core/string_interner.rs does to later reads.
use boomerang.Base.{
  ℕ, suc, ◌/◌, ◌%◌, ◌^◌, ◌<◌, ◌≡◌, ◌≢◌, refl, Bool-cases, Option-cases, inl, inr, Option, none,
  some, true, ltb, ◌==◌, if◌then◌else◌, arith,
}
use boomerang.Interner.Pool.{Memory}
use boomerang.Interner.Strings.{
  LockFreeStringArray, Text, text_at, get, get_from_chunk, load_chunk, push, chunk_to_fill, store,
  put_chunk,
}

-- The chunk that a write goes to holds what was there and the new offset.
get_from_chunk-store :
    (strings : LockFreeStringArray) (offset i : ℕ) (mem : Memory)
    → i ≢ strings.len
    → i / 4096 ≡ strings.len / 4096
    → get_from_chunk
        (store (chunk_to_fill strings (strings.len / 4096)) (strings.len % 4096) offset)
        (i % 4096)
        mem
      ≡ elim (load_chunk strings (i / 4096)) as (λ o. Option Text) [
        | none ↦ none
        | some chunk ↦ get_from_chunk chunk (i % 4096) mem
      ]
unfolding get_from_chunk store chunk_to_fill load_chunk
get_from_chunk-store strings offset i mem ne same =
    let off : i % 4096 ≢ strings.len % 4096 = omega arith in
    elim (Option-cases (strings.chunks (strings.len / 4096))) [
      | inl e ↦ ground (arith, e, off, same)
      | inr (c, e) ↦ rw (same) (ground (arith, e, off))
    ]

-- What `push` makes of an array that is not full.
pushed : LockFreeStringArray → ℕ → LockFreeStringArray
unfolding put_chunk
pushed strings offset = record {
  chunks =
      put_chunk strings.chunks (strings.len / 4096)
        (store (chunk_to_fill strings (strings.len / 4096)) (strings.len % 4096) offset);
  len = suc strings.len;
}

push-pushed :
    (strings : LockFreeStringArray) (offset : ℕ)
    → strings.len < 2 ^ 24
    → push strings offset ≡ (some strings.len, pushed strings offset)
unfolding push pushed
push-pushed strings offset h = let c : ltb (strings.len / 4096) 4096 ≡ true = ground arith in rw (c)

get-pushed :
    (strings : LockFreeStringArray) (offset i : ℕ) (mem : Memory)
    → offset ≢ 0
    → get (pushed strings offset) i mem
      ≡ (if i == strings.len then some (text_at mem offset) else get strings i mem)
unfolding get pushed put_chunk load_chunk store
get-pushed strings offset i mem ne = elim (Bool-cases (i == strings.len)) [
  | inl e ↦
      let same : i ≡ strings.len = ground arith in rw (same, get_from_chunk, store) (ground arith)
  | inr e ↦ elim (Bool-cases (i / 4096 == strings.len / 4096)) [
    | inl f ↦
        let p = get_from_chunk-store strings offset i mem (ground arith) (ground arith) in
        ground (arith, e, f, p)
    | inr f ↦ ground (arith, e, f)
  ]
]

-- A push that returned an index.
pub push-some :
    (strings : LockFreeStringArray) (offset : ℕ) {n : ℕ}
    → (push strings offset).0 ≡ some n
    → (n ≡ strings.len) × (strings.len < 2 ^ 24)
unfolding push
push-some strings offset h = (ground (arith, h), ground (arith, h))

-- A push of an offset to an array that is not full returns the array's length as the index, and
-- then that index reads the text at the offset, and every other index what it read before.
pub get-push :
    (strings : LockFreeStringArray) (offset i : ℕ) (mem : Memory)
    → strings.len < 2 ^ 24
    → offset ≢ 0
    → ((push strings offset).0 ≡ some strings.len)
      × (get (push strings offset).1 i mem
          ≡ (if i == strings.len then some (text_at mem offset) else get strings i mem))
get-push strings offset i mem h ne =
    rw (push-pushed strings offset h) (refl, get-pushed strings offset i mem ne)

pub len-push :
    (strings : LockFreeStringArray) (offset : ℕ)
    → strings.len < 2 ^ 24
    → (push strings offset).1.len ≡ suc strings.len
unfolding pushed
len-push strings offset h = rw (push-pushed strings offset h) refl
