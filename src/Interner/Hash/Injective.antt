-- ===== src/Interner/Hash/Injective.antt =====
-- The prefix of a short text of crates/database/src/core/string_interner.rs tells the text, which is
-- why a cached short text is not compared again.
use boomerang.Base.{
  ℕ, zero, suc, ◌+◌, ◌-◌, ◌*◌, ◌^◌, ◌≤◌, ◌<◌, ◌⊎◌, ◌≡◌, refl, sym, ap, ◌∙◌, none, [], ◌∷◌, length,
  All, take, drop, true, inl, inr, length-drop, arith,
}
use native.Mathlib.Nat.{pow-suc}
use boomerang.Base.Order.{Str}
use boomerang.Base.LittleEndian.{from_le_bytes}
use boomerang.Interner.Utf8.{is_utf8, valid_from, lead}
use boomerang.Interner.Lookup.{static_symbol}
use boomerang.Interner.Hash.{prefix8, load}

abbrev pub IsByte : ℕ → Type 0
IsByte b = b < 256

-- Every text that no early return answers has two bytes or more.
two_bytes : (s : Str) → is_utf8 s ≡ true → static_symbol s ≡ none → 2 ≤ length s
unfolding is_utf8 valid_from lead static_symbol
two_bytes [] h n = cc
two_bytes (b ∷ []) h n = ground arith
two_bytes (a ∷ b ∷ s) h n = omega arith

order_cases : (a b : ℕ) → (a < b) ⊎ (b ≤ a)
order_cases a b = omega arith

from_le_bytes-lt : (n : ℕ) (s : Str) → All IsByte s → length s ≤ n → from_le_bytes s < 256 ^ n
unfolding from_le_bytes
from_le_bytes-lt zero [] v h = omega arith
from_le_bytes-lt zero (b ∷ s) v h = absurd (omega arith)
from_le_bytes-lt (suc n) [] v h =
    let p = from_le_bytes-lt n [] v (omega arith) in rw (pow-suc 256 n) (omega arith)
from_le_bytes-lt (suc n) (b ∷ s) (vb, vs) h =
    let p = from_le_bytes-lt n s vs (omega arith) in rw (pow-suc 256 n) (omega arith)

from_le_bytes_injective :
    (s t : Str)
    → All IsByte s
    → All IsByte t
    → length s ≡ length t
    → from_le_bytes s ≡ from_le_bytes t
    → s ≡ t
unfolding from_le_bytes
from_le_bytes_injective [] [] vs vt e h = refl
from_le_bytes_injective [] (b ∷ t) vs vt e h = absurd (omega arith)
from_le_bytes_injective (a ∷ s) [] vs vt e h = absurd (omega arith)
from_le_bytes_injective (a ∷ s) (b ∷ t) (va, vs) (vb, vt) e h =
    let head : a ≡ b = omega arith in
    let tail = from_le_bytes_injective s t vs vt (omega arith) (omega arith) in rw (head, tail)

All-take : (n : ℕ) (s : Str) → All IsByte s → All IsByte (take n s)
All-take zero s v = tt
All-take (suc n) [] v = tt
All-take (suc n) (b ∷ s) (vb, vs) = (vb, All-take n s vs)

All-drop : (n : ℕ) (s : Str) → All IsByte s → All IsByte (drop n s)
All-drop zero s v = v
All-drop (suc n) [] v = tt
All-drop (suc n) (b ∷ s) (vb, vs) = All-drop n s vs

length-take-le : (n : ℕ) (s : Str) → length (take n s) ≤ n
length-take-le zero s = omega arith
length-take-le (suc n) [] = omega arith
length-take-le (suc n) (b ∷ s) = omega (arith, length-take-le n s)

length-take_eq : (n : ℕ) (s t : Str) → length s ≡ length t → length (take n s) ≡ length (take n t)
length-take_eq zero s t e = refl
length-take_eq (suc n) [] [] e = refl
length-take_eq (suc n) [] (b ∷ t) e = absurd (omega arith)
length-take_eq (suc n) (a ∷ s) [] e = absurd (omega arith)
length-take_eq (suc n) (a ∷ s) (b ∷ t) e = ap suc (length-take_eq n s t (omega arith))

take_all : (n : ℕ) (s : Str) → length s ≤ n → take n s ≡ s
take_all zero [] h = refl
take_all zero (b ∷ s) h = absurd (omega arith)
take_all (suc n) [] h = refl
take_all (suc n) (b ∷ s) h = ap (λ t. b ∷ t) (take_all n s (omega arith))

-- A list is told by a start and an end that leave nothing out.
covered :
    (n m : ℕ) (s t : Str)
    → m ≤ n
    → length s ≡ length t
    → take n s ≡ take n t
    → drop m s ≡ drop m t
    → s ≡ t
covered n zero s t h e p q = q
covered zero (suc m) s t h e p q = absurd (omega arith)
covered (suc n) (suc m) [] [] h e p q = refl
covered (suc n) (suc m) [] (b ∷ t) h e p q = absurd (omega arith)
covered (suc n) (suc m) (a ∷ s) [] h e p q = absurd (omega arith)
covered (suc n) (suc m) (a ∷ s) (b ∷ t) h e p q =
    let head : a ≡ b = cc in
    let tail = covered n m s t (omega arith) (omega arith) (cc) q in rw (head, tail)

-- Both texts, of one length.
module _ (s t : Str) (vs : All IsByte s) (vt : All IsByte t) (e : length s ≡ length t) where
  load_injective : (n i : ℕ) → load n i s ≡ load n i t → take n (drop i s) ≡ take n (drop i t)
  unfolding load
  load_injective n i h =
      from_le_bytes_injective (take n (drop i s)) (take n (drop i t))
        (All-take n (drop i s) (All-drop i s vs)) (All-take n (drop i t) (All-drop i t vt))
        (length-take_eq n (drop i s) (drop i t)
          (length-drop i s ∙ (ap (λ k. k - i) e ∙ sym (length-drop i t))))
        h

  -- The last `n` bytes.
  load_end_injective :
      (n : ℕ)
      → load n (length s - n) s ≡ load n (length s - n) t
      → drop (length s - n) s ≡ drop (length s - n) t
  load_end_injective n h =
      let i = length s - n in
      let fits : length (drop i s) ≤ n = omega (arith, length-drop i s) in
      let fits' : length (drop i t) ≤ n = omega (arith, length-drop i t) in
      sym (take_all n (drop i s) fits) ∙ (load_injective n i h ∙ take_all n (drop i t) fits')

load-lt : (n i : ℕ) (s : Str) → All IsByte s → load n i s < 256 ^ n
unfolding load
load-lt n i s v =
    from_le_bytes-lt n (take n (drop i s)) (All-take n (drop i s) (All-drop i s v))
      (length-take-le n (drop i s))

prefix8_eight : (s : Str) → length s ≡ 8 → prefix8 s ≡ load 8 0 s
unfolding prefix8 load
prefix8_eight s h = rw (h) refl

prefix8_four :
    (s : Str)
    → 4 ≤ length s
    → length s < 8
    → prefix8 s ≡ load 4 (length s - 4) s * 2 ^ 32 + load 4 0 s
unfolding prefix8 load
prefix8_four s h k = ground (arith, h, k)

prefix8_two :
    (s : Str)
    → 2 ≤ length s
    → length s < 4
    → prefix8 s ≡ load 1 (length s - 1) s * 2 ^ 16 + load 2 0 s
unfolding prefix8 load
prefix8_two s h k = ground (arith, h, k)

-- A first word below `bound` and a last word, of one length.
module _ (s t : Str) (vs : All IsByte s) (vt : All IsByte t) (e : length s ≡ length t) where
  words_injective :
      (n m : ℕ)
      → length s - m ≤ n
      → load m (length s - m) s ≡ load m (length s - m) t
      → load n 0 s ≡ load n 0 t
      → s ≡ t
  words_injective n m h last first =
      covered n (length s - m) s t h e (load_injective s t vs vt e n 0 first)
        (load_end_injective s t vs vt e m last)

-- Two texts in UTF-8 that no early return answers, of one length, at most eight bytes, with one
-- prefix, are the same text.
pub prefix8_injective :
    (s t : Str)
    → All IsByte s
    → All IsByte t
    → is_utf8 s ≡ true
    → static_symbol s ≡ none
    → length s ≡ length t
    → length s ≤ 8
    → prefix8 s ≡ prefix8 t
    → s ≡ t
prefix8_injective s t vs vt utf8 hashed e short p =
    let two = two_bytes s utf8 hashed in
    elim (order_cases (length s) 4) [
      | inl b4 ↦
          let q = sym (prefix8_two s two b4) ∙ (p ∙ prefix8_two t (omega arith) (omega arith)) in
          let r = rw (← e) at q in
          let low = load-lt 2 0 s vs in
          let low' = load-lt 2 0 t vt in
          words_injective s t vs vt e 2 1 (omega arith) (omega arith) (omega arith)
      | inr ge4 ↦ elim (order_cases (length s) 8) [
        | inl b8 ↦
            let q =
              sym (prefix8_four s (omega arith) b8)
              ∙ (p ∙ prefix8_four t (omega arith) (omega arith)) in
            let r = rw (← e) at q in
            let low = load-lt 4 0 s vs in
            let low' = load-lt 4 0 t vt in
            words_injective s t vs vt e 4 4 (omega arith) (omega arith) (omega arith)
        | inr ge8 ↦
            let eight : length s ≡ 8 = omega arith in
            let q = sym (prefix8_eight s eight) ∙ (p ∙ prefix8_eight t (sym e ∙ eight)) in
            words_injective s t vs vt e 8 8 (omega arith) (rw (eight) q) q
      ]
    ]
