-- ===== src/Builder/Kahn/Release.antt =====
-- The inner loop of the topological order in crates/database/src/core/schema_builder.rs: what it does
-- to the in-degrees and to the queue.
use boomerang.Base.{
  ℕ, suc, ◌+◌, ◌<◌, ◌≡◌, ◌≢◌, refl, sym, ap, ◌∙◌, inl, inr, Bool, true, some, List, [], ◌∷◌, ◌++◌,
  get_elem?, set, get_elem?-set_self, get_elem?-set_ne, lt-length, ◌==◌, if◌then◌else◌, arith,
}
use boomerang.Base.Int.{pos}
use boomerang.Base.Search.{eq_cases}
use boomerang.Builder.Kahn.{Front, dec, is_zero, release, release_all}
use boomerang.Builder.Kahn.Count.{count, count-append}

-- How often a table is in the queue: once if it is not handled and has no references left.
unfoldable pub ready : Bool → ℕ → ℕ
ready live degree = if live then (if degree == 0 then 1 else 0) else 0

pub record Waits (n : ℕ) (live : ℕ → Bool) (degree : ℕ → ℕ) (front : Front) : Type 0 where
  pub degrees : (v : ℕ) → v < n → get_elem? front.in_degree v ≡ some (pos (degree v))
  pub queued : (v : ℕ) → count v front.queue ≡ ready (live v) (degree v)

pub Waits-ext :
    {n : ℕ} {live live' : ℕ → Bool} {degree degree' : ℕ → ℕ} (front : Front)
    → Waits n live degree front
    → ((v : ℕ) → live v ≡ live' v)
    → ((v : ℕ) → degree v ≡ degree' v)
    → Waits n live' degree' front
Waits-ext {live'} {degree} front waits p q = record {
  degrees = λ v h. waits.degrees v h ∙ ap (λ d. some (pos d)) (q v);
  queued = λ v. waits.queued v ∙ ap (λ l. ready l (degree v)) (p v) ∙ ap (ready (live' v)) (q v);
}

module _ (n : ℕ) (live : ℕ → Bool) where
  release-Waits :
      (v : ℕ) (before after : ℕ → ℕ) (front : Front)
      → Waits n live before front
      → v < n
      → live v ≡ true
      → before v ≡ suc (after v)
      → ((w : ℕ) → v ≢ w → before w ≡ after w)
      → (next : Front) × (release v front ≡ some next) × Waits n live after next
  unfolding release dec is_zero ready count
  release-Waits v before after front waits h l e others =
      let at : get_elem? front.in_degree v ≡ some (pos (suc (after v))) =
        waits.degrees v h ∙ ap (λ d. some (pos d)) e in
      let next : Front = record {
        in_degree = set front.in_degree v (pos (after v));
        queue = if after v == 0 then front.queue ++ v ∷ [] else front.queue;
      } in
      (
        next,
        rw (release, at) refl,
        record {
          degrees = λ w q. elim (eq_cases v w) [
            | inl same ↦
                ap (λ u. get_elem? (set front.in_degree v (pos (after v))) u) (sym same)
                ∙ get_elem?-set_self front.in_degree v (pos (after v))
                    (lt-length front.in_degree v at)
                ∙ ap (λ u. some (pos (after u))) same
            | inr ne ↦
                get_elem?-set_ne front.in_degree v w (pos (after v)) ne
                ∙ waits.degrees w q
                ∙ ap (λ d. some (pos d)) (others w ne)
          ];
          queued = λ w. elim (eq_cases v w) [
            | inl same ↦ ground (
              arith,
              waits.queued w,
              count-append w front.queue (v ∷ []),
              e,
              ap live same ∙ refl,
              ap before same,
              ap after same,
              l,
              same,
            )
            | inr ne ↦
                ground (arith, waits.queued w, count-append w front.queue (v ∷ []), others w ne, ne)
          ];
        },
      )

  -- A round that releases the references `vs` of tables that are not handled does not panic.
  pub release_all-Waits :
      (degree : ℕ → ℕ) (vs : List ℕ) (front : Front)
      → Waits n live (λ v. count v vs + degree v) front
      → ((v : ℕ) → 0 < count v vs → (v < n) × (live v ≡ true))
      → (next : Front) × (release_all vs front ≡ some next) × Waits n live degree next
  unfolding release_all count
  release_all-Waits degree [] front waits inside =
      (front, refl, Waits-ext front waits (λ v. refl) (λ v. omega arith))
  release_all-Waits degree (v ∷ vs) front waits inside =
      let (h, l) = inside v (ground arith) in
      let (mid, e, waits') =
        release-Waits v (λ w. count w (v ∷ vs) + degree w) (λ w. count w vs + degree w) front waits
          h l (ground arith) (λ w ne. ground (arith, ne)) in
      let (next, e', done) =
        release_all-Waits degree vs mid waits' (λ w q. inside w (ground (arith, q))) in
      (next, rw (release_all, e) e', done)
