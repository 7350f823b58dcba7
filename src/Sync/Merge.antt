-- ===== src/Sync/Merge.antt =====
-- The whole merge of crates/database/src/sync/truth_table.rs: `new`, then `next_entry` until it
-- returns `None`.
use boomerang.Base.{
  ℕ, zero, suc, ◌+◌, ◌<◌, ◌≡◌, refl, ◌∙◌, Bool, none, some, List, [], ◌∷◌, length, arith,
}
use boomerang.Base.Order.{Str}
use boomerang.Base.Outcome.{ok}
use boomerang.Sync.Log.{InvalidOpType, SyncTruthEntry, TruthTableError}
use boomerang.Sync.Head.{SymbolTable, TableCache, empty_cache}
use boomerang.Sync.Table
use boomerang.Sync.Table.{TruthTable, try_join, next_entry, drain}
use boomerang.Sync.Logged.{Logged, Key, key, cmp_key, cmp_key-IsOrder, stream_of, IsCache, decide}
use boomerang.Sync.Memo.{pull-side_of}
use boomerang.Sync.Join.{IsAscending, find, value_at, pair_key, join-IsAscending, value_at-join}
use boomerang.Sync.Rounds.{IsLog, joined, state_of, Turn, done, turn, next-Turn}

-- The entries of a join, in order.
unfoldable pub entries : List (Key × SyncTruthEntry) → List SyncTruthEntry
entries [] = []
entries ((k, e) ∷ r) = e ∷ entries r

module _ {E : Type 0} (column_decode : Str → InvalidOpType → E) (debug : Bool)
    (schema : SymbolTable) (race : ℕ → Bool) where
  -- What a call of `next_entry` returns with these logs still to be read: the first entry of their
  -- join, or `None` where the join is empty.
  data Reported (fuel : ℕ) (t : TruthTable E) (ps ss : List Logged) : Type 0 where
    finished :
        (t' : TruthTable E)
        → next_entry column_decode debug schema race fuel t ≡ ok (none, t')
        → joined schema ps ss ≡ []
        → Reported fuel t ps ss
    found :
        (e : SyncTruthEntry) (k : Key) (ps' ss' : List Logged) (cp cs : TableCache)
        → next_entry column_decode debug schema race fuel t
          ≡ ok (some e, state_of schema ps' cp ss' cs)
        → joined schema ps ss ≡ (k, e) ∷ joined schema ps' ss'
        → IsCache schema cp
        → IsCache schema cs
        → IsLog schema ps'
        → IsLog schema ss'
        → length ps' + length ss' < length ps + length ss
        → Reported fuel t ps ss

  -- A round that reports nothing leaves the call to the rounds behind it.
  skip :
      (fuel : ℕ) (t u : TruthTable E) (ps ss ps' ss' : List Logged)
      → next_entry column_decode debug schema race (suc fuel) t
        ≡ next_entry column_decode debug schema race fuel u
      → joined schema ps ss ≡ joined schema ps' ss'
      → length ps' + length ss' < length ps + length ss
      → Reported fuel u ps' ss'
      → Reported (suc fuel) t ps ss
  skip fuel t u ps ss ps' ss' e j m (finished t' r z) = finished t' (e ∙ r) (j ∙ z)
  skip fuel t u ps ss ps' ss' e j m (found v k qs rs cp cs r z hp hs lp ls n) =
      found v k qs rs cp cs (e ∙ r) (j ∙ z) hp hs lp ls (omega arith)

  next_entry-Reported :
      (fuel : ℕ) (ps ss : List Logged) (cp cs : TableCache)
      → IsCache schema cp
      → IsCache schema cs
      → IsLog schema ps
      → IsLog schema ss
      → length ps + length ss < fuel
      → Reported fuel (state_of schema ps cp ss cs) ps ss
  next_entry-Reported zero ps ss cp cs hp hs lp ls m = absurd (omega arith)
  next_entry-Reported (suc fuel) ps ss cp cs hp hs lp ls m =
      go (next-Turn column_decode debug schema (race fuel) ps ss cp cs hp hs lp ls)
        (next_entry-Reported fuel)
    where
      go :
          Turn column_decode debug schema (race fuel) (state_of schema ps cp ss cs) ps ss
          → ((ps' ss' : List Logged) (cp cs : TableCache)
              → IsCache schema cp
              → IsCache schema cs
              → IsLog schema ps'
              → IsLog schema ss'
              → length ps' + length ss' < fuel
              → Reported fuel (state_of schema ps' cp ss' cs) ps' ss')
          → Reported (suc fuel) (state_of schema ps cp ss cs) ps ss
      go (done e j) rec = finished (state_of schema ps cp ss cs) (unfold next_entry in rw e) j
      go (turn o k none ps' ss' e a j lp' ls' n) rec =
          skip fuel _ (state_of schema ps' a.cp ss' a.cs) ps ss ps' ss'
            (unfold next_entry in rw (e, a.returns)) j n
            (rec ps' ss' a.cp a.cs a.cp_ok a.cs_ok lp' ls' (omega arith))
      go (turn o k (some v) ps' ss' e a j lp' ls' n) rec =
          found v k ps' ss' a.cp a.cs (unfold next_entry in rw (e, a.returns)) j a.cp_ok a.cs_ok lp'
            ls' n

  drain-joined :
      (fuel calls : ℕ) (ps ss : List Logged) (cp cs : TableCache)
      → IsCache schema cp
      → IsCache schema cs
      → IsLog schema ps
      → IsLog schema ss
      → length ps + length ss < fuel
      → length ps + length ss < calls
      → drain column_decode debug schema race fuel calls (state_of schema ps cp ss cs)
        ≡ ok (entries (joined schema ps ss))
  unfolding drain entries
  drain-joined fuel zero ps ss cp cs hp hs lp ls m n = absurd (omega arith)
  drain-joined fuel (suc calls) ps ss cp cs hp hs lp ls m n =
      go (next_entry-Reported fuel ps ss cp cs hp hs lp ls m) (drain-joined fuel calls)
    where
      go :
          Reported fuel (state_of schema ps cp ss cs) ps ss
          → ((ps' ss' : List Logged) (cp cs : TableCache)
              → IsCache schema cp
              → IsCache schema cs
              → IsLog schema ps'
              → IsLog schema ss'
              → length ps' + length ss' < fuel
              → length ps' + length ss' < calls
              → drain column_decode debug schema race fuel calls (state_of schema ps' cp ss' cs)
                ≡ ok (entries (joined schema ps' ss')))
          → drain column_decode debug schema race fuel (suc calls) (state_of schema ps cp ss cs)
            ≡ ok (entries (joined schema ps ss))
      go (finished t' e z) rec = rw (e, z)
      go (found v k ps' ss' cp' cs' e z hp' hs' lp' ls' d) rec =
          rw (e, z, rec ps' ss' cp' cs' hp' hs' lp' ls' (omega arith) (omega arith))

  -- Both logs ascending by key, with tables that the schema knows, and read without an error: the
  -- table opens, and asking it for entries until it has none, with fuel and calls above the number
  -- of rows, ends without an error or a panic. The entries are those of a list in strictly
  -- ascending order of keys that holds, under each key, the decision on what the two logs hold
  -- there: nothing for a record that neither has or on which they agree.
  pub merge :
      (sq_first : Bool) (ps ss : List Logged) (fuel calls : ℕ)
      → IsLog schema ps
      → IsLog schema ss
      → length ps + length ss < fuel
      → length ps + length ss < calls
      → (t : TruthTable E) × (out : List (Key × SyncTruthEntry)) × (Table.new column_decode debug
            schema sq_first
            (stream_of ps)
            (stream_of ss)
          ≡ ok t)
        × (drain column_decode debug schema race fuel calls t ≡ ok (entries out))
        × IsAscending cmp_key pair_key out
        × ((k : Key)
            → value_at cmp_key k out
              ≡ decide schema (find cmp_key key k ps) (find cmp_key key k ss))
  unfolding Table.new try_join
  merge sq_first ps ss fuel calls lp ls m n =
      let (cp, e, hp) =
        pull-side_of column_decode schema ps empty_cache TruthTableError.postgres lp.0 tt in
      let (cs, f, hs) =
        pull-side_of column_decode schema ss empty_cache TruthTableError.sqlite ls.0 tt in
      (
        state_of schema ps cp ss cs,
        joined schema ps ss,
        rw (e, f),
        drain-joined fuel calls ps ss cp cs hp hs lp ls m n,
        join-IsAscending cmp_key-IsOrder key (decide schema) ps ss lp.1 ls.1,
        λ k.
            value_at-join cmp_key-IsOrder key (decide schema) (unfold decide in refl) k ps ss lp.1
              ls.1,
      )
