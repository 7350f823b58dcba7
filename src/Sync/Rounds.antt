-- ===== src/Sync/Rounds.antt =====
-- One round of the loop of `next_entry` of crates/database/src/sync/truth_table.rs, on two logs
-- that decode: it does what one step of the plain merge-join does.
use Prim.Native.Nat.{Ordering}
use boomerang.Base.{
  ◌+◌, ◌<◌, ◌≡◌, refl, Bool, Option, none, some, List, [], ◌∷◌, inl, inr, All, length, arith,
}
use boomerang.Base.Order.{Str, lt, eq, gt, cmp_pair}
use boomerang.Base.Outcome.{ok}
use boomerang.Sync.Log.{InvalidOpType, SyncTruthEntry, TruthTableError}
use boomerang.Sync.Head.{SymbolTable, TableCache, record_id, into_entry}
use boomerang.Sync.Table.{TruthTable, try_join, resolve, advance, settle, order, round, from_sides}
use boomerang.Sync.Logged.{
  Logged, Key, key, cmp_key, cmp_key-IsOrder, side_of, IsKnown, head_of, IsCache, policy, decide,
}
use boomerang.Sync.Memo.{pull-side_of, cmp_heads-key}
use boomerang.Sync.Join.{IsAscending, join, emit, Ordering-cases}

module _ {E : Type 0} (schema : SymbolTable) where
  -- `resolve` is the policy on what the logs hold.
  pub resolve-decide :
      (p s : Logged)
      → (resolve {E = E} (some (head_of schema p)) none ≡ ok (decide schema (some p) none))
        × (resolve {E = E} none (some (head_of schema s)) ≡ ok (decide schema none (some s)))
        × (resolve {E = E} (some (head_of schema p)) (some (head_of schema s))
            ≡ ok (decide schema (some p) (some s)))
  unfolding resolve decide policy cmp_pair into_entry record_id
  resolve-decide p s = (refl, refl, ground arith)

module _ {E : Type 0} (debug : Bool) (schema : SymbolTable) where
  -- On an ascending log the debug assertion of `advance` holds.
  settle-side_of :
      (l : Logged) (ls : List Logged) (c c' : TableCache)
      → All (IsKnown schema) (l ∷ ls)
      → IsAscending cmp_key key (l ∷ ls)
      → settle {E = E} debug schema (some (side_of schema ls c')) (side_of schema (l ∷ ls) c)
        ≡ ok (some (head_of schema l), side_of schema ls c')
  unfolding settle advance
  settle-side_of l [] c c' k a = refl
  settle-side_of l (m ∷ ls) c c' k a = ground (
    arith,
    cmp_heads-key {E = E} schema m l k.1.0 k.0,
    cmp_key-IsOrder.cmp-flip (key l) (key m),
    a.0.0,
  )

module _ (schema : SymbolTable) where
  -- A log that the merge can read: its tables are known, and its keys ascend.
  abbrev pub IsLog : List Logged → Type 0
  IsLog ls = All (IsKnown schema) ls × IsAscending cmp_key key ls

  abbrev pub joined : List Logged → List Logged → List (Key × SyncTruthEntry)
  joined = join cmp_key key (decide schema)

module _ {E : Type 0} (schema : SymbolTable) where
  -- The merge with these logs still to be read.
  abbrev pub state_of : List Logged → TableCache → List Logged → TableCache → TruthTable E
  state_of ps cp ss cs = from_sides (side_of schema ps cp) (side_of schema ss cs)

module _ {E : Type 0} (column_decode : Str → InvalidOpType → E) (debug : Bool)
    (schema : SymbolTable) where
  -- The state after a round that reports `d`: `ps` and `ss` are still to be read.
  pub record After (sq_first : Bool) (o : Ordering) (t : TruthTable E) (d : Option SyncTruthEntry)
      (ps ss : List Logged) : Type 0 where
    pub cp : TableCache
    pub cs : TableCache
    pub returns :
        round column_decode debug schema sq_first o t ≡ ok (d, state_of schema ps cp ss cs)
    pub cp_ok : IsCache schema cp
    pub cs_ok : IsCache schema cs

  module _ (sq_first : Bool) (ps ss : List Logged) (cp cs : TableCache) (hp : IsCache schema cp)
      (hs : IsCache schema cs) where
    round_pg :
        (p : Logged)
        → IsLog schema (p ∷ ps)
        → After sq_first lt (state_of schema (p ∷ ps) cp ss cs) (decide schema (some p) none) ps ss
    unfolding round try_join
    round_pg p h =
        let (cp', e, hp') =
          pull-side_of column_decode schema ps cp TruthTableError.postgres h.0.1 hp in
        record {
          cp = cp';
          cs = cs;
          returns = ground (
            arith,
            e,
            settle-side_of {E = E} debug schema p ps cp cp' h.0 h.1,
            (resolve-decide {E = E} schema p p).0,
          );
          cp_ok = hp';
          cs_ok = hs;
        }

    round_sq :
        (s : Logged)
        → IsLog schema (s ∷ ss)
        → After sq_first gt (state_of schema ps cp (s ∷ ss) cs) (decide schema none (some s)) ps ss
    unfolding round try_join
    round_sq s h =
        let (cs', e, hs') =
          pull-side_of column_decode schema ss cs TruthTableError.sqlite h.0.1 hs in
        record {
          cp = cp;
          cs = cs';
          returns = ground (
            arith,
            e,
            settle-side_of {E = E} debug schema s ss cs cs' h.0 h.1,
            (resolve-decide {E = E} schema s s).1,
          );
          cp_ok = hp;
          cs_ok = hs';
        }

    round_both :
        (p s : Logged)
        → IsLog schema (p ∷ ps)
        → IsLog schema (s ∷ ss)
        → After sq_first eq
            (state_of schema (p ∷ ps) cp (s ∷ ss) cs)
            (decide schema (some p) (some s))
            ps
            ss
    unfolding round try_join
    round_both p s h k =
        let (cp', e, hp') =
          pull-side_of column_decode schema ps cp TruthTableError.postgres h.0.1 hp in
        let (cs', f, hs') =
          pull-side_of column_decode schema ss cs TruthTableError.sqlite k.0.1 hs in
        record {
          cp = cp';
          cs = cs';
          returns = ground (
            arith,
            e,
            f,
            settle-side_of {E = E} debug schema p ps cp cp' h.0 h.1,
            settle-side_of {E = E} debug schema s ss cs cs' k.0 k.1,
            (resolve-decide {E = E} schema p s).2,
          );
          cp_ok = hp';
          cs_ok = hs';
        }

  -- What the loop does next: it is done, or it makes one round, which reports the decision at the
  -- next key of the join.
  pub data Turn (sq_first : Bool) (t : TruthTable E) : List Logged → List Logged → Type 0 where
    done :
        {ps ss : List Logged}
        → order {E = E} schema t.pg_head t.sq_head ≡ ok none
        → joined schema ps ss ≡ []
        → Turn sq_first t ps ss
    turn :
        {ps ss : List Logged} (o : Ordering) (k : Key) (d : Option SyncTruthEntry)
        (ps' ss' : List Logged)
        → order {E = E} schema t.pg_head t.sq_head ≡ ok (some o)
        → After sq_first o t d ps' ss'
        → joined schema ps ss ≡ emit cmp_key key (decide schema) k d (joined schema ps' ss')
        → IsLog schema ps'
        → IsLog schema ss'
        → length ps' + length ss' < length ps + length ss
        → Turn sq_first t ps ss

  pub next-Turn :
      (sq_first : Bool) (ps ss : List Logged) (cp cs : TableCache)
      → IsCache schema cp
      → IsCache schema cs
      → IsLog schema ps
      → IsLog schema ss
      → Turn sq_first (state_of schema ps cp ss cs) ps ss
  unfolding order join
  next-Turn b [] [] cp cs hp hs lp ls = done refl refl
  next-Turn b (p ∷ ps) [] cp cs hp hs lp ls =
      turn lt (key p) (decide schema (some p) none) ps [] refl (round_pg b ps [] cp cs hp hs p lp)
        refl (lp.0.1, lp.1.1) ls (omega arith)
  next-Turn b [] (s ∷ ss) cp cs hp hs lp ls =
      turn gt (key s) (decide schema none (some s)) [] ss refl (round_sq b [] ss cp cs hp hs s ls)
        refl lp (ls.0.1, ls.1.1) (omega arith)
  next-Turn b (p ∷ ps) (s ∷ ss) cp cs hp hs lp ls =
      elim (Ordering-cases (cmp_key (key p) (key s))) [
        | inl e ↦
            turn lt (key p) (decide schema (some p) none) ps (s ∷ ss)
              (rw (cmp_heads-key {E = E} schema p s lp.0.0 ls.0.0, e))
              (round_pg b ps (s ∷ ss) cp cs hp hs p lp) (rw (e, join)) (lp.0.1, lp.1.1) ls
              (omega arith)
        | inr (inl e) ↦
            turn eq (key p) (decide schema (some p) (some s)) ps ss
              (rw (cmp_heads-key {E = E} schema p s lp.0.0 ls.0.0, e))
              (round_both b ps ss cp cs hp hs p s lp ls) (rw (e, join)) (lp.0.1, lp.1.1)
              (ls.0.1, ls.1.1) (omega arith)
        | inr (inr e) ↦
            turn gt (key s) (decide schema none (some s)) (p ∷ ps) ss
              (rw (cmp_heads-key {E = E} schema p s lp.0.0 ls.0.0, e))
              (round_sq b (p ∷ ps) ss cp cs hp hs s ls) (rw (e, join)) lp (ls.0.1, ls.1.1)
              (omega arith)
      ]
