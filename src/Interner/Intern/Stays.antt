-- ===== src/Interner/Intern/Stays.antt =====
-- A symbol that crates/database/src/core/string_interner.rs gave stays the symbol of its text.
use boomerang.Base.{
  ℕ, ◌+◌, ◌*◌, ◌%◌, ◌^◌, ◌≤◌, ◌<◌, ◌≡◌, refl, sym, ap, ◌∙◌, Bool, some, inl, inr, length, get_elem?,
  get_elem?-set_self, get_elem?-set_ne, lt-length, ◌==◌, false, arith,
}
use mathlib.Core.Path.{subst}
use boomerang.Base.Order.{Str}
use boomerang.Base.LittleEndian.{from_le_bytes}
use boomerang.Base.Search.{eq_cases}
use boomerang.Interner.Symbol
use boomerang.Interner.Symbol.{Symbol, shard_id, index, new_parts}
use boomerang.Interner.Pool.{Memory, MemoryPool, ShardCursor, read, alloc}
use boomerang.Interner.Pool.Alloc.{IsPool}
use boomerang.Interner.Pool.Grows.{
  header-alloc, body-alloc, read-alloc_within, region_size-alloc, cursor-alloc, cursors-alloc,
}
use boomerang.Interner.Strings
use boomerang.Interner.Strings.{text_at, push}
use boomerang.Interner.Strings.Push.{get-push, push-some, len-push}
use boomerang.Interner.Cache.{Key}
use boomerang.Interner.Types.{HashTable, Entry, Shard, StringInterner}
use boomerang.Interner.Lookup.{resolve}
use boomerang.Interner.Intern.Resolves.{resolve-get, offset_ne, after}

-- Where the text of a symbol stands: in the shard's array, and in memory up to the shard's cursor.
pub record IsAt {T : Type 0} (interner : StringInterner T) (symbol : Symbol) (text : Str)
    : Type 0 where
  pub shard : Shard T
  pub at : get_elem? interner.shards (shard_id symbol) ≡ some shard
  pub low : shard_id symbol < 255
  pub n : ℕ
  pub index_eq : index symbol ≡ some n
  pub before : n < shard.strings.len
  pub offset : ℕ
  pub stored : (mem : Memory) → Strings.get shard.strings n mem ≡ some (text_at mem offset)
  pub cursor : ShardCursor
  pub cursor_at : get_elem? interner.pool.cursors (shard_id symbol) ≡ some cursor
  pub lower : 4 + shard_id symbol * interner.pool.region_size ≤ offset
  pub upper :
      offset + 4 + length text ≤ 4 + shard_id symbol * interner.pool.region_size + cursor.value
  pub header : from_le_bytes (read interner.pool.mem offset 4) ≡ length text
  pub body : read interner.pool.mem (offset + 4) (length text) ≡ text

pub resolve-IsAt :
    {T : Type 0} (interner : StringInterner T) (symbol : Symbol) (text : Str)
    → IsAt interner symbol text
    → resolve interner symbol ≡ some (some text)
unfolding text_at
resolve-IsAt interner symbol text p =
    resolve-get interner symbol p.n p.shard text p.index_eq p.low p.at {ptr = p.offset + 4}
      (p.stored interner.pool.mem ∙ rw (text_at, p.header, p.body) refl)

module _ (tables : HashTable Entry) (debug : Bool) (interner : StringInterner tables.Table)
    (valid : IsPool interner.pool) (i : ℕ) (shard : Shard tables.Table)
    (at : get_elem? interner.shards i ≡ some shard) (low : i < 128) (k : Key) (text : Str)
    (short : length text + 8 < 2 ^ 32) (offset n : ℕ) (new : Symbol)
    (allocated : (alloc debug interner.pool i text).0 ≡ some offset)
    (pushed : (push shard.strings offset).0 ≡ some n)
    (made : Symbol.new (i % 256) n ≡ some new) where
  abbrev later : StringInterner tables.Table
  later = after tables debug interner valid i shard at low k text short offset new

  abbrev pool : MemoryPool
  pool = (alloc debug interner.pool i text).1

  shard_later :
      (j : ℕ)
      → j ≡ i
      → (s : Shard tables.Table) × (get_elem? later.shards j ≡ some s)
        × (s.strings ≡ (push shard.strings offset).1)
  shard_later j e = (
    _,
    ap (λ x. get_elem? later.shards x) e
        ∙ get_elem?-set_self interner.shards i _ (lt-length interner.shards i at),
    refl,
  )

  -- The new symbol is at its text.
  pub new-IsAt : IsAt later new text
  new-IsAt =
      let (fits, same_shard, same_index) = new_parts (i % 256) n new (omega arith) made in
      let (last, room) = push-some shard.strings offset pushed in
      let here : shard_id new ≡ i = omega arith in
      let (s, found, strings) = shard_later (shard_id new) here in
      let ne = offset_ne debug interner.pool valid i text short shard.strings offset allocated in
      let (old, c, c_at, _, o, up) =
        cursor-alloc debug interner.pool valid i text short offset allocated in
      let region = region_size-alloc debug interner.pool valid i text short offset allocated in
      let len = len-push shard.strings offset room in
      let base : shard_id new * pool.region_size ≡ i * interner.pool.region_size =
        ap (λ x. x * pool.region_size) here ∙ ap (λ x. i * x) region in
      record {
        shard = s;
        at = found;
        low = omega arith;
        n = n;
        index_eq = same_index;
        before = rw (strings, len) (omega arith);
        offset = offset;
        stored = λ mem.
            ap (λ l. Strings.get l n mem) strings
            ∙ ap (λ x. Strings.get (push shard.strings offset).1 x mem) last
            ∙ (get-push shard.strings offset shard.strings.len mem room ne).1
            ∙ ground arith;
        cursor = c;
        cursor_at = ap (λ x. get_elem? pool.cursors x) here ∙ c_at;
        lower = rw (base) (omega arith);
        upper = rw (base) (omega arith);
        header = header-alloc debug interner.pool valid i text short offset allocated;
        body = body-alloc debug interner.pool valid i text short offset allocated;
      }

  -- An older symbol stays at its text.
  pub old-IsAt : (symbol : Symbol) (t : Str) → IsAt interner symbol t → IsAt later symbol t
  old-IsAt symbol t p =
      let j = shard_id symbol in
      let (last, room) = push-some shard.strings offset pushed in
      let ne = offset_ne debug interner.pool valid i text short shard.strings offset allocated in
      let (old, c, c_at, was, o, up) =
        cursor-alloc debug interner.pool valid i text short offset allocated in
      let region = region_size-alloc debug interner.pool valid i text short offset allocated in
      let base : j * pool.region_size ≡ j * interner.pool.region_size = ap (λ x. j * x) region in
      let lower = p.lower in
      let upper = p.upper in
      let same_header =
        read-alloc_within debug interner.pool valid i text short offset allocated j p.cursor
          p.offset 4 p.cursor_at p.lower (omega arith) in
      let same_body =
        read-alloc_within debug interner.pool valid i text short offset allocated j p.cursor
          (p.offset + 4) (length t) p.cursor_at (omega arith) (omega arith) in
      let header : from_le_bytes (read pool.mem p.offset 4) ≡ length t =
        ap from_le_bytes same_header ∙ p.header in
      elim (eq_cases j i) [
        | inl e ↦
            let (s, found, strings) = shard_later j e in
            let both : some p.shard ≡ some shard =
              sym p.at ∙ ap (λ x. get_elem? interner.shards x) e ∙ at in
            let same : p.shard ≡ shard = cc in
            let strings_same : p.shard.strings ≡ shard.strings =
              ap (λ (x : Shard tables.Table). x.strings) same in
            let old_value =
              was p.cursor (ap (λ x. get_elem? interner.pool.cursors x) (sym e) ∙ p.cursor_at) in
            let in_old : p.n < shard.strings.len =
              subst (λ (x : Shard tables.Table). p.n < x.strings.len) same p.before in
            let len = len-push shard.strings offset room in
            let miss : (p.n == shard.strings.len) ≡ false = ground arith in
            record {
              shard = s;
              at = found;
              low = p.low;
              n = p.n;
              index_eq = p.index_eq;
              before = rw (strings, len) (omega arith);
              offset = p.offset;
              stored = λ mem.
                  ap (λ l. Strings.get l p.n mem) strings
                  ∙ (get-push shard.strings offset p.n mem room ne).1
                  ∙ rw (miss) (ap (λ l. Strings.get l p.n mem) (sym strings_same) ∙ p.stored mem);
              cursor = c;
              cursor_at = ap (λ x. get_elem? pool.cursors x) e ∙ c_at;
              lower = rw (base) lower;
              upper = rw (base) (omega arith);
              header = header;
              body = same_body ∙ p.body;
            }
        | inr other ↦ record {
          shard = p.shard;
          at = get_elem?-set_ne interner.shards i j _ (λ e. other (sym e)) ∙ p.at;
          low = p.low;
          n = p.n;
          index_eq = p.index_eq;
          before = p.before;
          offset = p.offset;
          stored = p.stored;
          cursor = p.cursor;
          cursor_at =
              cursors-alloc debug interner.pool valid i text short offset allocated j
                (λ e. other (sym e))
              ∙ p.cursor_at;
          lower = rw (base) lower;
          upper = rw (base) upper;
          header = header;
          body = same_body ∙ p.body;
        }
      ]
