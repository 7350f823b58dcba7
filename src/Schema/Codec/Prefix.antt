-- ===== src/Schema/Codec/Prefix.antt =====
-- What `decode` of crates/database/src/core/schema.rs does on less than `encode` wrote.
use boomerang.Base.{ℕ, ◌≡◌, ◌≢◌, refl, List, [], ◌∷◌, ◌++◌, length-append, arith}
use boomerang.Base.Outcome.{Run, ok, err, panic, stuck}
use mathlib.Core.List.{append-nil}
use boomerang.Schema.Types.{DatabaseSchema}
use boomerang.Schema.Codec.Bytes.{Fault, missing, Decoder, read_uint}
use boomerang.Schema.Codec.Write.{encode}
use boomerang.Schema.Codec.Read.{
  read_sym, read_sym_opt, read_action, read_primary_key, read_table, read_type, read_pool_range,
  read_column, read_foreign_key, read_list, read_schema, value, decode,
}
use boomerang.Schema.Codec.RoundTrip.{IsEncodable, schema-ReadsBack}
use boomerang.Schema.Codec.Extends.{Extends, Follows, Follows-self, extends_rules}

module _ (f g : Fault) where
  read_uint-Extends : (n : ℕ) → Extends (read_uint f n) (read_uint g n)
  unfolding read_uint
  read_uint-Extends n = search extends_rules

  read_sym-Extends : Extends (read_sym f) (read_sym g)
  unfolding read_sym
  read_sym-Extends = search (extends_rules, read_uint-Extends)

  read_sym_opt-Extends : Extends (read_sym_opt f) (read_sym_opt g)
  unfolding read_sym_opt
  read_sym_opt-Extends = search (extends_rules, read_uint-Extends)

  read_action-Extends : Extends (read_action f) (read_action g)
  unfolding read_action
  read_action-Extends = search (extends_rules, read_uint-Extends)

  read_primary_key-Extends : Extends (read_primary_key f) (read_primary_key g)
  unfolding read_primary_key
  read_primary_key-Extends = search (extends_rules, read_uint-Extends)

  read_pool_range-Extends : Extends (read_pool_range f) (read_pool_range g)
  unfolding read_pool_range
  read_pool_range-Extends = search (extends_rules, read_uint-Extends)

  read_table-Extends : Extends (read_table f) (read_table g)
  unfolding read_table
  read_table-Extends =
      search (extends_rules, read_uint-Extends, read_sym-Extends, read_primary_key-Extends) depth 16

  read_type-Extends : (tag : ℕ) → Extends (read_type f tag) (read_type g tag)
  unfolding read_type
  read_type-Extends tag = search (extends_rules, read_sym-Extends)

  read_column-Extends : Extends (read_column f) (read_column g)
  unfolding read_column
  read_column-Extends =
      search
        (
          extends_rules, read_uint-Extends, read_sym-Extends, read_type-Extends,
          read_sym_opt-Extends, read_pool_range-Extends,
        )
        depth 16

  read_foreign_key-Extends : Extends (read_foreign_key f) (read_foreign_key g)
  unfolding read_foreign_key
  read_foreign_key-Extends =
      search (extends_rules, read_uint-Extends, read_sym-Extends, read_action-Extends) depth 16

  read_list-Extends :
      {A : Type 0} (d e : Decoder A) → Extends d e → Extends (read_list f d) (read_list g e)
  unfolding read_list
  read_list-Extends d e p = search (extends_rules, read_uint-Extends)

  read_schema-Extends :
      {I : Type 0} (load load' : List ℕ → Run Fault I)
      → ((bs : List ℕ) → Follows (load bs) (load' bs))
      → Extends (read_schema f load) (read_schema g load')
  unfolding read_schema
  read_schema-Extends load load' p =
      search
        (
          extends_rules, read_uint-Extends, read_list-Extends, read_table-Extends,
          read_column-Extends, read_sym-Extends, read_foreign_key-Extends,
        )
        depth 24

value-eq-ok :
    {A : Type 0} (r : Run Fault (A × List ℕ)) {a : A}
    → value r ≡ ok a
    → (rest : List ℕ) × (r ≡ ok (a, rest))
value-eq-ok (ok (b, rest)) h = (rest, ground arith)
value-eq-ok (err e) h = cc
value-eq-ok panic h = cc
value-eq-ok stuck h = cc

value-eq-panic : {A : Type 0} (r : Run Fault (A × List ℕ)) → value r ≡ panic → r ≡ panic
value-eq-panic (ok (b, rest)) h = cc
value-eq-panic (err e) h = cc
value-eq-panic panic h = refl
value-eq-panic stuck h = cc

module _ {I : Type 0} where
  -- On a proper prefix of what `encode` wrote, `decode` returns no schema and does not panic.
  pub decode_truncated :
      (bytes : I → List ℕ) (load : List ℕ → Run Fault I) (s : DatabaseSchema I) (i : I)
      (front back : List ℕ) (x : ℕ)
      → IsEncodable bytes s
      → load (bytes s.interner) ≡ ok i
      → encode bytes s ≡ front ++ (x ∷ back)
      → ((t : DatabaseSchema I) → decode load front ≢ ok t) × (decode load front ≢ panic)
  unfolding decode
  decode_truncated bytes load s i front back x h e w = (
    λ t d.
        let (rest, d') = value-eq-ok (read_schema missing load front) d in
        grind (arith, whole, ext.returns front (x ∷ back) t rest d', length-append rest (x ∷ back)),
    λ d.
        cc (whole, ext.panics front (x ∷ back) (value-eq-panic (read_schema missing load front) d)),
  )
    where
      ext : Extends (read_schema missing load) (read_schema missing load)
      ext = read_schema-Extends missing missing load load (λ bs. Follows-self (load bs))

      whole : read_schema missing load (front ++ (x ∷ back)) ≡ ok (record s { interner = i }, [])
      whole =
          rw (← w, ← append-nil (encode bytes s))
            ((schema-ReadsBack bytes missing load s i h e).at [])
