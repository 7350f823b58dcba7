-- ===== src/Postgres/Keyed.antt =====
-- What `PostgresDatabase::new` of crates/database/src/dialect/postgres.rs refuses.
use boomerang.Base.{
  ℕ, ◌%◌, ◌^◌, ◌<◌, ◌≡◌, refl, ap, ◌∙◌, Option, none, some, List, [], ◌∷◌, length, All, arith,
}
use mathlib.Core.Path.{subst}
use boomerang.Base.Order.{Str}
use boomerang.Base.Outcome.{Run, ok, err, panic, stuck, ◌>>=◌, or_fail, ok-injective}
use boomerang.Interner.Symbol.{Symbol}
use boomerang.Schema.Types.{DatabaseSchema}
use boomerang.Schema.Lookup.{table_name, column_name, primary_key}
use boomerang.Builder.Sort.{range}
use boomerang.Postgres.Load.{or_panic, load_schema}
use boomerang.Postgres.Setup.{
  Postgres, trigger_key, trigger_tables, setup_triggers, new, or_err, perform_setup,
  backfill_sync_logs,
}
use boomerang.Dialect.{
  connection_pool_failed, failed_to_acquire_transaction, failed_to_commit_transaction, sqlx_error,
}

unfoldable pub HasKey : {I : Type 0} → DatabaseSchema I → ℕ → Type 0
HasKey schema i = (column : ℕ) × (primary_key schema i ≡ some (some column))

-- Whatever the call returns has the property.
unfoldable Returns : {E A : Type 0} → (A → Type 0) → Run E A → Type 0
Returns {A} Q r = (a : A) → r ≡ ok a → Q a

Returns->>= :
    {E A B : Type 0} (Q : B → Type 0) (first : Run E A) (next : A → Run E B)
    → ((a : A) → Returns Q (next a))
    → Returns Q (first >>= next)
unfolding Returns
Returns->>= Q (ok a) next h = h a
Returns->>= Q (err e) next h = λ b r. cc
Returns->>= Q panic next h = λ b r. cc
Returns->>= Q stuck next h = λ b r. cc

-- A call whose result is used for its success alone.
Returns-then :
    {E A B : Type 0} (Q : A → Type 0) (R : B → Type 0) (first : Run E A) (next : A → Run E B)
    → Returns Q first
    → ((a : A) → Q a → Returns R (next a))
    → Returns R (first >>= next)
unfolding Returns
Returns-then Q R (ok a) next q h = h a (q a refl)
Returns-then Q R (err e) next q h = λ b r. cc
Returns-then Q R panic next q h = λ b r. cc
Returns-then Q R stuck next q h = λ b r. cc

Returns-ok : {A : Type 0} (E : Type 0) (Q : A → Type 0) (a : A) → Q a → Returns {E = E} Q (ok a)
unfolding Returns
Returns-ok E Q a q b r = subst Q (ok-injective r) q

Returns-err : {E A : Type 0} (Q : A → Type 0) (e : E) → Returns Q (err e)
unfolding Returns
Returns-err Q e b r = cc

returned : {E A : Type 0} (Q : A → Type 0) (r : Run E A) (a : A) → Returns Q r → r ≡ ok a → Q a
unfolding Returns
returned Q r a h e = h a e

Returns-map :
    {E A : Type 0} (Q R : A → Type 0) (r : Run E A)
    → Returns Q r
    → ((a : A) → Q a → R a)
    → Returns R r
unfolding Returns
Returns-map Q R r h k a e = k a (h a e)

or_panic-Returns :
    {A : Type 0} (E : Type 0) (o : Option A) → Returns {E = E} (λ a. o ≡ some a) (or_panic o)
unfolding Returns
or_panic-Returns E none a r = cc
or_panic-Returns E (some x) a r = ap some (ok-injective r)

any_Returns : {E A : Type 0} (Q : Type 0) → Q → (r : Run E A) → Returns (λ _. Q) r
unfolding Returns
any_Returns Q q r a e = q

module _ {I D P T : Type 0} (resolve : I → Symbol → Option Str) (pg : Postgres D P T) where
  trigger_key-Returns :
      (schema : DatabaseSchema I) (name : Str) (key : Option ℕ) (tx : T)
      → Returns
          (λ _. (column : ℕ) × (key ≡ some column))
          (trigger_key resolve pg schema name key tx)
  unfolding trigger_key
  trigger_key-Returns schema name none tx = Returns-err _ _
  trigger_key-Returns schema name (some column) tx =
      Returns->>= _ (or_panic (column_name resolve schema column)) _
        (λ primary_col. any_Returns _ (column, refl) _)

  trigger_tables-Returns :
      (schema : DatabaseSchema I) (is : List ℕ) (tx : T)
      → Returns (λ _. All (HasKey schema) is) (trigger_tables resolve pg schema is tx)
  unfolding trigger_tables HasKey
  trigger_tables-Returns schema [] tx = Returns-ok _ _ tx tt
  trigger_tables-Returns schema (i ∷ is) tx =
      Returns->>= _ (or_panic (table_name resolve schema i)) _ (λ name.
        Returns-then (λ key. primary_key schema i ≡ some key) _ (or_panic (primary_key schema i)) _
          (or_panic-Returns _ (primary_key schema i))
          (λ key read.
            Returns-then (λ _. (column : ℕ) × (key ≡ some column)) _ _ _
              (trigger_key-Returns schema name key tx)
              (λ next keyed.
                Returns-map (λ _. All (HasKey schema) is) _ _
                  (trigger_tables-Returns schema is next)
                  (λ out each. ((keyed.0, read ∙ ap some keyed.1), each)))))

  -- Each table of a schema that PostgresDatabase::new returned has a primary key, where it has fewer than
  -- 2 ^ 16 tables.
  pub new-HasKey :
      (intern : I → Str → Option (Symbol × I)) (interner : I) (connection_url : Str) (pool : P)
      (schema : DatabaseSchema I)
      → new resolve intern pg interner connection_url ≡ ok (pool, schema)
      → length schema.tables < 2 ^ 16
      → All (HasKey schema) (range 0 (length schema.tables))
  unfolding new setup_triggers
  new-HasKey intern interner connection_url pool schema h few =
      let Keyed : P × DatabaseSchema I → Type 0 =
        λ made. All (HasKey made.1) (range 0 (length made.1.tables % 2 ^ 16)) in
      let keys : Returns Keyed (new resolve intern pg interner connection_url) =
        Returns->>= Keyed (or_err connection_pool_failed (pg.connect connection_url)) _ (λ pool'.
          Returns->>= Keyed (or_err failed_to_acquire_transaction (pg.begin pool')) _ (λ tx.
            Returns->>= Keyed (perform_setup pg tx) _ (λ ready.
              Returns->>= Keyed
                (load_schema intern interner (pg.schema_rows ready) (pg.schema_hash ready)) _
                (λ made.
                  Returns->>= Keyed (or_fail sqlx_error (pg.set_sync_write ready)) _ (λ writing.
                    Returns->>= Keyed (backfill_sync_logs resolve pg made writing) _ (λ filled.
                      Returns-then (λ _. All (HasKey made) (range 0 (length made.tables % 2 ^ 16)))
                        Keyed (setup_triggers resolve pg made filled) _
                        (trigger_tables-Returns made (range 0 (length made.tables % 2 ^ 16)) filled)
                        (λ done each.
                          Returns->>= Keyed (or_err failed_to_commit_transaction (pg.commit done)) _
                            (λ left. Returns-ok _ Keyed (left, made) each)))))))) in
      let cast : length schema.tables % 2 ^ 16 ≡ length schema.tables = ground (arith, few) in
      subst (λ n. All (HasKey schema) (range 0 n)) cast (returned Keyed _ (pool, schema) keys h)
