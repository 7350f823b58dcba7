-- ===== src/Schema/Codec/BadAction.antt =====
-- A malformed referential action in the bytes that `decode` of crates/database/src/core/schema.rs is
-- given.
use boomerang.Base.{ℕ, ◌<◌, ◌≡◌, List, ◌++◌, arith}
use boomerang.Base.Outcome.{panic}
use boomerang.Schema.Types.{ForeignKey, action_from_u8}
use boomerang.Schema.Codec.Bytes.{Fault, read_uint-le_bytes}
use boomerang.Schema.Codec.Write.{write_sym, write_u16, write_u8}
use boomerang.Schema.Codec.Read.{read_action, read_foreign_key}
use boomerang.Schema.Codec.Fields.{IsForeignKey, sym-ReadsBack}

module _ (fault : Fault) where
  action_panics :
      (v : ℕ) (rest : List ℕ) → 4 < v → v < 256 → read_action fault (write_u8 v ++ rest) ≡ panic
  unfolding read_action action_from_u8
  action_panics v rest h k = rw (read_uint-le_bytes fault 1 v rest k) (ground arith)

  -- A foreign key whose action on update is written as a byte above 4, where no action is: both
  -- decoders panic on it, `decode` too, although it answers other malformed input by `None`.
  pub foreign_key_panics :
      (fk : ForeignKey) (v : ℕ) (rest : List ℕ)
      → IsForeignKey fk
      → 4 < v
      → v < 256
      → read_foreign_key fault (
          write_sym fk.constraint_name
          ++ (write_sym fk.namespace
              ++ (write_u16 fk.table ++ (write_u16 fk.column ++ (write_u8 v ++ rest)))))
        ≡ panic
  unfolding read_foreign_key
  foreign_key_panics fk v rest h lo hi = rw (
    (sym-ReadsBack fault fk.constraint_name h.constraint_name).at,
    (sym-ReadsBack fault fk.namespace h.namespace).at,
    read_uint-le_bytes fault 2 fk.table (write_u16 fk.column ++ (write_u8 v ++ rest)) h.table,
    read_uint-le_bytes fault 2 fk.column (write_u8 v ++ rest) h.column,
    action_panics v rest lo hi,
  )
