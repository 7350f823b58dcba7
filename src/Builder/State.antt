-- ===== src/Builder/State.antt =====
-- The state of `DatabaseSchemaBuilder` in crates/database/src/core/schema_builder.rs. `I` is the
-- string interner.
use boomerang.Base.{ℕ, Bool, Option, none, List, []}
use boomerang.Base.Order.{Str}
use boomerang.Interner.Symbol.{Symbol}
use boomerang.Schema.Types.{Action, ForeignKey, Column, TableMeta}

pub record RawForeignKey : Type 0 where
  pub constraint_name : Str
  pub namespace : Str
  pub referenced_table : Str
  pub referenced_column : Str
  pub on_update : Action
  pub on_delete : Action

pub record UnresolvedFk : Type 0 where
  pub pool_index : ℕ
  pub source_table_idx : ℕ
  pub ref_table_sym : Symbol
  pub ref_column_sym : Symbol

pub record DatabaseSchemaBuilder (I : Type 0) : Type 0 where
  pub interner : I
  pub tables : List TableMeta
  pub columns : List Column
  pub column_names : List Symbol
  pub constraint_pool : List Symbol
  pub foreign_key_pool : List ForeignKey
  pub current_table : Option Symbol
  pub current_table_cols_start : ℕ
  pub current_table_fk_start : ℕ
  pub current_table_pk : Option ℕ
  pub unresolved_fks : List UnresolvedFk

-- `with_capacity`, with the new interner.
unfoldable pub with_capacity : {I : Type 0} → I → DatabaseSchemaBuilder I
with_capacity interner = record {
  interner = interner;
  tables = [];
  columns = [];
  column_names = [];
  constraint_pool = [];
  foreign_key_pool = [];
  current_table = none;
  current_table_cols_start = 0;
  current_table_fk_start = 0;
  current_table_pk = none;
  unresolved_fks = [];
}

-- The arguments of `add_row`.
pub record Row : Type 0 where
  pub table_name : Str
  pub column_name : Str
  pub data_type : Str
  pub nullable : Bool
  pub is_primary : Bool
  pub is_unique : Bool
  pub default_expr : Option Str
  pub foreign_keys : List RawForeignKey
  pub check_defs : List Str
  pub domain_checks : List Str
