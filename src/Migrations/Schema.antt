-- ===== src/Migrations/Schema.antt =====
-- Schemas, and the statements of alembic/versions/*.py.
use supportops_ai.Common.{ℕ, Bool, Option, List, Text}

pub data ColumnType : Type 0 where
  uuid text timestamp timestamp_with_time_zone jsonb integer boolean varchar_array : ColumnType
  varchar : ℕ → ColumnType
  enum : Text → ColumnType

pub data Default : Type 0 where
  now true_value empty_text empty_array : Default

pub record Column : Type 0 where
  pub name : Text
  pub column_type : ColumnType
  pub nullable : Bool
  pub server_default : Option Default

-- Every foreign key is `ON DELETE RESTRICT` to the `id` of a table.
pub data Constraint : Type 0 where
  primary_key unique : Text → Text → Constraint
  foreign_key : Text → Text → Text → Constraint

pub record Index : Type 0 where
  pub name : Text
  pub column : Text

pub record Table : Type 0 where
  pub name : Text
  pub columns : List Column
  pub constraints : List Constraint
  pub indexes : List Index

pub data Entry : Type 0 where
  enum_type : Text → List Text → Entry
  table : Table → Entry

abbrev pub Schema : Type 0
Schema = List Entry

-- `op.execute` of SQL, and the operations of Alembic
pub data Statement : Type 0 where
  create_type : Text → List Text → Statement
  create_table : Text → List Column → List Constraint → Statement
  create_index : Text → Text → Text → Statement
  add_column : Text → Column → Statement
  drop_default : Text → Text → Statement
  set_nullable : Text → Text → Bool → Statement
  set_type : Text → Text → ColumnType → Statement
  drop_column : Text → Text → Statement
  drop_index : Text → Text → Statement
  drop_table drop_table_if_exists drop_type_if_exists : Text → Statement

abbrev pub column : Text → ColumnType → Bool → Option Default → Column
column n ty null default = record {
  name = n;
  column_type = ty;
  nullable = null;
  server_default = default;
}
