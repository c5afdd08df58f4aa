-- ===== src/Migrations/Statements.antt =====
-- backend/app/db/migrations: the language of the migrations, the operations of Alembic and the
-- columns, keywords and constraints of SQLAlchemy that they use, as data.
use nordmarkt.Common.{ℕ, Bool, false, List, Option, none, String}

pub data ColumnType : Type 0 where
  uuid : ColumnType
  jsonb : ColumnType
  tsvector : ColumnType
  timestamptz : ColumnType
  text : ColumnType
  integer : ColumnType
  boolean : ColumnType
  varchar : ℕ → ColumnType
  numeric : ℕ → ℕ → ColumnType
  varchar_array : ℕ → ColumnType
  enum : String → ColumnType

-- The keyword arguments of `sa.Column`. A foreign key names a table and a column, and has an
-- `ondelete` or none; `computed` is `sa.Computed(..., persisted=True)`.
pub data Keyword : Type 0 where
  primary_key : Keyword
  not_null : Keyword
  unique : Keyword
  index : Keyword
  server_default : String → Keyword
  foreign_key : String → String → Option String → Keyword
  computed : String → Keyword

-- The texts of the check constraints: `a >= 0`, `a <= b` and `a IS NULL OR a >= b`.
pub data Check : Type 0 where
  at_least_zero : String → Check
  at_most : String → String → Check
  null_or_at_least : String → String → Check

pub data Item : Type 0 where
  column : String → ColumnType → List Keyword → Item
  unique_constraint : List String → String → Item
  check_constraint : Check → String → Item

pub record Table : Type 0 where
  pub name : String
  pub items : List Item

-- CREATE INDEX. `columns` are those that its keys, its INCLUDE and its WHERE read, in that order;
-- `extension` is the one that its operator class comes from.
pub record Index : Type 0 where
  pub name : String
  pub table : String
  pub columns : List String
  pub is_unique : Bool
  pub method : String
  pub condition : String
  pub extension : Option String
  pub concurrently : Bool
  pub if_not_exists : Bool

-- `op.create_index(name, table, columns)`
abbrev pub plain_index : String → String → List String → Index
plain_index name table columns = record {
  name = name;
  table = table;
  columns = columns;
  is_unique = false;
  method = "btree";
  condition = "";
  extension = none;
  concurrently = false;
  if_not_exists = false;
}

-- `create_enum` and `drop_enum` are those of `checkfirst=True` and of IF EXISTS, and `drop_index` is
-- DROP INDEX CONCURRENTLY IF EXISTS. `set_heads` is what Alembic sends after a revision: the INSERT,
-- UPDATE or DELETE that leaves these revisions in its own table.
pub data Statement : Type 0 where
  create_extension : String → Statement
  create_table : Table → Statement
  drop_table : String → Statement
  create_index : Index → Statement
  drop_index : String → Statement
  create_enum : String → List String → Statement
  drop_enum : String → Statement
  set_heads : List String → Statement
  commit : Statement
