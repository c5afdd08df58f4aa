-- ===== src/Migrations/Server.antt =====
-- What a migration runs on: a database server as a record of functions, and what PostgreSQL's
-- documentation says of the statements that the migrations send, and Alembic's of its own table. A statement that is refused
-- changes nothing. The server is not part of the program.
use nordmarkt.Common.{
  refl, Bool, true, false, not, ◌&&◌, ◌≡◌, List, [], ◌∷◌, ◌++◌, any, select, Option, none, some,
  String, str_eq, if◌then◌else◌,
}
use nordmarkt.Common.Texts.{mem_text, ◌+s◌}
use nordmarkt.Migrations.Statements.{
  Keyword, foreign_key, index, Item, column, unique_constraint, check_constraint, enum, Table,
  Statement, create_extension, create_table, drop_table, create_index, drop_index, create_enum,
  drop_enum, set_heads, commit, Index, plain_index,
}

-- The catalogue of a database, newest first, and the revisions that Alembic's own table holds.
pub record Schema : Type 0 where
  pub tables : List Table
  pub indexes : List Index
  pub enums : List String
  pub has_extension : String → Bool
  pub heads : List String

abbrev pub all {ℓ} : {A : Type ℓ} → (A → Bool) → List A → Bool
all p [] = true
all p (x ∷ xs) = p x && all p xs

abbrev pub keyword_references : List Keyword → List (String × String)
keyword_references [] = []
keyword_references (foreign_key t c _ ∷ ks) = (t, c) ∷ keyword_references ks
keyword_references (_ ∷ ks) = keyword_references ks

-- The columns that the foreign keys of a table refer to, each with its table.
abbrev pub references : List Item → List (String × String)
references [] = []
references (column _ _ ks ∷ rest) = keyword_references ks ++ references rest
references (_ ∷ rest) = references rest

abbrev pub columns_of : List Item → List String
columns_of [] = []
columns_of (column name _ _ ∷ rest) = name ∷ columns_of rest
columns_of (_ ∷ rest) = columns_of rest

abbrev pub enums_of : List Item → List String
enums_of [] = []
enums_of (column _ (enum name) _ ∷ rest) = name ∷ enums_of rest
enums_of (_ ∷ rest) = enums_of rest

abbrev pub is_indexed : List Keyword → Bool
is_indexed [] = false
is_indexed (index ∷ ks) = true
is_indexed (_ ∷ ks) = is_indexed ks

-- The indexes that come with a table: of the columns with `index=True`, under the names of the
-- convention of db/base.py, and of its unique constraints.
abbrev pub own_indexes : String → List Item → List Index
own_indexes table [] = []
own_indexes table (column name _ ks ∷ rest) =
    if is_indexed ks
    then plain_index ("ix_" +s table +s "_" +s name) table (name ∷ []) ∷ own_indexes table rest
    else own_indexes table rest
own_indexes table (unique_constraint columns name ∷ rest) =
    record (plain_index name table columns) { is_unique = true } ∷ own_indexes table rest
own_indexes table (check_constraint _ _ ∷ rest) = own_indexes table rest

abbrev pub has_table : String → List Table → Bool
has_table name = any (λ (t : Table). str_eq t.name name)

abbrev pub has_column : List Table → String × String → Bool
has_column tables (name, c) =
    any (λ (t : Table). str_eq t.name name && mem_text c (columns_of t.items)) tables

abbrev pub has_index : List Index → String → Bool
has_index indexes name = any (λ (i : Index). str_eq i.name name) indexes

-- Another table that refers to the one of the name.
abbrev pub depends_on : String → Table → Bool
depends_on name t =
    not (str_eq t.name name) && any (λ (r : String × String). str_eq r.0 name) (references t.items)

abbrev pub is_loaded : Option String → (String → Bool) → Bool
is_loaded none loaded = true
is_loaded (some e) loaded = loaded e

-- Whether a statement is carried out; the one on transactions is not about the schema.
unfoldable pub allows : Statement → Schema → Bool
allows (create_table t) s =
    not (has_table t.name s.tables)
    && all (has_column (t ∷ s.tables)) (references t.items)
    && all (λ e. mem_text e s.enums) (enums_of t.items)
    && all (λ (i : Index). not (has_index s.indexes i.name)) (own_indexes t.name t.items)
allows (drop_table name) s = has_table name s.tables && not (any (depends_on name) s.tables)
allows (create_index i) s =
    if has_index s.indexes i.name
    then i.if_not_exists
    else all (λ c. has_column s.tables (i.table, c)) i.columns
      && is_loaded i.extension s.has_extension
allows (drop_enum name) s = not (any (λ (t : Table). mem_text name (enums_of t.items)) s.tables)
allows _ s = true

unfoldable pub perform : Statement → Schema → Schema
perform (create_extension e) s = record s {
  has_extension = λ x. if str_eq x e then true else s.has_extension x;
}
perform (create_table t) s = record s {
  tables = t ∷ s.tables;
  indexes = own_indexes t.name t.items ++ s.indexes;
}
perform (drop_table name) s = record s {
  tables = select (λ (t : Table). not (str_eq t.name name)) s.tables;
  indexes = select (λ (i : Index). not (str_eq i.table name)) s.indexes;
}
perform (create_index i) s =
    if has_index s.indexes i.name then s else record s { indexes = i ∷ s.indexes }
perform (drop_index name) s = record s {
  indexes = select (λ (i : Index). not (str_eq i.name name)) s.indexes;
}
perform (create_enum name _) s =
    if mem_text name s.enums then s else record s { enums = name ∷ s.enums }
perform (drop_enum name) s = record s { enums = select (λ e. not (str_eq e name)) s.enums }
perform (set_heads heads) s = record s { heads = heads }
perform commit s = s

-- What a connection sees, and what others see of it.
pub record Session : Type 0 where
  pub committed : Schema
  pub schema : Schema
  pub in_transaction : Bool

abbrev pub is_concurrent : Statement → Bool
is_concurrent (create_index i) = i.concurrently
is_concurrent (drop_index _) = true
is_concurrent _ = false

abbrev pub set_schema : Schema → Session → Session
set_schema new s = record s {
  schema = new;
  committed = if s.in_transaction then s.committed else new;
}

-- A statement other than COMMIT; CONCURRENTLY is refused inside a transaction.
unfoldable pub attempt : Statement → Session → Bool × Session
attempt st s =
    if not (is_concurrent st && s.in_transaction) && allows st s.schema
    then (true, set_schema (perform st s.schema) s)
    else (false, s)

-- COMMIT ends the transaction and makes its changes seen.
unfoldable pub step : Statement → Session → Bool × Session
step commit s = (true, record s { committed = s.schema; in_transaction = false })
step st s = attempt st s

pub record Server : Type 1 where
  pub Connection : Type 0
  pub observe : Connection → Session
  pub execute : Statement → Connection → Bool × Connection
  pub begin : Connection → Connection
  pub rollback : Connection → Connection
  pub version_table : Table
  pub ensure_version_table : Connection → Connection

-- A schema with Alembic's own table, which is created where there is none.
abbrev pub with_version : Table → Schema → Schema
with_version t s = record s {
  tables = if has_table t.name s.tables then s.tables else t ∷ s.tables;
  indexes =
      if has_table t.name s.tables then s.indexes else own_indexes t.name t.items ++ s.indexes;
}

pub record ServerLaws (sv : Server) : Type 0 where
  pub executed :
      (st : Statement) (c : sv.Connection) → (sv.execute st c).0 ≡ (step st (sv.observe c)).0
  pub observe-execute :
      (st : Statement) (c : sv.Connection)
      → sv.observe (sv.execute st c).1 ≡ (step st (sv.observe c)).1
  pub observe-begin :
      (c : sv.Connection)
      → sv.observe (sv.begin c) ≡ record (sv.observe c) { in_transaction = true }
  pub observe-rollback :
      (c : sv.Connection)
      → sv.observe (sv.rollback c)
        ≡ record (sv.observe c) { schema = (sv.observe c).committed; in_transaction = false }
  pub observe-ensure :
      (c : sv.Connection)
      → sv.observe (sv.ensure_version_table c)
        ≡ set_schema (with_version sv.version_table (sv.observe c).schema) (sv.observe c)

-- The server that does just that, with a table of Alembic's.
abbrev pub documented : Table → Server
documented t = record {
  Connection = Session;
  observe = λ s. s;
  execute = step;
  begin = λ s. record s { in_transaction = true };
  rollback = λ s. record s { schema = s.committed; in_transaction = false };
  version_table = t;
  ensure_version_table = λ s. set_schema (with_version t s.schema) s;
}

abbrev pub documented_laws : (t : Table) → ServerLaws (documented t)
documented_laws t = record {
  executed = λ st c. refl;
  observe-execute = λ st c. refl;
  observe-begin = λ c. refl;
  observe-rollback = λ c. refl;
  observe-ensure = λ c. refl;
}
