-- ===== src/Schema.antt =====
-- The migration alembic/versions/0001_initial.py as a script of DDL statements, and what each
-- statement needs of the catalog of the database and does to it. Comments of columns are left out.

pub mod Frame
pub mod Upgrade
pub mod Metadata
pub mod Migrated
use Prim.Native.String.{◌++◌ as str_append}
use crypto_brokerage.Base.{
  ◌≡◌, refl, ℕ, Bool, true, false, not, ◌&&◌, ◌||◌, Option, none, some, String, List, [], ◌∷◌, ◌++◌,
  str_eq, select, all, any, map, if◌then◌else◌,
}
use crypto_brokerage.Errors.{Result, ok, err, other}

pub data ColumnType : Type 0 where
  uuid boolean integer timestamp : ColumnType
  varchar : ℕ → ColumnType
  -- precision and scale
  numeric : ℕ → ℕ → ColumnType
  enum : String → ColumnType

pub record Column : Type 0 where
  pub name : String
  pub column_type : ColumnType
  pub nullable : Bool
  pub server_default : Option String

pub data OnDelete : Type 0 where
  cascade restrict : OnDelete

pub record ForeignKey : Type 0 where
  pub column : String
  pub parent : String
  pub on_delete : OnDelete

-- A UNIQUE constraint with the name of its index.
pub record Unique : Type 0 where
  pub name : String
  pub columns : List String

-- The primary key of every table is its column `id`.
pub record Table : Type 0 where
  pub name : String
  pub columns : List Column
  pub foreign_keys : List ForeignKey
  pub uniques : List Unique

pub record Index : Type 0 where
  pub name : String
  pub table : String
  pub columns : List String
  pub unique : Bool

-- An enumeration is its name and its labels.
pub record EnumType : Type 0 where
  pub name : String
  pub labels : List String

-- How the columns, keys and indexes are written.
abbrev pub required : String → ColumnType → Column
required n t = record { name = n; column_type = t; nullable = false; server_default = none }

abbrev pub nullable : String → ColumnType → Column
nullable n t = record { name = n; column_type = t; nullable = true; server_default = none }

abbrev pub defaulting : String → Column → Column
defaulting d k = record k { server_default = some d }

abbrev pub id_column : Column
id_column = required "id" uuid

abbrev pub key : String → String → OnDelete → ForeignKey
key column parent on_delete = record { column = column; parent = parent; on_delete = on_delete }

abbrev pub index : String → String → List String → Bool → Index
index n table columns unique = record {
  name = n;
  table = table;
  columns = columns;
  unique = unique;
}

abbrev pub unique : String → List String → Unique
unique n columns = record { name = n; columns = columns }

-- A class of the models: its table, its indexes and the enumerations of its columns.
pub record Model : Type 0 where
  pub table : Table
  pub indexes : List Index
  pub enums : List EnumType

-- `TimestampMixin`
abbrev pub audit_columns : List Column
audit_columns =
    defaulting "now()" (required "created_at" timestamp)
    ∷ defaulting "now()" (required "updated_at" timestamp)
    ∷ []

-- The statements: `op.execute` of the two texts, `op.create_table`, `op.create_index`, `op.drop_table`.
pub data Statement : Type 0 where
  create_type_if_not_exists : String → List String → Statement
  create_table : Table → Statement
  create_index : Index → Statement
  drop_table : String → Statement
  drop_type_if_exists : String → Statement

pub record Catalog : Type 0 where
  pub types : List EnumType
  pub tables : List Table
  pub indexes : List Index

abbrev pub no_tables : Catalog
no_tables = record { types = []; tables = []; indexes = [] }

abbrev pub has_type : String → Catalog → Bool
has_type n c = any (λ (t : EnumType). str_eq t.name n) c.types

abbrev pub has_table : String → Catalog → Bool
has_table n c = any (λ (t : Table). str_eq t.name n) c.tables

-- What a table brings into the names of the schema: itself and the indexes of its keys.
abbrev pub names_of : Table → List String
names_of t = t.name ∷ str_append t.name "_pkey" ∷ map (λ (u : Unique). u.name) t.uniques

-- Tables, indexes and types share their names: a table is a type of its rows too.
abbrev pub is_taken : String → Catalog → Bool
is_taken n c =
    any (λ (t : Table). any (str_eq n) (names_of t)) c.tables
    || (any (λ (i : Index). str_eq i.name n) c.indexes || has_type n c)

abbrev pub distinct_names : List String → Bool
distinct_names [] = true
distinct_names (n ∷ ns) = not (any (str_eq n) ns) && distinct_names ns

abbrev pub has_column : Table → String → Bool
has_column t n = any (λ (k : Column). str_eq k.name n) t.columns

abbrev is_uuid : ColumnType → Bool
is_uuid uuid = true
is_uuid _ = false

abbrev has_uuid : Table → String → Bool
has_uuid t n = any (λ (k : Column). str_eq k.name n && is_uuid k.column_type) t.columns

abbrev pub of_enum : String → ColumnType → Bool
of_enum n (enum m) = str_eq m n
of_enum n _ = false

abbrev pub uses_type : String → Table → Bool
uses_type n t = any (λ (k : Column). of_enum n k.column_type) t.columns

-- Another table with a foreign key to this one.
abbrev pub refers_to : String → Table → Bool
refers_to n t = not (str_eq t.name n) && any (λ (f : ForeignKey). str_eq f.parent n) t.foreign_keys

abbrev pub type_known : Catalog → ColumnType → Bool
type_known c (enum n) = has_type n c
type_known c _ = true

abbrev one_of : List String → String → Bool
one_of texts d = any (str_eq d) texts

-- A default is a value of its column; of the numbers, those of one digit are enough here.
abbrev pub default_known : Catalog → ColumnType → Option String → Bool
default_known c _ none = true
default_known c (enum n) (some d) =
    any (λ (e : EnumType). str_eq e.name n && one_of e.labels d) c.types
default_known c boolean (some d) = one_of ("true" ∷ "false" ∷ []) d
default_known c timestamp (some d) = one_of ("now()" ∷ []) d
default_known c (varchar n) (some d) = true
default_known c uuid (some d) = false
default_known c _ (some d) =
    one_of ("0" ∷ "1" ∷ "2" ∷ "3" ∷ "4" ∷ "5" ∷ "6" ∷ "7" ∷ "8" ∷ "9" ∷ []) d

-- A foreign key refers to the primary key of its parent.
abbrev pub has_parent : Catalog → String → Bool
has_parent c n = any (λ (t : Table). str_eq t.name n && has_uuid t "id") c.tables

-- The columns of the constraints of a new table are its own.
abbrev pub is_whole : Table → Bool
is_whole t =
    distinct_names (names_of t)
    && distinct_names (map (λ (k : Column). k.name) t.columns)
    && has_uuid t "id"
    && all (λ (f : ForeignKey). has_uuid t f.column) t.foreign_keys
    && all (λ (u : Unique). all (has_column t) u.columns) t.uniques

-- The parents and the enumerations of a new table are there.
abbrev pub is_founded : Table → Catalog → Bool
is_founded t c =
    all (λ (f : ForeignKey). has_parent c f.parent) t.foreign_keys
    && all
        (λ (k : Column).
          type_known c k.column_type && default_known c k.column_type k.server_default)
        t.columns

-- No name of a new table is taken.
abbrev pub is_new : Table → Catalog → Bool
is_new t c = all (λ n. not (is_taken n c)) (names_of t)

-- The table of a new index has its columns.
abbrev pub is_indexable : Index → Table → Bool
is_indexable i t = str_eq t.name i.table && all (has_column t) i.columns

abbrev pub checked : Bool → String → Catalog → Result Catalog
checked true message c = ok c
checked false message c = err (other message)

-- What PostgreSQL asks of the catalog for a statement, ...
abbrev pub allowed : Statement → Catalog → Bool
allowed (create_type_if_not_exists n labels) c =
    has_type n c || (not (is_taken n c) && distinct_names labels)
allowed (create_table t) c = (is_whole t && is_new t c) && is_founded t c
allowed (create_index i) c = not (is_taken i.name c) && any (is_indexable i) c.tables
allowed (drop_table n) c = has_table n c && not (any (refers_to n) c.tables)
allowed (drop_type_if_exists n) c = not (any (uses_type n) c.tables)

-- ... and what the statement then does.
abbrev pub effect : Statement → Catalog → Catalog
effect (create_type_if_not_exists n labels) c =
    if has_type n c then c else record c { types = record { name = n; labels = labels } ∷ c.types }
effect (create_table t) c = record c { tables = t ∷ c.tables }
effect (create_index i) c = record c { indexes = i ∷ c.indexes }
effect (drop_table n) c = record c {
  tables = select (λ t. not (str_eq t.name n)) c.tables;
  indexes = select (λ i. not (str_eq i.table n)) c.indexes;
}
effect (drop_type_if_exists n) c = record c { types = select (λ t. not (str_eq t.name n)) c.types }

-- The database is a parameter: any `execute` that does what is documented where it is allowed.
abbrev pub Documented : (Statement → Catalog → Result Catalog) → Type 0
Documented execute =
    (s : Statement) (c : Catalog) → allowed s c ≡ true → execute s c ≡ ok (effect s c)

-- A database that does nothing else.
unfoldable pub by_the_book : Statement → Catalog → Result Catalog
by_the_book s c = checked (allowed s c) "ProgrammingError" (effect s c)

pub by_the_book-Documented : Documented by_the_book
unfolding by_the_book
by_the_book-Documented s c h = rw h refl

-- A migration runs in one transaction: it stops at the first statement that fails.
abbrev pub then_run : (Catalog → Result Catalog) → Result Catalog → Result Catalog
then_run rest (ok c) = rest c
then_run rest (err e) = err e

unfoldable pub run :
    (Statement → Catalog → Result Catalog) → List Statement → Catalog → Result Catalog
run execute [] c = ok c
run execute (s ∷ ss) c = then_run (run execute ss) (execute s c)
