-- ===== src/Tests/Data.antt =====
-- The tables, statements and targets of the examples.
use goinception_plus.Prelude.{
  ℕ, suc, true, false, Option, none, List, [], ◌∷◌, if◌then◌else◌, ◌==◌, text_eq, refl,
}
use goinception_plus.Strings.Dict.{lookup}
use goinception_plus.Strings.{Text, txt}
use goinception_plus.Model.{
  TableRef, ColumnSpec, IndexSpec, AlterAction, AlterOperation, DdlAction, DdlSpec, StatementKind,
  Statement,
}
use goinception_plus.Audit.Types.{
  Column, Index, Table, metadata_not_found, failure, Result, ok, err,
}
use goinception_plus.Metadata.Cache.{MetadataProvider, Provider, table_key}
use goinception_plus.Metadata.Cache.Laws.{IsStable, AgreesOnKeys, view}
use goinception_plus.Metadata.Snapshot.Laws.Refinement.{Shows}

abbrev pub ref : Text → Text → TableRef
ref schema name = record { schema = schema; name = name; alias = [] }

abbrev pub column : Text → Column
column name = record {
  name = name;
  column_type = txt "int";
  nullable = false;
  default = none;
  extra = [];
  character_set = [];
  collation = [];
  comment = [];
  generation_expression = [];
  auto_increment = false;
  unsigned = false;
}

abbrev pub index : Text → List Text → Index
index name columns = record {
  name = name;
  columns = columns;
  unique = true;
  primary = true;
  prefix_lengths = [];
  expressions = [];
  directions = [];
  index_type = [];
  visible = true;
}

abbrev pub app : Text
app = txt "app"

abbrev pub users : Table
users = record {
  schema = app;
  name = txt "users";
  create_sql = [];
  columns = column (txt "id") ∷ column (txt "Name") ∷ [];
  indexes = index (txt "PRIMARY") (txt "ID" ∷ []) ∷ [];
  is_view = false;
  character_set = [];
  collation = [];
  engine = [];
  table_type = [];
  comment = [];
  rows = 0;
}

abbrev pub column_spec : Text → ColumnSpec
column_spec name = record {
  name = name;
  type = txt "bigint";
  nullable = true;
  has_comment = false;
  primary_key = false;
  auto_increment = false;
  unsigned = false;
  has_default = false;
  generated = false;
  character_set = [];
  collation = [];
  default_expression = [];
  on_update = false;
  length = 0;
  position_changed = false;
  explicit_charset = false;
}

abbrev pub index_spec : Text → List Text → IndexSpec
index_spec name columns = record {
  name = name;
  columns = columns;
  unique = false;
  primary = false;
  prefix_lengths = [];
  expressions = [];
}

abbrev pub operation : AlterAction → Text → Text → List ColumnSpec → AlterOperation
operation action name new_name columns = record {
  action = action;
  name = name;
  new_name = new_name;
  columns = columns;
  index = none;
  new_table = none;
}

-- A statement on a table of `app`.
abbrev pub ddl : DdlAction → Text → DdlSpec
ddl action table = record {
  action = action;
  schema = app;
  table = table;
  tables = ref [] table ∷ [];
  reference = none;
  rename_pairs = [];
  alter_operations = [];
  columns = column_spec (txt "id") ∷ [];
  indexes = [];
  has_primary_key = false;
  has_comment = false;
  create_like = false;
  create_select = false;
  fully_projected = true;
  if_exists = false;
  if_not_exists = false;
  noop = false;
  engine = [];
  character_set = [];
  collation = [];
  has_engine_option = false;
  has_charset_option = false;
  has_collation_option = false;
  auto_increment_value = 0;
  has_foreign_key = false;
  partitioned = false;
}

abbrev pub statement : ℕ → StatementKind → Option DdlSpec → Statement
statement sequence kind d = record {
  sequence = sequence;
  original = [];
  normalized = txt "ALTER TABLE users ADD COLUMN age int";
  kind = kind;
  database = app;
  start_offset = 0;
  end_offset = 0;
  supported = true;
  ddl = d;
  dml = none;
}

-- A server that ignores the case of names and holds the table `app.users`.
abbrev pub content : Text → Text → Result Table
content s t =
    if table_key true s t == table_key true app (txt "users")
    then ok users
    else err metadata_not_found

abbrev pub source : MetadataProvider
source = record {
  World = ℕ;
  load_server_info = λ w. (err (failure (txt "offline")), suc w);
  load_schema = λ s w. (err metadata_not_found, suc w);
  load_table = λ s t w. (content s t, suc w);
  estimator = none;
}

abbrev pub start : Provider source
start = record { world = 0; lower_case = true; server = none; schemas = []; tables = [] }

pub source-IsStable : IsStable source content
source-IsStable = record { steady = λ s t w. refl }

pub content-AgreesOnKeys : AgreesOnKeys true content
content-AgreesOnKeys s t s' t' e = rw e refl

pub start-Shows : Shows source content source-IsStable true content-AgreesOnKeys content start
unfolding view lookup
start-Shows = record { mode = refl; shown = λ s t. refl }
