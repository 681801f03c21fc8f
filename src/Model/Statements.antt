-- ===== src/Model/Statements.antt =====
-- internal/model/model.go: a parsed statement with its DDL or DML projection.
use goinception_plus.Prelude.{ℕ, Bool, List, Option}
use goinception_plus.Strings.{Text}
use goinception_plus.Model.Ddl.{TableRef, ColumnRef, DdlSpec}

pub data StatementKind : Type 0 where
  unknown use_database create_database alter_database drop_database : StatementKind
  create_table alter_table drop_table rename_table truncate_table : StatementKind
  create_index drop_index create_view alter_view drop_view : StatementKind
  insert update delete select : StatementKind

pub data LiteralKind : Type 0 where
  unknown null boolean signed_integer unsigned_integer float decimal : LiteralKind
  string binary temporal duration json : LiteralKind

pub record ComparisonSpec : Type 0 where
  pub column : ColumnRef
  pub literal_kind : LiteralKind

pub record DmlSpec : Type 0 where
  pub tables : List TableRef
  pub columns : List Text
  pub assignments : List ColumnRef
  pub has_where : Bool
  pub has_limit : Bool
  pub has_order_by : Bool
  pub multi_table : Bool
  pub insert_select : Bool
  pub on_duplicate : Bool
  pub fully_projected : Bool
  pub value_rows : ℕ
  pub has_join_without_on : Bool
  pub has_select_star : Bool
  pub estimated_rows : ℕ
  pub estimate_method : Text
  pub uses_cte : Bool
  pub order_by_rand : Bool
  pub wrong_and_expr : Bool
  pub comparisons : List ComparisonSpec

pub record Statement : Type 0 where
  pub sequence : ℕ
  pub original : Text
  pub normalized : Text
  pub kind : StatementKind
  pub database : Text
  pub start_offset : ℕ
  pub end_offset : ℕ
  pub supported : Bool
  pub ddl : Option DdlSpec
  pub dml : Option DmlSpec
