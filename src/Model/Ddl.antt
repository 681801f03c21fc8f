-- ===== src/Model/Ddl.antt =====
-- internal/model/model.go: the projection of a DDL statement.
use goinception_plus.Prelude.{ℕ, Bool, List, Option}
use goinception_plus.Strings.{Text}

pub record TableRef : Type 0 where
  pub schema : Text
  pub name : Text
  pub alias : Text

pub record ColumnRef : Type 0 where
  pub schema : Text
  pub table : Text
  pub name : Text

pub record RenamePair : Type 0 where
  pub from : TableRef
  pub to : TableRef

pub data AlterAction : Type 0 where
  add_columns drop_column modify_column change_column rename_column : AlterAction
  add_index drop_index drop_primary_key rename_index : AlterAction
  rename_table table_options : AlterAction

pub record ColumnSpec : Type 0 where
  pub name : Text
  pub type : Text
  pub nullable : Bool
  pub has_comment : Bool
  pub primary_key : Bool
  pub auto_increment : Bool
  pub unsigned : Bool
  pub has_default : Bool
  pub generated : Bool
  pub character_set : Text
  pub collation : Text
  pub default_expression : Text
  pub on_update : Bool
  pub length : ℕ
  pub position_changed : Bool
  pub explicit_charset : Bool

pub record IndexSpec : Type 0 where
  pub name : Text
  pub columns : List Text
  pub unique : Bool
  pub primary : Bool
  pub prefix_lengths : List ℕ
  pub expressions : List Text

pub record AlterOperation : Type 0 where
  pub action : AlterAction
  pub name : Text
  pub new_name : Text
  pub columns : List ColumnSpec
  pub index : Option IndexSpec
  pub new_table : Option TableRef

pub data DdlAction : Type 0 where
  create_database alter_database drop_database : DdlAction
  create_table alter_table drop_table rename_table truncate_table : DdlAction
  create_index drop_index create_view alter_view drop_view : DdlAction

pub record DdlSpec : Type 0 where
  pub action : DdlAction
  pub schema : Text
  pub table : Text
  pub tables : List TableRef
  pub reference : Option TableRef
  pub rename_pairs : List RenamePair
  pub alter_operations : List AlterOperation
  pub columns : List ColumnSpec
  pub indexes : List IndexSpec
  pub has_primary_key : Bool
  pub has_comment : Bool
  pub create_like : Bool
  pub create_select : Bool
  pub fully_projected : Bool
  pub if_exists : Bool
  pub if_not_exists : Bool
  pub noop : Bool
  pub engine : Text
  pub character_set : Text
  pub collation : Text
  pub has_engine_option : Bool
  pub has_charset_option : Bool
  pub has_collation_option : Bool
  pub auto_increment_value : ℕ
  pub has_foreign_key : Bool
  pub partitioned : Bool
