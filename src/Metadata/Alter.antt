-- ===== src/Metadata/Alter.antt =====
-- internal/metadata/snapshot.go: `tableFromSpec` and `applyTableDDL`.
pub mod Invariant
pub mod Created
use goinception_plus.Prelude.{
  ℕ, String, Bool, true, false, ◌&&◌, ◌||◌, Option, none, some, List, [], ◌∷◌, ◌++◌, map,
  if◌then◌else◌, remove_at, is_empty, ◌==◌, text_eq,
}
use goinception_plus.Strings.{Text, txt}
use goinception_plus.Model.{
  TableRef, AlterAction, ColumnSpec, IndexSpec, AlterOperation, DdlAction, DdlSpec,
}
use goinception_plus.Audit.Types.{Column, Index, Table, Error, failure, Result, ok, err, ◌>>=◌}
use goinception_plus.Metadata.Names.{find_named, modify_at, name_at}
use goinception_plus.Metadata.Table.{
  index_name, find_index, name_error, default_schema, index_from, create_indexes, drop_index_named,
  drop_indexes, add_columns, drop_column, modify_column, change_column, rename_column,
}

-- The column of a CREATE TABLE; its default, comment and collation are not recorded.
column_of_create : ColumnSpec → Column
column_of_create c = record {
  name = c.name;
  column_type = c.type;
  nullable = c.nullable;
  default = none;
  extra = [];
  character_set = c.character_set;
  collation = [];
  comment = [];
  generation_expression = [];
  auto_increment = c.auto_increment;
  unsigned = c.unsigned;
}

unfoldable pub add_created_column : ColumnSpec → Table → Table
unfolding column_of_create find_index
add_created_column c t =
    let t' = record t { columns = t.columns ++ column_of_create c ∷ [] } in
    let primary = index_from (txt "PRIMARY") (c.name ∷ []) true true [] [] in
    elim (find_index t' (txt "PRIMARY")) [
      | none ↦ if c.primary_key then record t' { indexes = t'.indexes ++ primary ∷ [] } else t'
      | some n ↦ t'
    ]

unfoldable pub put_created_index : IndexSpec → Table → Table
unfolding find_index
put_created_index i t =
    let index = index_from i.name i.columns i.unique i.primary i.prefix_lengths i.expressions in
    elim (find_index t i.name) [
      | some n ↦ record t { indexes = modify_at (λ _. index) n t.indexes }
      | none ↦ record t { indexes = t.indexes ++ index ∷ [] }
    ]

unfoldable pub add_created_columns : List ColumnSpec → Table → Table
unfolding add_created_column
add_created_columns [] t = t
add_created_columns (c ∷ rest) t = add_created_columns rest (add_created_column c t)

unfoldable pub put_created_indexes : List IndexSpec → Table → Table
unfolding put_created_index
put_created_indexes [] t = t
put_created_indexes (i ∷ rest) t = put_created_indexes rest (put_created_index i t)

abbrev pub empty_table : Text → Text → Table
empty_table schema name = record {
  schema = schema;
  name = name;
  create_sql = [];
  columns = [];
  indexes = [];
  is_view = false;
  character_set = [];
  collation = [];
  engine = [];
  table_type = [];
  comment = [];
  rows = 0;
}

unfoldable pub table_from_spec : DdlSpec → Table
unfolding add_created_columns put_created_indexes
table_from_spec d = put_created_indexes d.indexes (
    add_created_columns d.columns (record (empty_table d.schema d.table) {
      engine = d.engine;
      character_set = d.character_set;
      collation = d.collation;
    }))

unfoldable pub add_index : Option IndexSpec → Table → Result Table
unfolding find_index
add_index none t = err (failure (txt "missing index projection"))
add_index (some i) t = elim (find_index t i.name) [
  | some n ↦ err (name_error "index %s already exists" i.name)
  | none ↦ ok (record t {
    indexes = t.indexes ++ index_from i.name i.columns i.unique i.primary [] [] ∷ [];
  })
]

unfoldable pub rename_index : Text → Text → Table → Result Table
unfolding find_index
rename_index name new_name t = elim (find_index t name) [
  | none ↦ err (name_error "index %s does not exist" name)
  | some n ↦ elim (find_index t new_name) [
    | some m ↦ err (name_error "index %s already exists" new_name)
    | none ↦ ok (record t { indexes = modify_at (λ i. record i { name = new_name }) n t.indexes })
  ]
]

unfoldable pub rename_to : Option TableRef → Table → Result Table
rename_to none t = err (failure (txt "missing rename target"))
rename_to (some target) t =
    ok (record t { schema = default_schema target.schema t.schema; name = target.name })

unfoldable pub set_options : DdlSpec → Table → Table
set_options d t = record t {
  engine = if d.has_engine_option then d.engine else t.engine;
  character_set = if d.has_charset_option then d.character_set else t.character_set;
  collation = if d.has_collation_option then d.collation else t.collation;
}

-- One turn of the loop over the operations of an ALTER TABLE.
unfoldable pub apply_operation : DdlSpec → AlterOperation → Table → Result Table
unfolding add_columns drop_column modify_column change_column rename_column add_index
    drop_index_named rename_index rename_to set_options
apply_operation d op t = elim op.action [
  | AlterAction.add_columns ↦ add_columns op.columns t
  | AlterAction.drop_column ↦ drop_column op.name t
  | AlterAction.modify_column ↦ modify_column op.columns t
  | AlterAction.change_column ↦ change_column op.name op.columns t
  | AlterAction.rename_column ↦ rename_column op.name op.new_name t
  | AlterAction.add_index ↦ add_index op.index t
  | AlterAction.drop_index ↦ drop_index_named op.name t
  | AlterAction.drop_primary_key ↦ drop_index_named op.name t
  | AlterAction.rename_index ↦ rename_index op.name op.new_name t
  | AlterAction.rename_table ↦ rename_to op.new_table t
  | AlterAction.table_options ↦ ok (set_options d t)
]

unfoldable pub apply_operations : DdlSpec → List AlterOperation → Table → Result Table
unfolding apply_operation
apply_operations d [] t = ok t
apply_operations d (op ∷ rest) t = apply_operation d op t >>= apply_operations d rest

unfoldable pub apply_table_ddl : DdlSpec → Table → Result Table
unfolding create_indexes drop_indexes apply_operations
apply_table_ddl d t = elim d.action [
  | DdlAction.create_index ↦ create_indexes d.indexes t
  | DdlAction.drop_index ↦ drop_indexes d.indexes t
  | _ ↦ apply_operations d d.alter_operations t
]
