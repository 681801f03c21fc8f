-- ===== src/Execution/Rollbacks.antt =====
-- internal/execution/mysql/engine.go: the rollback SQL of DDL statements.
use goinception_plus.Prelude.{
  ℕ, String, Option, none, some, List, [], ◌∷◌, ◌++◌, map, if◌then◌else◌, ◌==◌, text_eq,
}
use mathlib.Core.List.{reverse}
use goinception_plus.Strings.{Text, txt}
use goinception_plus.Strings.Format.{sprintf}
use goinception_plus.Model.{
  TableRef, RenamePair, ColumnSpec, AlterAction, AlterOperation, DdlAction, DdlSpec, Statement,
}
use goinception_plus.Audit.Types.{Error, failure, Result, ok, err, ◌>>=◌}
use goinception_plus.Metadata.Table.{default_schema}
use goinception_plus.Rollback.Literal.{quote_ident}

pub record RollbackRecord : Type 0 where
  pub schema : Text
  pub table : Text
  pub sql : Text

-- The calls on the connection to the target: a statement, which tells the affected rows if the
-- driver knows them, a statement with one argument, and SHOW CREATE TABLE of a quoted name.
pub record Target : Type 1 where
  pub World : Type 0
  pub exec : Text → World → Result (Option ℕ) × World
  pub exec_with : Text → Text → World → Option Error × World
  pub show_create : Text → World → Result Text × World

unfoldable pub qualified : Text → Text → Text
qualified schema table =
    if schema == [] then quote_ident table else quote_ident schema ++ (b'.' ∷ quote_ident table)

abbrev record_of : Text → Text → Text → RollbackRecord
record_of schema table sql = record { schema = schema; table = table; sql = sql }

abbrev on_table : DdlSpec → Text → RollbackRecord
on_table d sql = record_of d.schema d.table sql

rename_record : RenamePair → RollbackRecord
rename_record pair = record_of pair.to.schema pair.to.name (
    sprintf "RENAME TABLE %s TO %s;"
      (qualified pair.to.schema pair.to.name ∷ qualified pair.from.schema pair.from.name ∷ []))

drop_column_record : DdlSpec → ColumnSpec → RollbackRecord
drop_column_record d c = on_table d (
    sprintf "ALTER TABLE %s DROP COLUMN %s;" (qualified d.schema d.table ∷ quote_ident c.name ∷ []))

action_name : AlterAction → String
action_name AlterAction.add_columns = "ADD_COLUMNS"
action_name AlterAction.drop_column = "DROP_COLUMN"
action_name AlterAction.modify_column = "MODIFY_COLUMN"
action_name AlterAction.change_column = "CHANGE_COLUMN"
action_name AlterAction.rename_column = "RENAME_COLUMN"
action_name AlterAction.add_index = "ADD_INDEX"
action_name AlterAction.drop_index = "DROP_INDEX"
action_name AlterAction.drop_primary_key = "DROP_PRIMARY_KEY"
action_name AlterAction.rename_index = "RENAME_INDEX"
action_name AlterAction.rename_table = "RENAME_TABLE"
action_name AlterAction.table_options = "TABLE_OPTIONS"

-- The records that undo one operation. An ADD INDEX without its index, on which the code would
-- panic, is an error.
unfoldable pub undo_operation : DdlSpec → AlterOperation → Result (List RollbackRecord)
unfolding drop_column_record action_name
undo_operation d op = elim op.action [
  | AlterAction.add_columns ↦ ok (map (drop_column_record d) (reverse op.columns))
  | AlterAction.add_index ↦ elim op.index [
    | none ↦ err (failure (txt "missing index projection"))
    | some i ↦ ok (
        on_table d (
          sprintf "ALTER TABLE %s DROP INDEX %s;"
            (qualified d.schema d.table ∷ quote_ident i.name ∷ []))
        ∷ [])
  ]
  | AlterAction.rename_column ↦ ok (
      on_table d (
        sprintf "ALTER TABLE %s RENAME COLUMN %s TO %s;"
          (qualified d.schema d.table ∷ quote_ident op.new_name ∷ quote_ident op.name ∷ []))
      ∷ [])
  | other ↦ err (
      failure (
        sprintf "backup does not support lossless rollback for ALTER action %s"
          (txt (action_name other) ∷ [])))
]

-- The operations are undone from the last to the first.
unfoldable pub undo_operations : DdlSpec → List AlterOperation → Result (List RollbackRecord)
unfolding undo_operation
undo_operations d [] = ok []
undo_operations d (op ∷ rest) =
    undo_operation d op >>= λ here. undo_operations d rest >>= λ more. ok (here ++ more)

unfoldable pub not_implemented : String → Error
not_implemented action =
    failure (sprintf "backup rollback is not implemented for %s" (txt action ∷ []))

module _ (target : Target) where
  open target use {World, show_create}

  unfoldable pub show_creates :
      DdlSpec → List TableRef → World → Result (List RollbackRecord) × World
  show_creates d [] w = (ok [], w)
  show_creates d (t ∷ rest) w =
      let schema = default_schema t.schema d.schema in
      let (created, w') = show_create (qualified schema t.name) w in
      let (others, w'') = show_creates d rest w' in
      elim created [
        | err e ↦ (err e, w')
        | ok create ↦
            (others >>= λ more. ok (record_of schema t.name (create ++ txt ";") ∷ more), w'')
      ]

  -- The rollback of a DDL statement, prepared before it is executed. A CREATE INDEX without its
  -- index, on which the code would panic, is an error.
  unfoldable pub prepare_ddl_spec : DdlSpec → World → Result (List RollbackRecord) × World
  unfolding rename_record undo_operations show_creates
  prepare_ddl_spec d w = elim d.action [
    | DdlAction.create_database ↦ (
      ok (
          record_of d.schema (txt "database")
            (sprintf "DROP DATABASE %s;" (quote_ident d.schema ∷ []))
          ∷ []),
      w,
    )
    | DdlAction.drop_database ↦
        (err (failure (txt "DROP DATABASE cannot be recovered losslessly from ROW binlog")), w)
    | DdlAction.create_table ↦
        (ok (on_table d (sprintf "DROP TABLE %s;" (qualified d.schema d.table ∷ [])) ∷ []), w)
    | DdlAction.drop_table ↦ show_creates d d.tables w
    | DdlAction.rename_table ↦ (ok (map rename_record d.rename_pairs), w)
    | DdlAction.create_index ↦ elim d.indexes [
      | [] ↦ (err (failure (txt "missing index")), w)
      | i ∷ rest ↦ (
        ok (
            on_table d (
              sprintf "DROP INDEX %s ON %s;" (quote_ident i.name ∷ qualified d.schema d.table ∷ []))
            ∷ []),
        w,
      )
    ]
    | DdlAction.drop_index ↦ (
      err (
          failure
            (txt "DROP INDEX rollback requires full index definition and is not yet supported")),
      w,
    )
    | DdlAction.alter_table ↦ (undo_operations d (reverse d.alter_operations), w)
    | DdlAction.truncate_table ↦
        (err (failure (txt "TRUNCATE cannot be recovered from ROW binlog")), w)
    | DdlAction.alter_database ↦ (err (not_implemented "ALTER_DATABASE"), w)
    | DdlAction.create_view ↦ (err (not_implemented "CREATE_VIEW"), w)
    | DdlAction.alter_view ↦ (err (not_implemented "ALTER_VIEW"), w)
    | DdlAction.drop_view ↦ (err (not_implemented "DROP_VIEW"), w)
  ]

  unfoldable pub prepare_ddl_rollback : Statement → World → Result (List RollbackRecord) × World
  unfolding prepare_ddl_spec
  prepare_ddl_rollback s w = elim s.ddl [ none ↦ (ok [], w) | some d ↦ prepare_ddl_spec d w ]
