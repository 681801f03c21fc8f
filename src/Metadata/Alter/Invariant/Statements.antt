-- ===== src/Metadata/Alter/Invariant/Statements.antt =====
-- `applyTableDDL` of internal/metadata/snapshot.go on well-formed tables.
use goinception_plus.Prelude.{◌≡◌, refl, subst, arith, some, List, [], ◌∷◌, All}
use goinception_plus.Model.{AlterAction, AlterOperation, DdlAction, DdlSpec}
use goinception_plus.Audit.Types.{Table, Result, ok, err, ◌>>=◌}
use goinception_plus.Metadata.Alter.{apply_operation, apply_operations, apply_table_ddl}
use goinception_plus.Metadata.Alter.Invariant.{IsWellFormed, IsSound, IndexIsSound}
use goinception_plus.Metadata.Alter.Invariant.Operations.{
  Keeps, add_columns-IsWellFormed, drop_column-IsWellFormed, modify_column-IsWellFormed,
  change_column-IsWellFormed, rename_column-IsWellFormed,
}
use goinception_plus.Metadata.Alter.Invariant.Indexes.{
  add_index-IsWellFormed, drop_index_named-IsWellFormed, rename_index-IsWellFormed,
  rename_to-IsWellFormed, create_indexes-IsWellFormed, drop_indexes-IsWellFormed,
}

-- Every operation is sound at the table that it meets.
module _ (d : DdlSpec) where
  abbrev pub IsSoundRun : List AlterOperation → Table → Type 0
  IsSoundRun [] t = Unit
  IsSoundRun (op ∷ rest) t =
      IsSound t op × ((t' : Table) → apply_operation d op t ≡ ok t' → IsSoundRun rest t')

abbrev pub StatementIsSound : DdlSpec → Table → Type 0
StatementIsSound d t = elim d.action [
  | DdlAction.create_index ↦ All (λ i. IndexIsSound t (some i)) d.indexes
  | DdlAction.drop_index ↦ Unit
  | _ ↦ IsSoundRun d d.alter_operations t
]

apply_action-IsWellFormed :
    (d : DdlSpec) (action : AlterAction) (op : AlterOperation) (t : Table)
    → let op' = record op { action = action } in
      IsSound t op' → IsWellFormed t → Keeps (apply_operation d op' t)
unfolding apply_operation
apply_action-IsWellFormed d AlterAction.add_columns op t s w =
    add_columns-IsWellFormed op.columns t w
apply_action-IsWellFormed d AlterAction.drop_column op t s w = drop_column-IsWellFormed op.name t w
apply_action-IsWellFormed d AlterAction.modify_column op t s w =
    modify_column-IsWellFormed op.columns t w
apply_action-IsWellFormed d AlterAction.change_column op t s w =
    change_column-IsWellFormed op.name op.columns t s w
apply_action-IsWellFormed d AlterAction.rename_column op t s w =
    rename_column-IsWellFormed op.name op.new_name t w
apply_action-IsWellFormed d AlterAction.add_index op t s w = add_index-IsWellFormed op.index t s w
apply_action-IsWellFormed d AlterAction.drop_index op t s w =
    drop_index_named-IsWellFormed op.name t w
apply_action-IsWellFormed d AlterAction.drop_primary_key op t s w =
    drop_index_named-IsWellFormed op.name t w
apply_action-IsWellFormed d AlterAction.rename_index op t s w =
    rename_index-IsWellFormed op.name op.new_name t w
apply_action-IsWellFormed d AlterAction.rename_table op t s w =
    rename_to-IsWellFormed op.new_table t w
apply_action-IsWellFormed d AlterAction.table_options op t s w = record {
  columns_distinct = w.columns_distinct;
  indexes_distinct = w.indexes_distinct;
  references = w.references;
}

bind-Keeps :
    (r : Result Table) (f : Table → Result Table)
    → Keeps r
    → ((t : Table) → r ≡ ok t → IsWellFormed t → Keeps (f t))
    → Keeps (r >>= f)
bind-Keeps (ok t) f w k = k t refl w
bind-Keeps (err e) f w k = tt

apply_operations-IsWellFormed :
    (d : DdlSpec) (ops : List AlterOperation) (t : Table)
    → IsSoundRun d ops t
    → IsWellFormed t
    → Keeps (apply_operations d ops t)
unfolding apply_operations
apply_operations-IsWellFormed d [] t s w = w
apply_operations-IsWellFormed d (op ∷ rest) t s w =
    bind-Keeps (apply_operation d op t) (apply_operations d rest)
      (apply_action-IsWellFormed d op.action op t s.0 w)
      (λ t' e w'. apply_operations-IsWellFormed d rest t' (s.1 t' e) w')

apply_table_ddl-Keeps :
    (d : DdlSpec) (action : DdlAction) (t : Table)
    → StatementIsSound (record d { action = action }) t
    → IsWellFormed t
    → Keeps (apply_table_ddl (record d { action = action }) t)
unfolding apply_table_ddl
apply_table_ddl-Keeps d DdlAction.create_index t s w = create_indexes-IsWellFormed d.indexes t s w
apply_table_ddl-Keeps d DdlAction.drop_index t s w = drop_indexes-IsWellFormed d.indexes t w
apply_table_ddl-Keeps d other t s w =
    apply_operations-IsWellFormed (record d { action = other }) d.alter_operations t s w

Keeps-ok : (r : Result Table) (t : Table) → r ≡ ok t → Keeps r → IsWellFormed t
Keeps-ok (ok t') t e w = subst IsWellFormed (ground arith) w
Keeps-ok (err x) t e w = absurd (ground arith)

-- A CREATE INDEX, DROP INDEX or ALTER TABLE that `applyTableDDL` accepts turns a well-formed table
-- (column names distinct, index names distinct, index columns present, all up to case) into a
-- well-formed table, if new indexes name existing columns and the new name of each CHANGE COLUMN is
-- the old one or free at that point.
pub apply_table_ddl-IsWellFormed :
    (d : DdlSpec) (t t' : Table)
    → StatementIsSound d t
    → IsWellFormed t
    → apply_table_ddl d t ≡ ok t'
    → IsWellFormed t'
apply_table_ddl-IsWellFormed d t t' s w e =
    Keeps-ok (apply_table_ddl d t) t' e (apply_table_ddl-Keeps d d.action t s w)
