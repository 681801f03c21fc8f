-- ===== src/Metadata/Alter/Invariant.antt =====
-- The well-formedness of a table of internal/metadata/snapshot.go.
pub mod Columns
pub mod Operations
pub mod Indexes
pub mod Statements
pub mod Duplicates
use goinception_plus.Prelude.{List, [], ◌∷◌, ◌⊎◌, ◌≡◌, All, Option, none, some}
use goinception_plus.Strings.{Text, to_lower}
use goinception_plus.Model.{ColumnSpec, IndexSpec, AlterAction, AlterOperation}
use goinception_plus.Audit.Types.{Column, Index, Table}
use goinception_plus.Metadata.Names.{IsFresh, IsDistinct}
use goinception_plus.Metadata.Presence.{HasName}
use goinception_plus.Metadata.Table.{column_name, index_name}

-- The columns of an index are columns of the table.
abbrev pub RefersTo : List Column → Index → Type 0
RefersTo columns i = All (λ n. HasName column_name n columns) i.columns

pub record IsWellFormed (t : Table) : Type 0 where
  pub columns_distinct : IsDistinct column_name t.columns
  pub indexes_distinct : IsDistinct index_name t.indexes
  pub references : All (RefersTo t.columns) t.indexes

-- The new name of a CHANGE COLUMN is the old one or free.
abbrev pub ChangeIsSound : Table → Text → List ColumnSpec → Type 0
ChangeIsSound t name (spec ∷ []) =
    (to_lower spec.name ≡ to_lower name) ⊎ IsFresh column_name spec.name t.columns
ChangeIsSound t name _ = Unit

-- The columns of a new index exist.
abbrev pub IndexIsSound : Table → Option IndexSpec → Type 0
IndexIsSound t none = Unit
IndexIsSound t (some i) = All (λ n. HasName column_name n t.columns) i.columns

-- What `applyTableDDL` takes on trust of an operation.
abbrev pub IsSound : Table → AlterOperation → Type 0
IsSound t op = elim op.action [
  | AlterAction.change_column ↦ ChangeIsSound t op.name op.columns
  | AlterAction.add_index ↦ IndexIsSound t op.index
  | _ ↦ Unit
]
