-- ===== src/Metadata/Snapshot/Laws/Spec.antt =====
-- The specifications of `PrepareDDL` and `ApplyDDL` of internal/metadata/snapshot.go, over tables by
-- name.
use goinception_plus.Prelude.{
  Bool, true, not, ◌&&◌, ◌||◌, Option, none, some, List, [], ◌∷◌, if◌then◌else◌, ◌==◌, text_eq,
}
use goinception_plus.Strings.{Text, txt}
use goinception_plus.Model.{TableRef, RenamePair, DdlAction, DdlSpec}
use goinception_plus.Audit.Types.{
  Table, Error, failure, metadata_not_found, is_not_found, Result, ok, err,
}
use goinception_plus.Metadata.Table.{default_schema}
use goinception_plus.Metadata.Alter.{table_from_spec, apply_table_ddl}
use goinception_plus.Metadata.Cache.{table_key}
use goinception_plus.Metadata.Snapshot.{
  columns_from_table, indexes_from_table, derive_flags, affected_tables, exists_error, lookup_error,
  view_table,
}

abbrev pub Tables : Type 0
Tables = Text → Text → Result Table

unfoldable pub copy_reference_spec : DdlSpec → Tables → Option Error × DdlSpec
copy_reference_spec d V = elim d.reference [
  | none ↦ (some (failure (txt "missing reference")), d)
  | some r ↦
      let r' = record r { schema = default_schema r.schema d.schema } in
      let d' = record d { reference = some r' } in
      elim (V r'.schema r'.name) [
        | err e ↦ (some (lookup_error "source table %s.%s: " r'.schema r'.name e), d')
        | ok t ↦ (
          none,
          derive_flags
              (record d' { columns = columns_from_table t; indexes = indexes_from_table t }) t,
        )
      ]
]

unfoldable pub prepare_create_spec : DdlSpec → Tables → Option Error × DdlSpec
unfolding copy_reference_spec
prepare_create_spec d V = elim (V d.schema d.table) [
  | ok t ↦
      if d.if_not_exists
      then (none, record d { noop = true })
      else (some (exists_error "table %s.%s already exists" d.schema d.table), d)
  | err e ↦
      if is_not_found e
      then if d.create_like then copy_reference_spec d V else (none, d)
      else (some e, d)
]

unfoldable pub check_targets_spec : Text → List RenamePair → Tables → Option Error
check_targets_spec schema [] V = none
check_targets_spec schema (pair ∷ rest) V =
    let to_schema = default_schema pair.to.schema (default_schema pair.from.schema schema) in
    let others = check_targets_spec schema rest V in
    elim (V to_schema pair.to.name) [
      | ok t ↦ some (exists_error "rename target %s.%s already exists" to_schema pair.to.name)
      | err e ↦ if is_not_found e then others else some e
    ]

unfoldable pub check_affected_spec : DdlSpec → List TableRef → Tables → Option Error
check_affected_spec d [] V = none
check_affected_spec d (r ∷ rest) V =
    let schema = default_schema r.schema d.schema in
    let others = check_affected_spec d rest V in
    elim (V schema r.name) [
      | ok t ↦ others
      | err e ↦
          if d.if_exists && is_not_found e
          then others
          else some (lookup_error "table %s.%s: " schema r.name e)
    ]

unfoldable pub prepare_spec : DdlSpec → Tables → Option Error × DdlSpec
unfolding prepare_create_spec check_targets_spec check_affected_spec
prepare_spec d V =
    let affected : Option Error × DdlSpec = (check_affected_spec d (affected_tables d) V, d) in
    if d.fully_projected
    then elim d.action [
      | DdlAction.create_table ↦ prepare_create_spec d V
      | DdlAction.create_view ↦ prepare_create_spec d V
      | DdlAction.rename_table ↦ elim (check_targets_spec d.schema d.rename_pairs V) [
        | some x ↦ (some x, d)
        | none ↦ affected
      ]
      | _ ↦ affected
    ]
    else (none, d)

module _ (lower_case : Bool) where
  unfoldable pub update : Text → Text → Result Table → Tables → Tables
  update a b entry V s t =
      if table_key lower_case a b == table_key lower_case s t then entry else V s t

  unfoldable pub move : Text → Text → Table → Tables → Tables
  unfolding update
  move a b x V = update x.schema x.name (ok x) (update a b (err metadata_not_found) V)

  unfoldable pub delete_spec : Text → List TableRef → Tables → Tables
  unfolding update
  delete_spec schema [] V = V
  delete_spec schema (r ∷ rest) V =
      delete_spec schema rest
        (update (default_schema r.schema schema) r.name (err metadata_not_found) V)

  unfoldable pub rename_spec : Text → List RenamePair → Tables → Option Error × Tables
  unfolding move
  rename_spec schema [] V = (none, V)
  rename_spec schema (pair ∷ rest) V =
      let from_schema = default_schema pair.from.schema schema in
      let to_schema = default_schema pair.to.schema from_schema in
      elim (V from_schema pair.from.name) [
        | err e ↦ (some e, V)
        | ok t ↦ rename_spec schema rest (
            move from_schema pair.from.name (record t { schema = to_schema; name = pair.to.name })
              V)
      ]

  unfoldable pub alter_spec : DdlSpec → Tables → Option Error × Tables
  unfolding move update
  alter_spec d V = elim (V d.schema d.table) [
    | err e ↦ (some e, V)
    | ok t ↦ elim (apply_table_ddl d t) [
      | err e ↦ (some e, V)
      | ok t' ↦ (
        none,
        if t.schema == t'.schema && t.name == t'.name
            then update t'.schema t'.name (ok t') V
            else move t.schema t.name t' V,
      )
    ]
  ]

  unfoldable pub apply_spec : DdlSpec → Tables → Option Error × Tables
  unfolding delete_spec rename_spec alter_spec update
  apply_spec d V = if not d.fully_projected || d.noop then (none, V) else elim d.action [
    | DdlAction.create_table ↦ (none, update d.schema d.table (ok (table_from_spec d)) V)
    | DdlAction.create_view ↦ (none, update d.schema d.table (ok (view_table d)) V)
    | DdlAction.drop_table ↦ (none, delete_spec d.schema d.tables V)
    | DdlAction.drop_view ↦ (none, delete_spec d.schema d.tables V)
    | DdlAction.rename_table ↦ rename_spec d.schema d.rename_pairs V
    | DdlAction.create_index ↦ alter_spec d V
    | DdlAction.drop_index ↦ alter_spec d V
    | DdlAction.alter_table ↦ alter_spec d V
    | _ ↦ (none, V)
  ]
