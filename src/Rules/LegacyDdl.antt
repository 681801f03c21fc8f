-- ===== src/Rules/LegacyDdl.antt =====
-- internal/audit/rules/legacy_ddl.go: the rules of names, options, columns, types and indexes of DDL
-- statements, which the legacy settings switch on.
pub mod Temporal
pub mod Types
pub mod Columns
pub mod Indexes
pub mod Laws
pub mod Kept
pub mod Redundancy
pub mod AlterOnce
use goinception_plus.Prelude.{
  ℕ, suc, Bool, true, false, not, ◌&&◌, ◌||◌, Option, none, some, List, [], ◌∷◌, ◌++◌, map,
  if◌then◌else◌, ◌==◌, text_eq, is_empty, ltb,
}
use goinception_plus.Strings.{Text, txt, to_lower}
use goinception_plus.Strings.Dict.{lookup, insert}
use goinception_plus.Strings.Fold.{equal_fold}
use goinception_plus.Strings.Format.{sprintf}
use goinception_plus.Model.{
  AuditIssue, TableRef, ColumnSpec, AlterAction, AlterOperation, DdlAction, DdlSpec, Statement,
}
use goinception_plus.Audit.Types.{Column, Table, Result, ok, err}
use goinception_plus.Audit.Codes.{
  rule_ddl_view, rule_ddl_table_charset_null, rule_ddl_cant_set_charset,
  rule_ddl_table_charset_allow, rule_ddl_cant_set_collation, rule_ddl_cant_set_engine,
  rule_ddl_engine, rule_ddl_auto_initial, rule_ddl_alter_once, rule_ddl_cant_change,
  rule_ddl_column_position, rule_ddl_column_type_change,
}
use goinception_plus.Audit.Policy.{Policy, legacy_bool, legacy_string}
use goinception_plus.Audit.Engine.{Context}
use goinception_plus.Metadata.Cache.{MetadataProvider, table_of}
use Types.{allowed_csv, unsafe_column_type_change}
use Columns.{Check, check_that, report, name_checks, columns_checks, timestamp_checks}
use Indexes.{indexes_checks, required_checks}

abbrev pub is_view_action : DdlAction → Bool
is_view_action action = elim action [
  | DdlAction.create_view ↦ true
  | DdlAction.alter_view ↦ true
  | DdlAction.drop_view ↦ true
  | _ ↦ false
]

abbrev is_database_action : DdlAction → Bool
is_database_action action = elim action [
  | DdlAction.create_database ↦ true
  | DdlAction.alter_database ↦ true
  | _ ↦ false
]

abbrev pub is_alter : DdlAction → Bool
is_alter action = elim action [ DdlAction.alter_table ↦ true | _ ↦ false ]

-- The statements for which the table is loaded.
abbrev pub reads_table : DdlAction → Bool
reads_table action = elim action [
  | DdlAction.create_index ↦ true
  | DdlAction.drop_index ↦ true
  | DdlAction.alter_table ↦ true
  | _ ↦ false
]

unfoldable pub table_name_checks : Policy → List TableRef → List Check
unfolding name_checks
table_name_checks p [] = []
table_name_checks p (r ∷ rest) = name_checks p (txt "table") r.name ++ table_name_checks p rest

unfoldable pub option_checks : Policy → DdlSpec → List Check
unfolding allowed_csv
option_checks p d =
    let sets_charset = legacy_bool p (txt "enable_set_charset") in
    let sets_engine = legacy_bool p (txt "enable_set_engine") in
    check_that (d.has_charset_option && not sets_charset)
      (if is_database_action d.action
        then rule_ddl_cant_set_charset
        else rule_ddl_table_charset_null)
      (txt "explicit charset is disabled")
    ∷ check_that
        (d.has_charset_option
          && sets_charset
          && not (allowed_csv d.character_set (legacy_string p (txt "support_charset"))))
        rule_ddl_table_charset_allow (sprintf "unsupported table charset %s" (d.character_set ∷ []))
    ∷ check_that (d.has_collation_option && not (legacy_bool p (txt "enable_set_collation")))
        rule_ddl_cant_set_collation (txt "explicit table collation is disabled")
    ∷ check_that (d.has_engine_option && not sets_engine) rule_ddl_cant_set_engine
        (txt "explicit table engine is disabled")
    ∷ check_that
        (d.has_engine_option
          && sets_engine
          && not (allowed_csv d.engine (legacy_string p (txt "support_engine"))))
        rule_ddl_engine (sprintf "unsupported table engine %s" (d.engine ∷ []))
    ∷ check_that (ltb 1 d.auto_increment_value) rule_ddl_auto_initial
        (txt "AUTO_INCREMENT initial value must be 1")
    ∷ []

unfoldable pub position_checks : List ColumnSpec → List Check
position_checks [] = []
position_checks (c ∷ rest) =
    check_that c.position_changed rule_ddl_column_position
      (sprintf "changing position of column %s is disabled" (c.name ∷ []))
    ∷ position_checks rest

-- The old columns of the name, one check each.
unfoldable pub change_checks : Text → Text → List Column → List Check
unfolding unsafe_column_type_change
change_checks old_name new_type [] = []
change_checks old_name new_type (old ∷ rest) =
    check_that (equal_fold old.name old_name && unsafe_column_type_change old.column_type new_type)
      rule_ddl_column_type_change
      (sprintf "column %s type changes from %s to %s" (old_name ∷ old.column_type ∷ new_type ∷ []))
    ∷ change_checks old_name new_type rest

abbrev alters_column : AlterAction → Bool
alters_column action = elim action [
  | AlterAction.modify_column ↦ true
  | AlterAction.change_column ↦ true
  | _ ↦ false
]

abbrev changes_column : AlterAction → Bool
changes_column action = elim action [ AlterAction.change_column ↦ true | _ ↦ false ]

unfoldable pub type_change_checks : Policy → Option Table → AlterOperation → List Check
unfolding change_checks
type_change_checks p none op = []
type_change_checks p (some t) op = elim op.columns [
  | c ∷ [] ↦
      if alters_column op.action && legacy_bool p (txt "check_column_type_change")
      then change_checks (if is_empty op.name then c.name else op.name) c.type t.columns
      else []
  | _ ↦ []
]

unfoldable pub operation_checks : Policy → Option Table → List AlterOperation → List Check
unfolding position_checks type_change_checks
operation_checks p existing [] = []
operation_checks p existing (op ∷ rest) =
    check_that (changes_column op.action) rule_ddl_cant_change (txt "CHANGE COLUMN is disabled")
    ∷ (position_checks op.columns
        ++ (type_change_checks p existing op ++ operation_checks p existing rest))

unfoldable pub operation_columns : List AlterOperation → List ColumnSpec
operation_columns [] = []
operation_columns (op ∷ rest) = op.columns ++ operation_columns rest

abbrev pub alter_key : DdlSpec → Text
alter_key d = to_lower (d.schema ++ (txt "." ++ d.table))

-- How often a table was altered.
abbrev pub times : Text → List (Text × ℕ) → ℕ
times key seen = elim (lookup key seen) [ none ↦ 0 | some n ↦ n ]

-- The checks of an ALTER TABLE, of which `seen` counts this statement.
unfoldable pub alter_checks : Policy → DdlSpec → Option Table → List (Text × ℕ) → List Check
unfolding operation_checks
alter_checks p d existing seen =
    if is_alter d.action
    then check_that (ltb 1 (times (alter_key d) seen)) rule_ddl_alter_once
        (sprintf "multiple ALTER statements for %s should be merged" (alter_key d ∷ []))
      ∷ operation_checks p existing d.alter_operations
    else []

-- The columns that the statement defines.
unfoldable pub defined_columns : DdlSpec → List ColumnSpec
unfolding operation_columns
defined_columns d =
    if is_alter d.action then d.columns ++ operation_columns d.alter_operations else d.columns

unfoldable pub ddl_checks : Policy → DdlSpec → Option Table → List (Text × ℕ) → List Check
unfolding table_name_checks option_checks alter_checks defined_columns columns_checks
    timestamp_checks indexes_checks required_checks name_checks
ddl_checks p d existing seen =
    name_checks p (txt "schema") d.schema
    ++ (name_checks p (txt "table") d.table
        ++ (table_name_checks p d.tables
            ++ (option_checks p d
                ++ (alter_checks p d existing seen
                    ++ (columns_checks p (defined_columns d)
                        ++ (timestamp_checks p (defined_columns d)
                            ++ (indexes_checks p d existing ++ required_checks p d)))))))

module _ (source : MetadataProvider) where
  -- The table of the statement, if it is read and can be loaded.
  unfoldable pub existing_table : Context source → DdlSpec → Option Table × Context source
  existing_table a d =
      let (loaded, metadata) = table_of source d.schema d.table a.metadata in
      if reads_table d.action
      then (elim loaded [ ok t ↦ some t | err e ↦ none ], record a { metadata = metadata })
      else (none, a)

  unfoldable pub count_alter : Context source → DdlSpec → Context source
  count_alter a d =
      let key = alter_key d in
      if is_alter d.action
      then record a {
        seen_alter_tables = insert key (suc (times key a.seen_alter_tables)) a.seen_alter_tables;
      }
      else a

  unfoldable pub legacy_ddl : Context source → Statement → List AuditIssue × Context source
  unfolding existing_table count_alter ddl_checks report
  legacy_ddl a s = elim s.ddl [
    | none ↦ ([], a)
    | some d ↦
        let (existing, a') = existing_table (count_alter a d) d in
        if is_view_action d.action
        then (report a.policy s (check_that true rule_ddl_view (txt "views are disabled") ∷ []), a)
        else (report a.policy s (ddl_checks a.policy d existing a'.seen_alter_tables), a')
  ]
