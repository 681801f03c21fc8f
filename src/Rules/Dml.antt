-- ===== src/Rules/Dml.antt =====
-- internal/audit/rules/dml.go: the checks of an INSERT, UPDATE, DELETE or SELECT.
pub mod Conversion
pub mod Laws
use goinception_plus.Prelude.{
  ℕ, zero, suc, Bool, true, false, not, ◌&&◌, ◌||◌, Option, none, some, List, [], ◌∷◌, ◌++◌, any,
  is_empty, ltb, if◌then◌else◌, ◌==◌, nat_eq, text_eq,
}
use goinception_plus.Strings.{Text, txt, to_lower, trim_space, has_prefix}
use goinception_plus.Strings.Dict.{insert}
use goinception_plus.Strings.Fold.{equal_fold}
use goinception_plus.Strings.Format.{sprintf, itoa}
use goinception_plus.Model.{
  Severity, AuditIssue, TableRef, ColumnRef, DmlSpec, StatementKind, Statement, ComparisonSpec,
}
use goinception_plus.Audit.Types.{Column, Table, Error, error_text, is_not_found, Result, ok, err}
use goinception_plus.Audit.Codes.{
  rule_target_version, rule_dml_require_where, rule_dml_max_affected, rule_dml_max_insert,
  rule_dml_limit, rule_dml_order_by, rule_dml_join_no_on, rule_dml_select_star,
  rule_dml_insert_field, rule_dml_order_by_rand, rule_dml_wrong_and, rule_no_database,
  rule_dml_table_metadata, rule_dml_require_key, rule_dml_implicit_conversion,
}
use goinception_plus.Audit.Policy.{level, legacy_bool}
use goinception_plus.Audit.Engine.{Context}
use goinception_plus.Metadata.Cache.{MetadataProvider, Provider, table_of}
use goinception_plus.Rules.ReliableKey.{has_reliable_key}
use Conversion.{resolve_comparison_column, implicit_conversion}

unfoldable pub has_column : Table → Text → Bool
unfolding any
has_column t name = any (λ (c : Column). equal_fold c.name name) t.columns

is_kind : StatementKind → Bool × Bool × Bool
is_kind StatementKind.insert = (true, false, false)
is_kind StatementKind.update = (false, true, false)
is_kind StatementKind.delete = (false, true, false)
is_kind StatementKind.select = (false, false, true)
is_kind kind = (false, false, false)

unfoldable pub is_insert : Statement → Bool
unfolding is_kind
is_insert s = (is_kind s.kind).0

-- An UPDATE or a DELETE.
unfoldable pub is_change : Statement → Bool
unfolding is_kind
is_change s = (is_kind s.kind).1

unfoldable pub is_select : Statement → Bool
unfolding is_kind
is_select s = (is_kind s.kind).2

unfoldable pub level_issue : Statement → Text → Severity → Text → AuditIssue
level_issue s id level message = record {
  rule_id = id;
  legacy_key = [];
  code = 0;
  level = level;
  message = message;
  sequence = s.sequence;
}

unfoldable pub error_issue : Statement → Text → Text → AuditIssue
unfolding level_issue
error_issue s id message = level_issue s id Severity.error message

unfoldable pub issue_if : Bool → AuditIssue → List AuditIssue
issue_if wrong i = if wrong then i ∷ [] else []

abbrev absent_column : Statement → TableRef → Text → AuditIssue
absent_column s r name =
    error_issue s rule_dml_table_metadata
      (sprintf "column %s does not exist in %s.%s" (name ∷ r.schema ∷ r.name ∷ []))

module _ (source : MetadataProvider) (a : Context source) (s : Statement) (m : DmlSpec) where
  abbrev at_level : Text → Text → AuditIssue
  at_level id message = level_issue s id (level a.policy id) message

  -- The checks of the statement by itself.
  unfoldable pub shape_issues : List AuditIssue
  shape_issues =
      issue_if (m.uses_cte && has_prefix (trim_space a.server.version) (txt "5.7"))
        (error_issue s rule_target_version (txt "common table expressions require MySQL 8.0"))
      ++ (issue_if (is_change s && a.policy.require_dml_where && not m.has_where) (
            at_level rule_dml_require_where
              (txt "UPDATE and DELETE must contain a WHERE condition"))
          ++ (issue_if
                (ltb 0 a.policy.max_affected_rows
                  && ltb a.policy.max_affected_rows m.estimated_rows)
                (at_level rule_dml_max_affected (
                  sprintf "estimated affected rows %d exceed limit %d"
                    (itoa m.estimated_rows ∷ itoa a.policy.max_affected_rows ∷ [])))
              ++ (issue_if
                    (is_insert s
                      && ltb 0 a.policy.max_insert_rows
                      && ltb a.policy.max_insert_rows m.value_rows)
                    (at_level rule_dml_max_insert (
                      sprintf "INSERT rows %d exceed limit %d"
                        (itoa m.value_rows ∷ itoa a.policy.max_insert_rows ∷ [])))
                  ++ clause_issues)))
    where
      clause_issues : List AuditIssue
      clause_issues =
          issue_if (is_change s && a.policy.check_dml_limit && m.has_limit)
            (at_level rule_dml_limit (txt "UPDATE and DELETE must not contain LIMIT"))
          ++ (issue_if (is_change s && a.policy.check_dml_order_by && m.has_order_by)
                (at_level rule_dml_order_by (txt "UPDATE and DELETE must not contain ORDER BY"))
              ++ (issue_if m.has_join_without_on
                    (at_level rule_dml_join_no_on (txt "JOIN must contain an ON condition"))
                  ++ (issue_if (is_select s && not a.policy.allow_select_star && m.has_select_star)
                        (at_level rule_dml_select_star (txt "SELECT * is disabled"))
                      ++ (issue_if
                            (is_insert s && a.policy.check_insert_field && is_empty m.columns)
                            (at_level rule_dml_insert_field
                              (txt "INSERT requires an explicit column list"))
                          ++ (issue_if m.order_by_rand (
                                at_level rule_dml_order_by_rand (txt "ORDER BY RAND() is disabled"))
                              ++ issue_if m.wrong_and_expr (
                                  at_level rule_dml_wrong_and (
                                    txt
                                      "suspicious AND expression in assignment or predicate")))))))

  unfoldable pub column_issues : TableRef → Table → List Text → List AuditIssue
  column_issues r t [] = []
  column_issues r t (name ∷ rest) =
      issue_if (not (has_column t name)) (absent_column s r name) ++ column_issues r t rest

  -- The assignment is to another table.
  is_elsewhere : TableRef → ColumnRef → Bool
  is_elsewhere r c =
      (not (c.table == []) && not (equal_fold c.table r.name) && not (equal_fold c.table r.alias))
      || (not (c.schema == []) && not (equal_fold c.schema r.schema))

  unfoldable pub assignment_issues : TableRef → Table → List ColumnRef → List AuditIssue
  unfolding is_elsewhere
  assignment_issues r t [] = []
  assignment_issues r t (c ∷ rest) =
      issue_if (not (is_elsewhere r c) && not (has_column t c.name)) (absent_column s r c.name)
      ++ assignment_issues r t rest

  -- The rows of the table are restored by their key.
  unfoldable pub needs_key : ℕ → Bool
  needs_key pos = is_change s || (is_insert s && pos == 0)

  -- The checks of a table that was loaded, at its position.
  unfoldable pub table_issues : ℕ → TableRef → Table → List AuditIssue
  unfolding column_issues assignment_issues needs_key
  table_issues pos r t =
      (if pos == 0 && is_empty m.assignments then column_issues r t m.columns else [])
      ++ (assignment_issues r t m.assignments
          ++ issue_if
              (a.request.backup
                && a.policy.require_backup_key
                && needs_key pos
                && not (has_reliable_key t))
              (error_issue s rule_dml_require_key (
                sprintf
                  "table %s.%s has no reliable primary or non-null unique key for ROW binlog rollback"
                  (r.schema ∷ r.name ∷ []))))

  load_issue : TableRef → Error → AuditIssue
  load_issue r e = error_issue s rule_dml_table_metadata (
      if is_not_found e
      then sprintf "table %s.%s does not exist" (r.schema ∷ r.name ∷ [])
      else sprintf "load table %s.%s: %s" (r.schema ∷ r.name ∷ error_text e ∷ []))

  -- A table under its name, and under its alias if it has one.
  record_table : TableRef → Table → List (Text × Table) → List (Text × Table)
  record_table r t tables =
      let named = insert (to_lower r.name) t tables in
      if r.alias == [] then named else insert (to_lower r.alias) t named

  -- What the loop over the tables returns: the issues, the loaded tables by name, the cache.
  abbrev pub Scan : Type 0
  Scan = List AuditIssue × List (Text × Table) × Provider source

  unfoldable pub scan_tables : ℕ → List TableRef → List (Text × Table) → Provider source → Scan
  unfolding table_issues load_issue record_table
  scan_tables pos [] tables p = ([], tables, p)
  scan_tables pos (r ∷ rest) tables p =
      let (loaded, p') = table_of source r.schema r.name p in
      let unnamed = scan_tables (suc pos) rest tables p in
      let absent = scan_tables (suc pos) rest tables p' in
      if r.schema == []
      then (
        error_issue s rule_no_database (txt "No database selected.") ∷ unnamed.0,
        unnamed.1,
        unnamed.2,
      )
      else elim loaded [
        | err e ↦ (load_issue r e ∷ absent.0, absent.1, absent.2)
        | ok t ↦
            let found = scan_tables (suc pos) rest (record_table r t tables) p' in
            (table_issues pos r t ++ found.0, found.1, found.2)
      ]

  comparison_issues : List (Text × Table) → List ComparisonSpec → List AuditIssue
  comparison_issues tables [] = []
  comparison_issues tables (x ∷ rest) =
      let others = comparison_issues tables rest in
      elim (resolve_comparison_column x.column m.tables tables) [
        | none ↦ others
        | some (c, table) ↦
            issue_if (implicit_conversion c.column_type x.literal_kind) (
              at_level rule_dml_implicit_conversion (
                sprintf "implicit type conversion is not allowed for %s.%s (%s)"
                  (table ∷ c.name ∷ c.column_type ∷ [])))
            ++ others
      ]

  unfoldable pub dml_issues : List AuditIssue × Context source
  unfolding shape_issues scan_tables comparison_issues
  dml_issues =
      let (found, tables, p) = scan_tables 0 m.tables [] a.metadata in
      let compared =
        if legacy_bool a.policy (txt "check_implicit_type_conversion")
        then comparison_issues tables m.comparisons
        else [] in
      (shape_issues ++ (found ++ compared), record a { metadata = p })

-- `DMLSafety`
unfoldable pub dml_safety :
    (source : MetadataProvider) → Context source → Statement → List AuditIssue × Context source
unfolding dml_issues
dml_safety source a s = elim s.dml [ none ↦ ([], a) | some m ↦ dml_issues source a s m ]
