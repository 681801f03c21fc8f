-- ===== src/Rules/CreateTable.antt =====
-- internal/audit/rules/core.go and internal/audit/rules/ddl_create_table.go.
use goinception_plus.Prelude.{
  Bool, true, false, not, ◌||◌, none, some, List, [], ◌∷◌, map, keep, is_empty, length, leb,
  if◌then◌else◌, ◌==◌, nat_eq,
}
use goinception_plus.Strings.{Text, txt, join}
use goinception_plus.Strings.Format.{sprintf, itoa}
use goinception_plus.Model.{Severity, AuditIssue, ColumnSpec, DdlSpec, StatementKind, Statement}
use goinception_plus.Audit.Codes.{
  rule_unknown_statement, rule_table_must_have_pk, rule_table_must_comment,
  rule_column_must_comment, rule_max_column_count,
}
use goinception_plus.Audit.Policy.{level}
use goinception_plus.Audit.Engine.{Context}
use goinception_plus.Metadata.Cache.{MetadataProvider}

-- `KnownStatement`
unfoldable pub known_statement : Statement → List AuditIssue
known_statement s =
    if s.supported
    then []
    else record {
      rule_id = rule_unknown_statement;
      legacy_key = [];
      code = 0;
      level = Severity.error;
      message =
          txt "the statement is not supported by the current goInception Plus audit projection";
      sequence = s.sequence;
    }
      ∷ []

is_create_table : Statement → Bool
is_create_table s = elim s.kind [ StatementKind.create_table ↦ true | _ ↦ false ]

module _ (source : MetadataProvider) where
  unfoldable pub issue : Context source → Statement → Text → Text → AuditIssue
  issue c s rule_id message = record {
    rule_id = rule_id;
    legacy_key = [];
    code = 0;
    level = level c.policy rule_id;
    message = message;
    sequence = s.sequence;
  }

  -- A check of the projection of a CREATE TABLE.
  on_create_table : Statement → (DdlSpec → List AuditIssue) → List AuditIssue
  unfolding is_create_table
  on_create_table s body = elim s.ddl [
    | none ↦ []
    | some d ↦ let found = body d in if is_create_table s then found else []
  ]

  unfoldable pub require_primary_key : Context source → Statement → List AuditIssue
  unfolding on_create_table issue
  require_primary_key c s = on_create_table s (λ d.
      if not c.policy.check_primary_key || d.has_primary_key
      then []
      else issue c s rule_table_must_have_pk
          (sprintf "Table '%s' must have a primary key." (d.table ∷ []))
        ∷ [])

  unfoldable pub require_table_comment : Context source → Statement → List AuditIssue
  unfolding on_create_table issue
  require_table_comment c s = on_create_table s (λ d.
      if not c.policy.check_table_comment || d.has_comment
      then []
      else issue c s rule_table_must_comment
          (sprintf "Table '%s' must have a comment." (d.table ∷ []))
        ∷ [])

  unfoldable pub require_column_comments : Context source → Statement → List AuditIssue
  unfolding on_create_table issue keep
  require_column_comments c s = on_create_table s (λ d.
      let missing = keep (λ (x : ColumnSpec). not x.has_comment) d.columns in
      if not c.policy.check_column_comment || is_empty missing
      then []
      else issue c s rule_column_must_comment (
          sprintf "Columns must have comments: %s."
            (join (map (λ (x : ColumnSpec). x.name) missing) (txt ", ") ∷ []))
        ∷ [])

  unfoldable pub limit_column_count : Context source → Statement → List AuditIssue
  unfolding on_create_table issue
  limit_column_count c s = on_create_table s (λ d.
      let limit = c.policy.max_column_count in
      let count = length d.columns in
      if limit == 0 || leb count limit
      then []
      else issue c s rule_max_column_count (
          sprintf "Table '%s' has too many columns (limit %d, current %d)."
            (d.table ∷ itoa limit ∷ itoa count ∷ []))
        ∷ [])
