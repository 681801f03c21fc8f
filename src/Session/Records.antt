-- ===== src/Session/Records.antt =====
-- internal/session/session.go: `makeRecord`, `failureRecord`, `newIssue` and the records of failures.
pub mod Levels
use goinception_plus.Prelude.{
  ℕ, suc, Bool, true, false, Option, none, some, List, [], ◌∷◌, ◌++◌, map, ltb, if◌then◌else◌,
}
use goinception_plus.Strings.{Text, txt, join, trim_space}
use goinception_plus.Model.{Severity, AuditIssue, AuditRecord, Statement}
use goinception_plus.Audit.Catalog.{rule_by_code}

-- The level as its number.
unfoldable pub rank : Severity → ℕ
rank Severity.no_severity = 0
rank Severity.warning = 1
rank Severity.error = 2

unfoldable pub new_issue : Text → ℕ → Text → AuditIssue
new_issue code sequence message = record {
  rule_id = code;
  legacy_key = elim (rule_by_code code) [ none ↦ [] | some definition ↦ definition.legacy_key ];
  code = 0;
  level = Severity.error;
  message = message;
  sequence = sequence;
}

-- The level of the record after the loop over the issues.
unfoldable pub highest_level : Severity → List AuditIssue → Severity
unfolding rank
highest_level current [] = current
highest_level current (issue ∷ rest) =
    highest_level (if ltb (rank current) (rank issue.level) then issue.level else current) rest

unfoldable pub check_status : Severity → Text
check_status Severity.no_severity = txt "Checked"
check_status Severity.warning = txt "CheckedWithWarnings"
check_status Severity.error = txt "CheckFailed"

unfoldable pub make_record : Statement → List AuditIssue → AuditRecord
unfolding highest_level check_status
make_record s issues =
    let reached = highest_level Severity.no_severity issues in
    record {
      sequence = s.sequence;
      stage = txt "CHECKED";
      error_level = reached;
      stage_status = check_status reached;
      error_message = join (map (λ (i : AuditIssue). i.message) issues) (10 ∷ []);
      sql = s.original;
      affected_rows = elim s.dml [ none ↦ 0 | some m ↦ m.estimated_rows ];
      backup_database = [];
      execute_time = 0;
      sql_sha1 = [];
      backup_completed = false;
      backup_time = 0;
      operation_id = [];
      issues = issues;
    }

unfoldable pub failure_record : ℕ → Text → Text → Text → AuditRecord
unfolding new_issue
failure_record sequence sql code message = record {
  sequence = sequence;
  stage = txt "CHECKED";
  error_level = Severity.error;
  stage_status = txt "CheckFailed";
  error_message = message;
  sql = sql;
  affected_rows = 0;
  backup_database = [];
  execute_time = 0;
  sql_sha1 = [];
  backup_completed = false;
  backup_time = 0;
  operation_id = [];
  issues = new_issue code sequence message ∷ [];
}

-- A failure of the given stage on a record.
unfoldable pub append_failure : Text → Text → AuditRecord → Text → Text → AuditRecord
unfolding new_issue
append_failure stage status r rule_id message = record r {
  issues = r.issues ++ (new_issue rule_id r.sequence message ∷ []);
  error_level = Severity.error;
  error_message = trim_space (r.error_message ++ (10 ∷ message));
  stage = stage;
  stage_status = status;
}

unfoldable pub append_backup_error : AuditRecord → Text → Text → AuditRecord
unfolding append_failure
append_backup_error = append_failure (txt "BACKUP") (txt "BackupFailed")

unfoldable pub append_execution_error : AuditRecord → Text → Text → AuditRecord
unfolding append_failure
append_execution_error = append_failure (txt "EXECUTED") (txt "ExecuteFailed")
