-- ===== src/Protocol/Results.antt =====
-- internal/protocol/adapter.go: the rows of the legacy result set. The verb `%.2f` of the seconds of a
-- duration is a parameter, since it prints a floating point number.
use goinception_plus.Prelude.{
  ℕ, ◌-◌, ◌||◌, Option, none, some, List, ◌++◌, map, if◌then◌else◌, ◌==◌, text_eq, nat_eq, is_empty,
}
use goinception_plus.Strings.{Text, txt}
use goinception_plus.Model.{Severity, AuditRecord}
use goinception_plus.Execution.{padded8}

-- A missing value is NULL.
pub record ResultRow : Type 0 where
  pub order_id : ℕ
  pub stage : Text
  pub error_level : ℕ
  pub stage_status : Text
  pub error_message : Option Text
  pub sql : Text
  pub affected_rows : ℕ
  pub sequence : Text
  pub backup_dbname : Option Text
  pub execute_time : Text
  pub sqlsha1 : Option Text
  pub backup_time : Text

unfoldable pub legacy_stage : Text → Text
legacy_stage v = if v == txt "BACKUP" || v == txt "EXECUTED" then v else txt "CHECKED"

unfoldable pub legacy_status : Text → Text
legacy_status v =
    if v == txt "ExecuteSuccessfully"
    then txt "Execute Successfully"
    else if v == txt "ExecuteFailed"
    then txt "Execute failed"
    else if v == txt "BackupSuccessfully"
    then txt "Execute Successfully,Backup successfully"
    else if v == txt "BackupFailed"
    then txt "Execute Successfully,Backup failed"
    else txt "Audit completed"

abbrev if_any : Text → Option Text
if_any v = if is_empty v then none else some v

abbrev severity_value : Severity → ℕ
severity_value Severity.no_severity = 0
severity_value Severity.warning = 1
severity_value Severity.error = 2

module _ (two_decimals : ℕ → Text) where
  unfoldable pub duration : ℕ → Text
  duration v = if v == 0 then txt "0" else two_decimals v

  unfoldable pub result_row : AuditRecord → ResultRow
  unfolding legacy_stage legacy_status duration
  result_row r = record {
    order_id = r.sequence;
    stage = legacy_stage r.stage;
    error_level = severity_value r.error_level;
    stage_status = legacy_status r.stage_status;
    error_message = if_any r.error_message;
    sql = r.sql;
    affected_rows = r.affected_rows;
    sequence =
        if is_empty r.operation_id
        then txt "0_0_" ++ (if r.sequence == 0 then txt "-0000001" else padded8 (r.sequence - 1))
        else r.operation_id;
    backup_dbname = if_any r.backup_database;
    execute_time = duration r.execute_time;
    sqlsha1 = if_any r.sql_sha1;
    backup_time = duration r.backup_time;
  }

  unfoldable pub legacy_result : List AuditRecord → List ResultRow
  unfolding result_row
  legacy_result records = map result_row records
