-- ===== src/Session/Merging.antt =====
-- internal/session/session.go: the gate of the execution and the merge of its results.
pub mod Laws
pub mod Merged
use goinception_plus.Prelude.{
  ℕ, ◌-◌, Bool, true, false, not, ◌&&◌, ◌||◌, Option, none, some, List, [], ◌∷◌, set, get_elem?,
  length, ltb, if◌then◌else◌, ◌==◌, nat_eq, text_eq,
}
use goinception_plus.Strings.{Text, txt}
use goinception_plus.Model.{
  Severity, AuditRecord, Statement, TargetOptions, RequestOptions, ExecutionResult,
}
use goinception_plus.Audit.Types.{Error, error_text}
use goinception_plus.Audit.Codes.{rule_execution_failed, rule_backup_failed}
use goinception_plus.Session.Records.{append_backup_error, append_execution_error}

-- The record keeps the request from being executed.
unfoldable pub blocks : Bool → AuditRecord → Bool
blocks ignore_warnings r = elim r.error_level [
  | Severity.error ↦ true
  | Severity.warning ↦ not ignore_warnings
  | Severity.no_severity ↦ false
]

unfoldable pub is_blocked : Bool → List AuditRecord → Bool
unfolding blocks
is_blocked ignore_warnings [] = false
is_blocked ignore_warnings (r ∷ rest) = blocks ignore_warnings r || is_blocked ignore_warnings rest

-- The record of an executed statement, before its status.
abbrev pub with_result : ExecutionResult → AuditRecord → AuditRecord
with_result x r = record r {
  execute_time = x.duration;
  affected_rows = x.affected_rows;
  backup_database = x.backup_database;
  backup_completed = x.backup_completed;
  backup_time = x.backup_duration;
  operation_id = x.sequence_id;
}

unfoldable pub failed_record : ExecutionResult → AuditRecord → AuditRecord
failed_record x r =
    let rule_id = if x.rule_id == [] then rule_execution_failed else x.rule_id in
    if rule_id == rule_backup_failed && x.executed
    then append_backup_error r rule_id x.error
    else append_execution_error r rule_id x.error

unfoldable pub done_record : ExecutionResult → AuditRecord → AuditRecord
done_record x r =
    if x.backup_completed
    then record r { stage = txt "BACKUP"; stage_status = txt "BackupSuccessfully" }
    else record r { stage = txt "EXECUTED"; stage_status = txt "ExecuteSuccessfully" }

unfoldable pub merge_record : ExecutionResult → AuditRecord → AuditRecord
unfolding failed_record done_record
merge_record x r =
    if x.error == [] then done_record x (with_result x r) else failed_record x (with_result x r)

-- A result on the record at the index of its statement.
unfoldable pub merge_at : ExecutionResult → List AuditRecord → List AuditRecord
unfolding merge_record
merge_at x records = elim (get_elem? records (x.sequence - 1)) [
  | none ↦ records
  | some r ↦ set records (x.sequence - 1) (merge_record x r)
]

-- The loop over the results; it ends at the first failure.
unfoldable pub merge_results : List ExecutionResult → List AuditRecord → List AuditRecord
unfolding merge_at
merge_results [] records = records
merge_results (x ∷ rest) records =
    let skipped = merge_results rest records in
    let merged = merge_at x records in
    let others = merge_results rest merged in
    if x.sequence == 0 || ltb (length records) x.sequence
    then skipped
    else if x.error == []
    then others
    else merged

-- An error on the first record. Without a record the code would panic.
unfoldable pub fail_first : Text → List AuditRecord → List AuditRecord
fail_first message [] = []
fail_first message (r ∷ rest) = append_execution_error r rule_execution_failed message ∷ rest

-- `execution.Factory` and the engine that it opens, over the state of the target.
pub record Executor : Type 1 where
  pub World : Type 0
  pub configured : Bool
  pub open_engine : TargetOptions → World → Option Error × World
  pub execute : RequestOptions → List Statement → World → List ExecutionResult × World

module _ (executor : Executor) where
  open executor use {World, configured, open_engine, execute}

  unfoldable pub execute_audited :
      RequestOptions → List Statement → List AuditRecord → World → List AuditRecord × World
  unfolding is_blocked fail_first merge_results
  execute_audited options statements records w =
      let (unopened, w1) = open_engine options.target w in
      let (results, w2) = execute options statements w1 in
      if not options.execute || is_blocked options.ignore_warnings records
      then (records, w)
      else if not configured
      then (fail_first (txt "execution engine is not configured") records, w)
      else elim unopened [
        | some e ↦ (fail_first (error_text e) records, w1)
        | none ↦ (merge_results results records, w2)
      ]
