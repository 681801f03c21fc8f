-- ===== src/Model/Records.antt =====
-- internal/model/model.go: severities, audit issues and records, requests and results.
use goinception_plus.Prelude.{ℕ, Bool, List}
use goinception_plus.Prelude.Int.{ℤ}
use goinception_plus.Strings.{Text}
use goinception_plus.Model.Statements.{Statement}

pub data Severity : Type 0 where
  no_severity warning error : Severity

pub record AuditIssue : Type 0 where
  pub rule_id : Text
  pub legacy_key : Text
  pub code : ℕ
  pub level : Severity
  pub message : Text
  pub sequence : ℕ

-- Durations are in nanoseconds.
pub record AuditRecord : Type 0 where
  pub sequence : ℕ
  pub stage : Text
  pub error_level : Severity
  pub stage_status : Text
  pub error_message : Text
  pub sql : Text
  pub affected_rows : ℕ
  pub backup_database : Text
  pub execute_time : ℕ
  pub sql_sha1 : Text
  pub backup_completed : Bool
  pub backup_time : ℕ
  pub operation_id : Text
  pub issues : List AuditIssue

pub record TargetOptions : Type 0 where
  pub host : Text
  pub port : ℕ
  pub user : Text
  pub password : Text
  pub database : Text
  pub sql_mode : Text
  pub version : Text
  pub sql_safe_updates : ℤ
  pub lock_wait_timeout : ℤ
  pub default_charset : Text

pub record RequestOptions : Type 0 where
  pub target : TargetOptions
  pub check : Bool
  pub execute : Bool
  pub backup : Bool
  pub ignore_warnings : Bool
  pub sleep_millis : ℕ
  pub sleep_rows : ℕ
  pub trace_id : Text

pub record ExecutionResult : Type 0 where
  pub sequence : ℕ
  pub affected_rows : ℕ
  pub duration : ℕ
  pub error : Text
  pub rule_id : Text
  pub backup_database : Text
  pub backup_completed : Bool
  pub backup_duration : ℕ
  pub sequence_id : Text
  pub executed : Bool

-- The warnings are their messages.
pub record ParseResult : Type 0 where
  pub statements : List Statement
  pub warnings : List Text

pub record ImpactEstimate : Type 0 where
  pub rows : ℕ
  pub method : Text
  pub exact : Bool
