-- ===== src/Model.antt =====
-- internal/model/model.go: the parser-neutral statements, the audit records and the requests.
mod Ddl
mod Statements
mod Records
pub use Ddl.{
  TableRef, ColumnRef, RenamePair, AlterAction, ColumnSpec, IndexSpec, AlterOperation, DdlAction,
  DdlSpec,
}
pub use Statements.{StatementKind, LiteralKind, ComparisonSpec, DmlSpec, Statement}
pub use Records.{
  Severity, no_severity, warning, error, AuditIssue, AuditRecord, TargetOptions, RequestOptions,
  ExecutionResult, ParseResult, ImpactEstimate,
}
