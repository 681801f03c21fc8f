-- ===== src/Execution.antt =====
-- internal/execution/mysql/engine.go: the serial execution of the statements of a request, with the
-- backup of each change. The database, the binlog stream, the backup store and the clock are behind
-- one interface whose state is threaded through the calls.
pub mod Rollbacks
pub mod Session
pub mod Run
pub mod Order
pub mod Safety
use goinception_plus.Prelude.{
  ℕ, ◌+◌, ◌-◌, ◌/◌, ◌%◌, String, Bool, true, false, not, ◌&&◌, ◌||◌, Option, none, some, List, [],
  ◌∷◌, ◌++◌, map, if◌then◌else◌, ◌==◌, nat_eq, text_eq, length, zero, suc, ◌⊎◌, inl, inr, ◌^◌,
}
use goinception_plus.Strings.{Text, txt}
use goinception_plus.Strings.Format.{sprintf, itoa}
use goinception_plus.Model.{
  TableRef, Statement, StatementKind, DdlSpec, DmlSpec, RequestOptions, TargetOptions,
  ExecutionResult,
}
use goinception_plus.Audit.Types.{Error, failure, error_text, Result, ok, err}
use goinception_plus.Rollback.{RowChange, generate}
use Rollbacks.{RollbackRecord, Target}

pub record BinlogPosition : Type 0 where
  pub file : Text
  pub position : ℕ

-- internal/backup/backup.go: what the store saves of a statement.
pub record Operation : Type 0 where
  pub opid : Text
  pub statement : Statement
  pub source : TargetOptions
  pub start : BinlogPosition
  pub end : BinlogPosition
  pub thread_id : ℕ
  pub schema : Text
  pub table : Text
  pub rollbacks : List RollbackRecord

-- `backup.TargetOptions`: where the backups go.
pub record BackupOptions : Type 0 where
  pub host : Text
  pub port : ℕ
  pub user : Text
  pub password : Text

-- The calls of the engine on the target connection (`Target`), the binlog and the backup store.
-- `sleep` waits and tells whether the time passed before the request was cancelled.
pub record Driver : Type 1 where
  pub target : Target
  pub open target use *
  pub connect : World → Option Error × World
  pub validate : World → Option Error × World
  pub open_store : BackupOptions → World → Option Error × World
  pub ping_store : World → Option Error × World
  pub connection_id : World → Result ℕ × World
  pub master_position : World → Result BinlogPosition × World
  pub collect : BinlogPosition → BinlogPosition → ℕ → ℕ → World → Result (List RowChange) × World
  pub save : Operation → World → Result Text × World
  pub clock : World → ℕ × World
  pub sleep : ℕ → World → Bool × World

abbrev pub empty_result : ℕ → ExecutionResult
empty_result sequence = record {
  sequence = sequence;
  affected_rows = 0;
  duration = 0;
  error = [];
  rule_id = [];
  backup_database = [];
  backup_completed = false;
  backup_duration = 0;
  sequence_id = [];
  executed = false;
}

-- A result that ends the batch, or one after which the batch goes on.
pub data Outcome : Type 0 where
  stopped finished : ExecutionResult → Outcome

abbrev pub result_of : Outcome → ExecutionResult
result_of (stopped r) = r
result_of (finished r) = r

abbrev pub failed : ExecutionResult → Text → Error → Outcome
failed r rule e = stopped (record r { rule_id = rule; error = error_text e })

abbrev pub rows_of : Option ℕ → ℕ
rows_of none = 0
rows_of (some n) = n

zeros : ℕ → Text
zeros zero = []
zeros (suc n) = b'0' ∷ zeros n

-- The verb `%08d`.
unfoldable pub padded8 : ℕ → Text
unfolding zeros
padded8 n = let s = itoa n in zeros (8 - length s) ++ s

unfoldable pub operation_id : ℕ → ℕ → ℕ → Text
unfolding padded8
operation_id start thread_id sequence =
    itoa (start / 1_000_000_000) ++ (b'_' ∷ (itoa thread_id ++ (b'_' ∷ padded8 (sequence - 1))))

unfoldable pub statement_object : Statement → Text × Text
statement_object s = elim s.ddl [
  | some d ↦ (d.schema, d.table)
  | none ↦ elim s.dml [
    | none ↦ (s.database, txt "statement")
    | some m ↦ elim m.tables [ [] ↦ (s.database, txt "statement") | t ∷ rest ↦ (t.schema, t.name) ]
  ]
]

-- The rollback records of the captured changes, up to the first that has no rollback SQL.
unfoldable pub generate_all : List RowChange → Result (List RollbackRecord)
generate_all [] = ok []
generate_all (c ∷ rest) = elim (generate c) [
  | err e ↦ err e
  | ok sql ↦ elim (generate_all rest) [
    | err e ↦ err e
    | ok more ↦ ok (record { schema = c.table.schema; table = c.table.name; sql = sql } ∷ more)
  ]
]

-- `!options.Backup || s.Kind == StatementUse || s.Kind == StatementSelect`
unfoldable pub runs_directly : RequestOptions → Statement → Bool
runs_directly o s = elim s.kind [
  | StatementKind.use_database ↦ true
  | StatementKind.select ↦ true
  | _ ↦ not o.backup
]
