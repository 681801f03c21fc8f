-- ===== src/Tests/Execution.antt =====
-- Examples of the theorems on the execution of a batch.
use goinception_plus.Prelude.{
  ℕ, suc, ◌⊎◌, inl, inr, Memᴰ, true, false, none, some, List, [], ◌∷◌, ◌≡◌, refl, if◌then◌else◌,
  ◌==◌, nat_eq,
}
use goinception_plus.Prelude.Int.{pos}
use goinception_plus.Strings.{txt}
use goinception_plus.Model.{
  AlterAction, DdlAction, DdlSpec, StatementKind, Statement, RequestOptions, ExecutionResult,
}
use goinception_plus.Audit.Types.{failure, ok, err}
use goinception_plus.Audit.Codes.{rule_binlog_prereq, rule_backup_failed}
use goinception_plus.Execution.Rollbacks.{Target}
use goinception_plus.Execution.{Driver, stopped, runs_directly}
use goinception_plus.Execution.Run.{run_statement, run_statements}
use goinception_plus.Execution.Order.{Runs, run_statements-Runs}
use goinception_plus.Execution.Safety.{run_statement-refused}
use goinception_plus.Tests.Data.{ddl, statement, operation, column_spec}

abbrev pub options : RequestOptions
options = record {
  target = record {
    host = [];
    port = 3306;
    user = [];
    password = [];
    database = [];
    sql_mode = [];
    version = [];
    sql_safe_updates = pos 0;
    lock_wait_timeout = pos 0;
    default_charset = [];
  };
  check = false;
  execute = true;
  backup = true;
  ignore_warnings = false;
  sleep_millis = 0;
  sleep_rows = 0;
  trace_id = [];
}

-- A target that counts the statements sent to it and refuses the third.
abbrev target : Target
target = record {
  World = ℕ;
  exec = λ sql w. (if w == 2 then err (failure (txt "lost")) else ok (some 1), suc w);
  exec_with = λ sql arg w. (none, w);
  show_create = λ name w. (ok (txt "CREATE TABLE t (id int)"), w);
}

abbrev driver : Driver
driver = record {
  target = target;
  connect = λ w. (none, w);
  validate = λ w. (none, w);
  open_store = λ b w. (none, w);
  ping_store = λ w. (none, w);
  connection_id = λ w. (ok 5, w);
  master_position = λ w. (ok (record { file = txt "bin.1"; position = 4 }), w);
  collect = λ start end thread rows w. (ok [], w);
  save = λ operation w. (ok (txt "backup"), w);
  clock = λ w. (1_000_000_000, w);
  sleep = λ millis w. (true, w);
}

abbrev create : ℕ → Statement
create n = statement n StatementKind.create_table (some (ddl DdlAction.create_table (txt "users")))

abbrev batch : List Statement
batch = create 1 ∷ create 2 ∷ create 3 ∷ create 4 ∷ []

run_statements-Runs_example :
    Runs driver options batch (run_statements driver options 5 batch 0 0).0
run_statements-Runs_example = run_statements-Runs driver options 5 batch 0 0

-- An ALTER TABLE that adds a column and drops another.
abbrev destructive : DdlSpec
destructive = record (ddl DdlAction.alter_table (txt "users")) {
  alter_operations =
      operation AlterAction.add_columns [] [] (column_spec (txt "age") ∷ [])
      ∷ operation AlterAction.drop_column (txt "name") [] []
      ∷ [];
}

abbrev drop_name : Statement
drop_name = statement 1 StatementKind.alter_table (some destructive)

run_statement-refused_example :
    (r : ExecutionResult) × (run_statement driver options 5 drop_name 0 ≡ (stopped r, 0))
    × (r.executed ≡ false)
    × ((r.rule_id ≡ rule_binlog_prereq) ⊎ (r.rule_id ≡ rule_backup_failed))
    × (r.sequence ≡ 1)
unfolding runs_directly
run_statement-refused_example =
    run_statement-refused driver options 5 drop_name destructive 0 refl refl (
      inr (
        inr (
          inr (
            refl,
            (
              operation AlterAction.drop_column (txt "name") [] [],
              Memᴰ.tail (Memᴰ.head refl),
              inl refl,
            ),
          ))))
