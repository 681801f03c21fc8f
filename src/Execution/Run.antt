-- ===== src/Execution/Run.antt =====
-- internal/execution/mysql/engine.go: `Execute`, its loop over the statements, and the steps of one
-- statement.
use goinception_plus.Prelude.{
  ℕ, ◌-◌, ◌%◌, ◌^◌, Bool, true, not, ◌||◌, ◌⊎◌, inl, inr, none, some, List, [], ◌∷◌, ◌++◌,
  if◌then◌else◌, ◌==◌, nat_eq, text_eq, suc,
}
use goinception_plus.Strings.{Text, txt}
use goinception_plus.Model.{Statement, RequestOptions, ExecutionResult}
use goinception_plus.Audit.Types.{Error, failure, error_text, Result, ok, err}
use goinception_plus.Audit.Codes.{rule_execution_failed, rule_binlog_prereq, rule_backup_failed}
use goinception_plus.Execution.Rollbacks.{RollbackRecord, prepare_ddl_rollback}
use goinception_plus.Execution.Session.{configure_session}
use goinception_plus.Execution.{
  BinlogPosition, BackupOptions, Driver, Outcome, stopped, finished, failed, empty_result, rows_of,
  operation_id, statement_object, generate_all, runs_directly,
}

module _ (driver : Driver) (options : RequestOptions) where
  open driver use {World, target, exec, master_position, collect, save, clock, sleep}

  -- What a step returns with the state after it.
  abbrev pub Step : Type 0
  Step = World → Outcome × World

  -- `ExecContext` with its duration and its affected rows.
  unfoldable pub execute_sql : Text → ℕ → ExecutionResult → Step
  execute_sql sql start r w =
      let (result, w1) = exec sql w in
      let (now, w2) = clock w1 in
      let r' = record r { duration = now - start } in
      elim result [
        | err e ↦ (stopped (record r' { error = error_text e }), w2)
        | ok rows ↦ (finished (record r' { affected_rows = rows_of rows; executed = true }), w2)
      ]

  unfoldable pub run_direct : Statement → Step
  unfolding execute_sql
  run_direct s w =
      let (start, w1) = clock w in execute_sql s.normalized start (empty_result s.sequence) w1

  -- The rollback records of an executed statement: of its row changes, or those prepared before.
  unfoldable pub collect_rollbacks :
      Statement
      → List RollbackRecord
      → BinlogPosition
      → BinlogPosition
      → ℕ
      → ℕ
      → World
      → Result (List RollbackRecord) × World
  unfolding generate_all
  collect_rollbacks s prepared start end thread_id rows w = elim s.dml [
    | none ↦ (ok prepared, w)
    | some m ↦
        let (changes, w1) = collect start end thread_id rows w in
        elim changes [ err e ↦ (err e, w1) | ok found ↦ (generate_all found, w1) ]
  ]

  -- The backup of an executed statement.
  unfoldable pub save_backup :
      Statement
      → ℕ
      → BinlogPosition
      → BinlogPosition
      → ℕ
      → List RollbackRecord
      → ExecutionResult
      → Step
  unfolding statement_object operation_id
  save_backup s thread_id start end started rollbacks r w =
      let (schema, table) = statement_object s in
      let opid = operation_id started thread_id s.sequence in
      let (backup_start, w1) = clock w in
      let (saved, w2) =
        save
          (record {
            opid = opid;
            statement = s;
            source = options.target;
            start = start;
            end = end;
            thread_id = thread_id;
            schema = schema;
            table = table;
            rollbacks = rollbacks;
          })
          w1 in
      let (backup_end, w3) = clock w2 in
      let r' = record r { backup_duration = backup_end - backup_start } in
      elim saved [
        | err e ↦ (failed r' rule_backup_failed e, w3)
        | ok name ↦ (
          finished
              (record r' { backup_database = name; backup_completed = true; sequence_id = opid }),
          w3,
        )
      ]

  -- What follows the execution of a statement that is backed up.
  unfoldable pub back_up :
      Statement → ℕ → List RollbackRecord → BinlogPosition → ℕ → ExecutionResult → Step
  unfolding collect_rollbacks save_backup
  back_up s thread_id prepared start started r w =
      let (end, w1) = master_position w in
      elim end [
        | err e ↦ (failed r rule_backup_failed e, w1)
        | ok end_position ↦
            let (rollbacks, w2) =
              collect_rollbacks s prepared start end_position thread_id r.affected_rows w1 in
            elim rollbacks [
              | err e ↦ (failed r rule_backup_failed e, w2)
              | ok found ↦ save_backup s thread_id start end_position started found r w2
            ]
      ]

  unfoldable pub run_backed_up : ℕ → Statement → Step
  unfolding prepare_ddl_rollback execute_sql back_up
  run_backed_up thread_id s w =
      let r = empty_result s.sequence in
      let (started, w1) = clock w in
      let (start, w2) = master_position w1 in
      elim start [
        | err e ↦ (failed r rule_binlog_prereq e, w2)
        | ok start_position ↦
            let (prepared, w3) = prepare_ddl_rollback target s w2 in
            elim prepared [
              | err e ↦ (failed r rule_backup_failed e, w3)
              | ok ddl_sql ↦
                  let (done, w4) = execute_sql s.normalized started r w3 in
                  elim done [
                    | stopped r' ↦ (stopped r', w4)
                    | finished r' ↦ back_up s thread_id ddl_sql start_position started r' w4
                  ]
            ]
      ]

  unfoldable pub run_statement : ℕ → Statement → Step
  unfolding runs_directly run_direct run_backed_up
  run_statement thread_id s w =
      if runs_directly options s then run_direct s w else run_backed_up thread_id s w

  -- `executionDelay`: false only if the request was cancelled during the wait.
  unfoldable pub execution_delay : ℕ → World → Bool × World
  execution_delay index w =
      if options.sleep_millis == 0
        || options.sleep_rows == 0
        || not (index % options.sleep_rows == 0)
      then (true, w)
      else sleep options.sleep_millis w

  -- The loop over the statements; `index` results are there already.
  unfoldable pub run_statements : ℕ → List Statement → ℕ → World → List ExecutionResult × World
  unfolding run_statement execution_delay
  run_statements thread_id [] index w = ([], w)
  run_statements thread_id (s ∷ rest) index w =
      let (outcome, w1) = run_statement thread_id s w in
      let (go_on, w2) = execution_delay index w1 in
      let (others, w3) = run_statements thread_id rest (suc index) w2 in
      elim outcome [
        | stopped r ↦ (r ∷ [], w1)
        | finished r ↦ if go_on then (r ∷ others, w3) else (r ∷ [], w2)
      ]

  abbrev refused : Text → Text → Error → List ExecutionResult
  refused rule prefix e =
      record (empty_result 1) { rule_id = rule; error = prefix ++ error_text e } ∷ []

  -- What backup wants before the first statement: the thread of the connection.
  unfoldable pub prepare_backup : BackupOptions → World → (List ExecutionResult ⊎ ℕ) × World
  prepare_backup b w =
      let (invalid, w1) = driver.validate w in
      let (unopened, w2) = driver.open_store b w1 in
      let (unreachable, w3) = driver.ping_store w2 in
      let (id, w4) = driver.connection_id w3 in
      elim invalid [
        | some e ↦ (inl (refused rule_binlog_prereq [] e), w1)
        | none ↦
            if b.host == [] || b.port == 0 || b.user == []
            then (
              inl (
                  refused rule_binlog_prereq []
                    (failure (txt "backup MySQL host, port, and user are required"))),
              w1,
            )
            else elim unopened [
              | some e ↦ (inl (refused rule_binlog_prereq [] e), w2)
              | none ↦ elim unreachable [
                | some e ↦ (inl (refused rule_binlog_prereq (txt "connect backup MySQL: ") e), w3)
                | none ↦ elim id [
                  | err e ↦ (inl (refused rule_binlog_prereq [] e), w4)
                  | ok n ↦ (inr (n % 2 ^ 32), w4)
                ]
              ]
            ]
      ]

  unfoldable pub execute : BackupOptions → List Statement → World → List ExecutionResult × World
  unfolding configure_session prepare_backup run_statements
  execute b statements w =
      let (unconnected, w1) = driver.connect w in
      let (unset, w2) = configure_session target options.target w1 in
      let (thread, w3) = prepare_backup b w2 in
      let direct = run_statements 0 statements 0 w2 in
      elim unconnected [
        | some e ↦ (refused [] [] e, w1)
        | none ↦ elim unset [
          | some e ↦ (refused rule_execution_failed (txt "configure target session: ") e, w2)
          | none ↦
              if options.backup
              then elim thread [
                | inl results ↦ (results, w3)
                | inr thread_id ↦ run_statements thread_id statements 0 w3
              ]
              else direct
        ]
      ]
