-- ===== src/Execution/Order.antt =====
-- The order of the results of internal/execution/mysql/engine.go, and what ends a batch.
use goinception_plus.Prelude.{
  ℕ, suc, not, Option, Bool, true, false, List, [], ◌∷◌, ◌≡◌, refl, ◌⊎◌, inl, inr, Bool-cases,
  if◌then◌else◌,
}
use goinception_plus.Strings.{Text}
use goinception_plus.Model.{StatementKind, Statement, RequestOptions, ExecutionResult}
use goinception_plus.Audit.Types.{Result, ok, Result-cases}
use goinception_plus.Execution.Rollbacks.{RollbackRecord, prepare_ddl_rollback}
use goinception_plus.Execution.{
  BinlogPosition, Operation, rows_of, Driver, Outcome, stopped, finished, empty_result,
  runs_directly, operation_id, statement_object,
}
use goinception_plus.Execution.Run.{
  execute_sql, run_direct, collect_rollbacks, save_backup, back_up, run_backed_up, run_statement,
  execution_delay, run_statements,
}

-- The statement is not to be backed up: backup is off, or it is a USE or a SELECT.
abbrev pub NeedsNoBackup : RequestOptions → Statement → Type 0
NeedsNoBackup options s =
    (options.backup ≡ false)
    ⊎ ((s.kind ≡ StatementKind.use_database) ⊎ (s.kind ≡ StatementKind.select))

-- The target executed the statement, and the result has the number of rows that it told.
abbrev pub IsExecuted : Driver → Statement → ExecutionResult → Type 0
IsExecuted driver s r =
    (w : driver.World) × (rows : Option ℕ) × ((driver.exec s.normalized w).0 ≡ ok rows)
    × (r.affected_rows ≡ rows_of rows)
    × (r.executed ≡ true)
    × (r.error ≡ [])

-- The backup store saved an operation of the statement, and the result has its database and its number.
abbrev pub IsSaved : Driver → Statement → ExecutionResult → Type 0
IsSaved driver s r =
    (o : Operation) × (w : driver.World) × (name : Text) × ((driver.save o w).0 ≡ ok name)
    × (o.statement ≡ s)
    × (r.sequence_id ≡ o.opid)
    × (r.backup_database ≡ name)
    × (r.backup_completed ≡ true)

-- The result of a statement after which the batch goes on.
pub record IsDone (driver : Driver) (options : RequestOptions) (s : Statement) (r : ExecutionResult)
    : Type 0 where
  pub executed : IsExecuted driver s r
  pub backed_up : NeedsNoBackup options s ⊎ IsSaved driver s r

-- An outcome is about its statement, and is final or that of a statement that is done.
abbrev pub Fits : Driver → RequestOptions → Statement → Outcome → Type 0
Fits driver options s (stopped r) = r.sequence ≡ s.sequence
Fits driver options s (finished r) = (r.sequence ≡ s.sequence) × IsDone driver options s r

-- The executed statement before its backup.
abbrev Ran : Driver → Statement → Outcome → Type 0
Ran driver s (stopped r) = r.sequence ≡ s.sequence
Ran driver s (finished r) = (r.sequence ≡ s.sequence) × IsExecuted driver s r

negation_false : (b : Bool) → not b ≡ true → b ≡ false
negation_false true h = absurd (cc h)
negation_false false h = refl

runs_directly-NeedsNoBackup :
    (options : RequestOptions) (s : Statement)
    → runs_directly options s ≡ true
    → NeedsNoBackup options s
unfolding runs_directly
runs_directly-NeedsNoBackup options s h = of_kind s.kind h
  where
    of_kind :
        (k : StatementKind)
        → runs_directly options (record s { kind = k }) ≡ true
        → (options.backup ≡ false) ⊎ ((k ≡ StatementKind.use_database) ⊎ (k ≡ StatementKind.select))
    of_kind StatementKind.use_database e = inr (inl refl)
    of_kind StatementKind.select e = inr (inr refl)
    of_kind other e = inl (negation_false options.backup e)

module _ (driver : Driver) (options : RequestOptions) where
  open driver use {World, target, exec, clock, master_position, collect}

  execute_sql-Ran :
      (s : Statement) (start : ℕ) (w : World)
      → Ran driver s (execute_sql driver options s.normalized start (empty_result s.sequence) w).0
  unfolding execute_sql
  execute_sql-Ran s start w = elim (Result-cases (exec s.normalized w).0) [
    | inl (rows, e) ↦ rw (e, Ran) (refl, (w, rows, e, refl, refl, refl))
    | inr (x, e) ↦ rw (e, Ran) refl
  ]

  run_direct-Fits :
      (s : Statement) (w : World)
      → runs_directly options s ≡ true
      → Fits driver options s (run_direct driver options s w).0
  unfolding run_direct execute_sql
  run_direct-Fits s w direct = elim (Result-cases (exec s.normalized (clock w).1).0) [
    | inl (rows, e) ↦
        rw (e, Fits)
          (
            refl,
            record {
              executed = ((clock w).1, rows, e, refl, refl, refl);
              backed_up = inl (runs_directly-NeedsNoBackup options s direct);
            },
          )
    | inr (x, e) ↦ rw (e, Fits) refl
  ]

  save_backup-Fits :
      (s : Statement) (thread_id : ℕ) (start end : BinlogPosition) (started : ℕ)
      (rollbacks : List RollbackRecord) (r : ExecutionResult) (w : World)
      → Ran driver s (finished r)
      → Fits driver options s
          (save_backup driver options s thread_id start end started rollbacks r w).0
  unfolding save_backup
  save_backup-Fits s thread_id start end started rollbacks r w (same, executed) =
      elim (Result-cases saved) [
        | inl (name, e) ↦
            rw (e, Fits)
              (
                same,
                record {
                  executed = executed;
                  backed_up = inr (operation, (clock w).1, name, e, refl, refl, refl, refl);
                },
              )
        | inr (x, e) ↦ rw (e, Fits) same
      ]
    where
      operation : Operation
      operation = record {
        opid = operation_id started thread_id s.sequence;
        statement = s;
        source = options.target;
        start = start;
        end = end;
        thread_id = thread_id;
        schema = (statement_object s).0;
        table = (statement_object s).1;
        rollbacks = rollbacks;
      }

      saved : Result Text
      saved = (driver.save operation (clock w).1).0

  back_up-Fits :
      (s : Statement) (thread_id : ℕ) (prepared : List RollbackRecord) (start : BinlogPosition)
      (started : ℕ) (r : ExecutionResult) (w : World)
      → Ran driver s (finished r)
      → Fits driver options s (back_up driver options s thread_id prepared start started r w).0
  unfolding back_up
  back_up-Fits s thread_id prepared start started r w ran =
      elim (Result-cases (master_position w).0) [
        | inr (x, e) ↦ rw (e, Fits) ran.0
        | inl (end, e) ↦ elim (Result-cases (collected end).0) [
          | inr (x, f) ↦ rw (e, f, Fits) ran.0
          | inl (found, f) ↦
              rw (e, f, Fits)
                (save_backup-Fits s thread_id start end started found r (collected end).1 ran)
        ]
      ]
    where
      collected : BinlogPosition → Result (List RollbackRecord) × World
      collected end =
          collect_rollbacks driver options s prepared start end thread_id r.affected_rows
            (master_position w).1

  -- The backup of an outcome, if it is not final.
  abbrev backed_up_after :
      Statement → ℕ → List RollbackRecord → BinlogPosition → ℕ → Outcome → World → Outcome × World
  backed_up_after s thread_id prepared start started done w = elim done [
    | stopped r ↦ (stopped r, w)
    | finished r ↦ back_up driver options s thread_id prepared start started r w
  ]

  backed_up_after-Fits :
      (s : Statement) (thread_id : ℕ) (prepared : List RollbackRecord) (start : BinlogPosition)
      (started : ℕ) (done : Outcome) (w : World)
      → Ran driver s done
      → Fits driver options s (backed_up_after s thread_id prepared start started done w).0
  backed_up_after-Fits s thread_id prepared start started (stopped r) w same = same
  backed_up_after-Fits s thread_id prepared start started (finished r) w ran =
      back_up-Fits s thread_id prepared start started r w ran

  run_backed_up-Fits :
      (thread_id : ℕ) (s : Statement) (w : World)
      → Fits driver options s (run_backed_up driver options thread_id s w).0
  unfolding run_backed_up
  run_backed_up-Fits thread_id s w = elim (Result-cases (master_position w1).0) [
    | inr (x, e) ↦ rw (e, Fits) refl
    | inl (start, e) ↦ elim (Result-cases (undo).0) [
      | inr (x, f) ↦ rw (e, f, Fits) refl
      | inl (sql, f) ↦
          rw (e, f, Fits)
            (backed_up_after-Fits s thread_id sql start (clock w).0 ran.0 ran.1
              (execute_sql-Ran s (clock w).0 undo.1))
    ]
  ]
    where
      w1 : World
      w1 = (clock w).1

      undo : Result (List RollbackRecord) × World
      undo = prepare_ddl_rollback target s (master_position w1).1

      ran : Outcome × World
      ran = execute_sql driver options s.normalized (clock w).0 (empty_result s.sequence) undo.1

  run_statement-Fits :
      (thread_id : ℕ) (s : Statement) (w : World)
      → Fits driver options s (run_statement driver options thread_id s w).0
  unfolding run_statement
  run_statement-Fits thread_id s w = elim (Bool-cases (runs_directly options s)) [
    | inl e ↦ rw (e, Fits) (run_direct-Fits s w e)
    | inr e ↦ rw (e, Fits) (run_backed_up-Fits thread_id s w)
  ]

-- The results are those of the first statements, and each but the last was done.
abbrev pub Runs : Driver → RequestOptions → List Statement → List ExecutionResult → Type 0
Runs driver options [] [] = Unit
Runs driver options (s ∷ rest) (r ∷ []) = r.sequence ≡ s.sequence
Runs driver options (s ∷ rest) (r ∷ r' ∷ more) =
    (r.sequence ≡ s.sequence) × IsDone driver options s r × Runs driver options rest (r' ∷ more)
Runs driver options statements results = ⊥

Runs-cons :
    (driver : Driver) (options : RequestOptions) (s : Statement) (rest : List Statement)
    (r : ExecutionResult) (others : List ExecutionResult)
    → Fits driver options s (finished r)
    → Runs driver options rest others
    → Runs driver options (s ∷ rest) (r ∷ others)
Runs-cons driver options s rest r [] (same, done) runs = same
Runs-cons driver options s rest r (r' ∷ more) (same, done) runs = (same, done, runs)

module _ (driver : Driver) (options : RequestOptions) where
  open driver use {World}

  abbrev results_of :
      Outcome → Bool → List ExecutionResult × World → World → World → List ExecutionResult × World
  results_of outcome go_on others w1 w2 = elim outcome [
    | stopped r ↦ (r ∷ [], w1)
    | finished r ↦ if go_on then (r ∷ others.0, others.1) else (r ∷ [], w2)
  ]

  results_of-Runs :
      (s : Statement) (rest : List Statement) (outcome : Outcome) (go_on : Bool)
      (others : List ExecutionResult × World) (w1 w2 : World)
      → Fits driver options s outcome
      → Runs driver options rest others.0
      → Runs driver options (s ∷ rest) (results_of outcome go_on others w1 w2).0
  results_of-Runs s rest (stopped r) go_on others w1 w2 same runs = same
  results_of-Runs s rest (finished r) true others w1 w2 fits runs =
      Runs-cons driver options s rest r others.0 fits runs
  results_of-Runs s rest (finished r) false others w1 w2 fits runs = fits.0

  -- The results of the batch are those of a prefix of its statements, in their order, and every result but
  -- the last is that of a statement that the target executed without an error and that, unless backup is off
  -- or it is a USE or a SELECT, the backup store saved: the batch stops at the first failure. The result has
  -- the rows that the target told, and the database and the number of the saved operation.
  pub run_statements-Runs :
      (thread_id : ℕ) (statements : List Statement) (index : ℕ) (w : World)
      → Runs driver options statements
          (run_statements driver options thread_id statements index w).0
  unfolding run_statements
  run_statements-Runs thread_id [] index w = tt
  run_statements-Runs thread_id (s ∷ rest) index w =
      results_of-Runs s rest ran.0 wait.0 others ran.1 wait.1
        (run_statement-Fits driver options thread_id s w)
        (run_statements-Runs thread_id rest (suc index) wait.1)
    where
      ran : Outcome × World
      ran = run_statement driver options thread_id s w

      wait : Bool × World
      wait = execution_delay driver options index ran.1

      others : List ExecutionResult × World
      others = run_statements driver options thread_id rest (suc index) wait.1
