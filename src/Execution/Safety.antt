-- ===== src/Execution/Safety.antt =====
-- Which DDL statements internal/execution/mysql/engine.go can undo, and what it does with the others.
use goinception_plus.Prelude.{
  ℕ, Bool, Bool-cases, ◌&&◌, true, false, Option, none, some, List, [], ◌∷◌, ◌≡◌, refl, arith, inl,
  inr, ◌⊎◌, ◌∙◌, ap, sym, Memᴰ,
}
use mathlib.Core.List.{reverse, reverse_aux}
use goinception_plus.Strings.{txt}
use goinception_plus.Model.{
  Statement, IndexSpec, DdlSpec, DdlAction, AlterAction, AlterOperation, RequestOptions,
  ExecutionResult,
}
use goinception_plus.Audit.Types.{Error, failure, error_text, err, Result-cases}
use goinception_plus.Audit.Codes.{rule_binlog_prereq, rule_backup_failed}
use goinception_plus.Execution.Rollbacks.{
  Target, prepare_ddl_rollback, prepare_ddl_spec, undo_operation, undo_operations,
}
use goinception_plus.Execution.{Driver, stopped, empty_result, runs_directly}
use goinception_plus.Execution.Run.{run_backed_up, run_statement}

-- What the rollback knows how to undo of an ALTER TABLE.
unfoldable pub operation_can_be_undone : AlterOperation → Bool
operation_can_be_undone op = elim op.action [
  | AlterAction.add_columns ↦ true
  | AlterAction.add_index ↦ elim op.index [ none ↦ false | some i ↦ true ]
  | AlterAction.rename_column ↦ true
  | other ↦ false
]

unfoldable pub all_can_be_undone : List AlterOperation → Bool
unfolding operation_can_be_undone
all_can_be_undone [] = true
all_can_be_undone (op ∷ rest) = operation_can_be_undone op && all_can_be_undone rest

-- The statements that the rollback knows how to undo.
unfoldable pub can_be_undone : DdlSpec → Bool
unfolding all_can_be_undone
can_be_undone d = elim d.action [
  | DdlAction.create_database ↦ true
  | DdlAction.create_table ↦ true
  | DdlAction.drop_table ↦ true
  | DdlAction.rename_table ↦ true
  | DdlAction.create_index ↦ true
  | DdlAction.alter_table ↦ all_can_be_undone (reverse d.alter_operations)
  | other ↦ false
]

undo_add_index-refused :
    (d : DdlSpec) (op : AlterOperation) (i : Option IndexSpec)
    → operation_can_be_undone (record op { action = AlterAction.add_index; index = i }) ≡ false
    → (e : Error) × (undo_operation d (record op { action = AlterAction.add_index; index = i })
        ≡ err e)
unfolding operation_can_be_undone undo_operation
undo_add_index-refused d op none refused = (failure (txt "missing index projection"), refl)
undo_add_index-refused d op (some i) refused = absurd (ground (arith, refused))

undo_operation-refused :
    (d : DdlSpec) (op : AlterOperation) (action : AlterAction)
    → operation_can_be_undone (record op { action = action }) ≡ false
    → (e : Error) × (undo_operation d (record op { action = action }) ≡ err e)
unfolding operation_can_be_undone undo_operation
undo_operation-refused d op AlterAction.add_columns refused = ground arith
undo_operation-refused d op AlterAction.drop_column refused = (_, refl)
undo_operation-refused d op AlterAction.modify_column refused = (_, refl)
undo_operation-refused d op AlterAction.change_column refused = (_, refl)
undo_operation-refused d op AlterAction.rename_column refused = ground arith
undo_operation-refused d op AlterAction.add_index refused =
    undo_add_index-refused d op op.index refused
undo_operation-refused d op AlterAction.drop_index refused = (_, refl)
undo_operation-refused d op AlterAction.drop_primary_key refused = (_, refl)
undo_operation-refused d op AlterAction.rename_index refused = (_, refl)
undo_operation-refused d op AlterAction.rename_table refused = (_, refl)
undo_operation-refused d op AlterAction.table_options refused = (_, refl)

undo_operations-refused :
    (d : DdlSpec) (ops : List AlterOperation)
    → all_can_be_undone ops ≡ false
    → (e : Error) × (undo_operations d ops ≡ err e)
unfolding all_can_be_undone undo_operations
undo_operations-refused d [] refused = ground arith
undo_operations-refused d (op ∷ rest) refused = elim (Bool-cases (operation_can_be_undone op)) [
  | inr e ↦ let (x, refusal) = undo_operation-refused d op op.action e in (x, simp refusal)
  | inl e ↦
      let (x, refusal) = undo_operations-refused d rest (ground (arith, e, refused)) in
      elim (Result-cases (undo_operation d op)) [
        | inl (here, f) ↦ (x, simp (f, refusal))
        | inr (y, f) ↦ (y, simp f)
      ]
]

prepare_ddl_spec-refused :
    (target : Target) (d : DdlSpec) (action : DdlAction) (w : target.World)
    → can_be_undone (record d { action = action }) ≡ false
    → (e : Error) × (prepare_ddl_spec target (record d { action = action }) w ≡ (err e, w))
unfolding can_be_undone prepare_ddl_spec
prepare_ddl_spec-refused target d DdlAction.create_database w refused = ground arith
prepare_ddl_spec-refused target d DdlAction.drop_database w refused = (_, refl)
prepare_ddl_spec-refused target d DdlAction.create_table w refused = ground arith
prepare_ddl_spec-refused target d DdlAction.drop_table w refused = ground arith
prepare_ddl_spec-refused target d DdlAction.rename_table w refused = ground arith
prepare_ddl_spec-refused target d DdlAction.create_index w refused = ground arith
prepare_ddl_spec-refused target d DdlAction.drop_index w refused = (_, refl)
prepare_ddl_spec-refused target d DdlAction.alter_table w refused =
    let (e, refusal) = undo_operations-refused d (reverse d.alter_operations) refused in
    (e, simp refusal)
prepare_ddl_spec-refused target d DdlAction.truncate_table w refused = (_, refl)
prepare_ddl_spec-refused target d DdlAction.alter_database w refused = (_, refl)
prepare_ddl_spec-refused target d DdlAction.create_view w refused = (_, refl)
prepare_ddl_spec-refused target d DdlAction.alter_view w refused = (_, refl)
prepare_ddl_spec-refused target d DdlAction.drop_view w refused = (_, refl)

-- An operation that takes a column, an index or a primary key away, or defines a column anew.
abbrev pub IsDestructiveOperation : AlterAction → Type 0
IsDestructiveOperation a =
    (a ≡ AlterAction.drop_column)
    ⊎ ((a ≡ AlterAction.modify_column)
        ⊎ ((a ≡ AlterAction.change_column)
            ⊎ ((a ≡ AlterAction.drop_index) ⊎ (a ≡ AlterAction.drop_primary_key))))

-- The statements that docs/PHASE_1_5_BUSINESS_TRACKING.md wants refused: TRUNCATE, DROP DATABASE, DROP INDEX
-- and an ALTER TABLE with a destructive operation.
abbrev pub IsDestructive : DdlSpec → Type 0
IsDestructive d =
    (d.action ≡ DdlAction.truncate_table)
    ⊎ ((d.action ≡ DdlAction.drop_database)
        ⊎ ((d.action ≡ DdlAction.drop_index)
            ⊎ ((d.action ≡ DdlAction.alter_table)
                × ((op : AlterOperation) × Memᴰ op d.alter_operations
                    × IsDestructiveOperation op.action))))

operation-IsDestructive :
    (op : AlterOperation) → IsDestructiveOperation op.action → operation_can_be_undone op ≡ false
unfolding operation_can_be_undone
operation-IsDestructive op (inl e) = rw (operation_can_be_undone, e) refl
operation-IsDestructive op (inr (inl e)) = rw (operation_can_be_undone, e) refl
operation-IsDestructive op (inr (inr (inl e))) = rw (operation_can_be_undone, e) refl
operation-IsDestructive op (inr (inr (inr (inl e)))) = rw (operation_can_be_undone, e) refl
operation-IsDestructive op (inr (inr (inr (inr e)))) = rw (operation_can_be_undone, e) refl

all_can_be_undone-cons :
    (x : AlterOperation) (l : List AlterOperation)
    → (operation_can_be_undone x ≡ false) ⊎ (all_can_be_undone l ≡ false)
    → all_can_be_undone (x ∷ l) ≡ false
unfolding all_can_be_undone
all_can_be_undone-cons x l (inl e) = rw e refl
all_can_be_undone-cons x l (inr h) = elim (Bool-cases (operation_can_be_undone x)) [
  | inl e ↦ rw e h
  | inr e ↦ rw e refl
]

reversed_onto :
    (ops l : List AlterOperation)
    → all_can_be_undone l ≡ false
    → all_can_be_undone (reverse_aux ops l) ≡ false
reversed_onto [] l h = h
reversed_onto (x ∷ ops) l h = reversed_onto ops (x ∷ l) (all_can_be_undone-cons x l (inr h))

reversed-IsDestructive :
    (ops l : List AlterOperation) (op : AlterOperation)
    → Memᴰ op ops
    → operation_can_be_undone op ≡ false
    → all_can_be_undone (reverse_aux ops l) ≡ false
reversed-IsDestructive [] l op m h = elim m [ ]
reversed-IsDestructive (x ∷ ops) l op (Memᴰ.head e) h =
    let here : operation_can_be_undone x ≡ false = ap operation_can_be_undone (sym e) ∙ h in
    reversed_onto ops (x ∷ l) (all_can_be_undone-cons x l (inl here))
reversed-IsDestructive (x ∷ ops) l op (Memᴰ.tail m) h = reversed-IsDestructive ops (x ∷ l) op m h

can_be_undone-IsDestructive : (d : DdlSpec) → IsDestructive d → can_be_undone d ≡ false
unfolding can_be_undone
can_be_undone-IsDestructive d (inl e) = rw (can_be_undone, e) refl
can_be_undone-IsDestructive d (inr (inl e)) = rw (can_be_undone, e) refl
can_be_undone-IsDestructive d (inr (inr (inl e))) = rw (can_be_undone, e) refl
can_be_undone-IsDestructive d (inr (inr (inr (e, (op, m, bad))))) =
    rw (can_be_undone, e)
      (reversed-IsDestructive d.alter_operations [] op m (operation-IsDestructive op bad))

module _ (driver : Driver) (options : RequestOptions) where
  open driver use {World, target, clock, master_position}

  run_statement-without_undo :
      (thread_id : ℕ) (s : Statement) (d : DdlSpec) (w : World)
      → runs_directly options s ≡ false
      → s.ddl ≡ some d
      → can_be_undone d ≡ false
      → (r : ExecutionResult) × (run_statement driver options thread_id s w
          ≡ (stopped r, (master_position (clock w).1).1))
        × (r.executed ≡ false)
        × ((r.rule_id ≡ rule_binlog_prereq) ⊎ (r.rule_id ≡ rule_backup_failed))
        × (r.sequence ≡ s.sequence)
  unfolding run_statement run_backed_up prepare_ddl_rollback
  run_statement-without_undo thread_id s d w backed_up is_ddl refused =
      elim (Result-cases (master_position (clock w).1).0) [
        | inr (x, e) ↦ (
          record (empty_result s.sequence) { rule_id = rule_binlog_prereq; error = error_text x },
          simp (backed_up, run_backed_up, e),
          refl,
          inl refl,
          refl,
        )
        | inl (start, e) ↦
            let (x, f) =
              prepare_ddl_spec-refused target d d.action (master_position (clock w).1).1 refused in
            (
              record (empty_result s.sequence) {
                rule_id = rule_backup_failed;
                error = error_text x;
              },
              simp (backed_up, run_backed_up, prepare_ddl_rollback, e, is_ddl, f),
              refl,
              inr refl,
              refl,
            )
      ]

  -- With backup on, TRUNCATE, DROP DATABASE, DROP INDEX and an ALTER TABLE that drops or redefines a column or
  -- drops an index or the primary key are refused: the result is final and not executed, under the rule of the
  -- backup or of its binlog, and the state is the one after reading the clock and the binlog position, so that
  -- the statement was not sent to the target. DROP TABLE is not among them.
  pub run_statement-refused :
      (thread_id : ℕ) (s : Statement) (d : DdlSpec) (w : World)
      → runs_directly options s ≡ false
      → s.ddl ≡ some d
      → IsDestructive d
      → (r : ExecutionResult) × (run_statement driver options thread_id s w
          ≡ (stopped r, (master_position (clock w).1).1))
        × (r.executed ≡ false)
        × ((r.rule_id ≡ rule_binlog_prereq) ⊎ (r.rule_id ≡ rule_backup_failed))
        × (r.sequence ≡ s.sequence)
  run_statement-refused thread_id s d w backed_up is_ddl bad =
      run_statement-without_undo thread_id s d w backed_up is_ddl
        (can_be_undone-IsDestructive d bad)
