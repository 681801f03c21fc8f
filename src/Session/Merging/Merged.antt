-- ===== src/Session/Merging/Merged.antt =====
-- What the merge of internal/session/session.go makes of one record.
use goinception_plus.Prelude.{
  true, false, [], ◌∷◌, ◌++◌, ◌==◌, nat_eq, text_eq, ◌≡◌, ◌≢◌, refl, ◌⊎◌, inl, inr, Bool-cases,
  text_beq_iff, text_beq, ◌&&◌, if◌then◌else◌,
}
use goinception_plus.Model.{Severity, AuditIssue, AuditRecord, ExecutionResult}
use goinception_plus.Strings.{txt}
use goinception_plus.Audit.Codes.{rule_execution_failed, rule_backup_failed}
use goinception_plus.Session.Records.{
  new_issue, append_failure, append_backup_error, append_execution_error,
}
use goinception_plus.Session.Merging.{done_record, failed_record, merge_record}

-- What a result leaves of a record. The statement keeps its number and text and gets the measures and the
-- backup of the result. Without an error it keeps its issues and its level and gets the status of its last
-- stage; with one it gets an issue with the text of the error at the level of errors, under the rule of the
-- result or that of failed executions.
pub record IsMerged (x : ExecutionResult) (r r' : AuditRecord) : Type 0 where
  pub statement : (r'.sequence ≡ r.sequence) × (r'.sql ≡ r.sql) × (r'.sql_sha1 ≡ r.sql_sha1)
  pub measured : (r'.execute_time ≡ x.duration) × (r'.affected_rows ≡ x.affected_rows)
  pub backed_up :
      (r'.backup_database ≡ x.backup_database)
      × (r'.backup_completed ≡ x.backup_completed)
      × (r'.backup_time ≡ x.backup_duration)
      × (r'.operation_id ≡ x.sequence_id)
  pub finished :
      ((x.error ≡ [])
        × (r'.error_level ≡ r.error_level)
        × (r'.issues ≡ r.issues)
        × (r'.error_message ≡ r.error_message)
        × (r'.stage_status
            ≡ (if x.backup_completed then txt "BackupSuccessfully" else txt "ExecuteSuccessfully")))
      ⊎ ((x.error ≢ [])
          × (r'.error_level ≡ Severity.error)
          × (r'.stage_status ≡ (
              if x.rule_id == rule_backup_failed && x.executed
              then txt "BackupFailed"
              else txt "ExecuteFailed"))
          × ((issue : AuditIssue) × (r'.issues ≡ r.issues ++ (issue ∷ []))
              × (issue.message ≡ x.error)
              × (issue.level ≡ Severity.error)
              × (issue.sequence ≡ r.sequence)
              × (issue.rule_id ≡ (if x.rule_id == [] then rule_execution_failed else x.rule_id))))

merge_record-done :
    (x : ExecutionResult) (r : AuditRecord)
    → (x.error == []) ≡ true
    → IsMerged x r (merge_record x r)
unfolding merge_record done_record
merge_record-done x r e =
    let clean : x.error ≡ [] = (text_beq_iff x.error []).0 e in
    elim (Bool-cases x.backup_completed) [
      | inl b ↦
          rw (merge_record, e, b)
            (record {
              statement = (refl, refl, refl);
              measured = (refl, refl);
              backed_up = (refl, refl, refl, refl);
              finished = inl (clean, refl, refl, refl, refl);
            })
      | inr b ↦
          rw (merge_record, e, b)
            (record {
              statement = (refl, refl, refl);
              measured = (refl, refl);
              backed_up = (refl, refl, refl, refl);
              finished = inl (clean, refl, refl, refl, refl);
            })
    ]

merge_record-failed :
    (x : ExecutionResult) (r : AuditRecord)
    → (x.error == []) ≡ false
    → IsMerged x r (merge_record x r)
unfolding merge_record failed_record append_failure append_backup_error append_execution_error
    new_issue text_beq
merge_record-failed x r e =
    let failed : x.error ≢ [] = λ same. cc (e, (text_beq_iff x.error []).1 same) in
    elim (Bool-cases (x.rule_id == [])) [
      | inl b ↦
          let none_named : x.rule_id ≡ [] = (text_beq_iff x.rule_id []).0 b in
          rw (merge_record, e, b)
            (record {
              statement = (refl, refl, refl);
              measured = (refl, refl);
              backed_up = (refl, refl, refl, refl);
              finished =
                  inr (failed, refl, rw none_named refl, (_, refl, refl, refl, refl, rw b refl));
            })
      | inr b ↦ elim (Bool-cases (x.rule_id == rule_backup_failed && x.executed)) [
        | inl c ↦
            rw (merge_record, e, b, c)
              (record {
                statement = (refl, refl, refl);
                measured = (refl, refl);
                backed_up = (refl, refl, refl, refl);
                finished = inr (failed, refl, rw c refl, (_, refl, refl, refl, refl, rw b refl));
              })
        | inr c ↦
            rw (merge_record, e, b, c)
              (record {
                statement = (refl, refl, refl);
                measured = (refl, refl);
                backed_up = (refl, refl, refl, refl);
                finished = inr (failed, refl, rw c refl, (_, refl, refl, refl, refl, rw b refl));
              })
      ]
    ]

pub merge_record-IsMerged :
    (x : ExecutionResult) (r : AuditRecord) → IsMerged x r (merge_record x r)
merge_record-IsMerged x r = elim (Bool-cases (x.error == [])) [
  | inl e ↦ merge_record-done x r e
  | inr e ↦ merge_record-failed x r e
]
