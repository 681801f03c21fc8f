-- ===== src/Tests/Session.antt =====
-- Examples of the theorems on the audit of a request.
use goinception_plus.Prelude.{
  Memᴰ, ℕ, suc, true, false, none, some, List, [], ◌∷◌, ◌++◌, map, All, ◌≡◌, refl, arith, get_elem?,
  text_beq,
}
use goinception_plus.Strings.{Text, txt, to_lower}
use goinception_plus.Strings.Dict.{lookup}
use goinception_plus.Model.{
  Severity, AuditIssue, AuditRecord, DdlAction, StatementKind, Statement, ExecutionResult,
}
use goinception_plus.Audit.Codes.{rule_ddl_drop_table}
use goinception_plus.Audit.Policy.{legacy_defaults}
use goinception_plus.Audit.Engine.{Context, Rule, check}
use goinception_plus.Audit.Engine.Laws.{IsLabelled, IsReportOf, check-IsComplete}
use goinception_plus.Metadata.Cache.{table_of}
use goinception_plus.Metadata.Snapshot.{prepare_ddl}
use goinception_plus.Session.Records.{make_record}
use goinception_plus.Session.Records.Levels.{IsHighest, make_record-IsHighest}
use goinception_plus.Session.Database.{resolve_statement_database, requires_database}
use goinception_plus.Session.Database.Qualified.{
  IsQualified, KeepsOthers, resolve_statement_database-IsQualified,
}
use goinception_plus.Session.Merging.{Executor, execute_audited, merge_results}
use goinception_plus.Session.Merging.Merged.{IsMerged}
use goinception_plus.Session.Merging.Laws.{Admits, execute_audited-Admits, merge_results-recorded}
use goinception_plus.Session.Auditing.{
  select_database, estimated, prepared, audit_statement, audit_statements,
}
use goinception_plus.Session.Auditing.Laws.{
  record_line, original_line, normalized_line, audit_statements-records, audit_statement-refused,
}
use goinception_plus.Tests.Data.{app, ddl, statement, source, start}
use goinception_plus.Tests.Execution.{options}

abbrev sample_issue : Severity → AuditIssue
sample_issue level = record {
  rule_id = rule_ddl_drop_table;
  legacy_key = [];
  code = 0;
  level = level;
  message = txt "DROP TABLE is disabled";
  sequence = 1;
}

-- A rule that reports one issue that is turned off and one warning.
abbrev drop_rule : Rule source
drop_rule = record {
  id = rule_ddl_drop_table;
  run = λ c s. (sample_issue Severity.no_severity ∷ sample_issue Severity.warning ∷ [], c);
}

abbrev rules : List (Rule source)
rules = drop_rule ∷ []

abbrev pub context : Context source
context = record {
  request = options;
  database = app;
  metadata = start;
  policy = legacy_defaults;
  server = record {
    version = txt "8.0.35";
    sql_mode = [];
    lower_case_table_names = 1;
    character_set_server = [];
    collation_server = [];
    explicit_defaults_for_timestamp = true;
  };
  seen_alter_tables = [];
}

abbrev drop_missing : Statement
drop_missing =
    statement 1 StatementKind.drop_table (some (ddl DdlAction.drop_table (txt "missing")))

check-IsComplete_example :
    ((x : AuditIssue) × Memᴰ x (check source (rules ++ rules) context drop_missing).0
      × IsReportOf (sample_issue Severity.warning) x)
    × All IsLabelled (check source (rules ++ rules) context drop_missing).0
check-IsComplete_example =
    check-IsComplete source rules [] drop_rule context drop_missing (sample_issue Severity.warning)
      (Memᴰ.tail (Memᴰ.head refl)) (λ e. cc e)

make_record-IsHighest_example :
    IsHighest Severity.no_severity
      (make_record drop_missing
        (sample_issue Severity.warning ∷ sample_issue Severity.no_severity ∷ [])).error_level
      (sample_issue Severity.warning ∷ sample_issue Severity.no_severity ∷ [])
make_record-IsHighest_example =
    make_record-IsHighest drop_missing
      (sample_issue Severity.warning ∷ sample_issue Severity.no_severity ∷ [])

resolve_statement_database-IsQualified_example :
    IsQualified (resolve_statement_database app (record drop_missing { database = [] }))
    × KeepsOthers drop_missing.ddl
        (resolve_statement_database app (record drop_missing { database = [] })).ddl
resolve_statement_database-IsQualified_example =
    resolve_statement_database-IsQualified app (record drop_missing { database = [] }) (λ e. cc e)

audit_statements-records_example :
    (map record_line (audit_statements source rules [] (drop_missing ∷ drop_missing ∷ []) context).0
      ≡ map original_line (drop_missing ∷ drop_missing ∷ []))
    × (map normalized_line
          (audit_statements source rules [] (drop_missing ∷ drop_missing ∷ []) context).1
        ≡ map normalized_line (drop_missing ∷ drop_missing ∷ []))
audit_statements-records_example =
    audit_statements-records source rules [] (drop_missing ∷ drop_missing ∷ []) context

audit_statement-refused_example :
    ((audit_statement source rules [] drop_missing context).1.error_level ≡ Severity.error)
    × ((audit_statement source rules [] drop_missing context).2
        ≡ (check source rules
            (prepared source (estimated source (select_database source drop_missing context))).2
            (prepared source (estimated source (select_database source drop_missing context))).0).1)
unfolding select_database estimated prepared prepare_ddl text_beq table_of lookup to_lower
    requires_database resolve_statement_database
audit_statement-refused_example = audit_statement-refused source rules [] drop_missing context refl

abbrev audited : ℕ → AuditRecord
audited n = record {
  sequence = n;
  stage = txt "CHECKED";
  error_level = Severity.no_severity;
  stage_status = txt "Checked";
  error_message = [];
  sql = [];
  affected_rows = 0;
  backup_database = [];
  execute_time = 0;
  sql_sha1 = [];
  backup_completed = false;
  backup_time = 0;
  operation_id = [];
  issues = [];
}

abbrev result : ℕ → Text → ExecutionResult
result n error = record {
  sequence = n;
  affected_rows = 1;
  duration = 5;
  error = error;
  rule_id = [];
  backup_database = [];
  backup_completed = false;
  backup_duration = 0;
  sequence_id = [];
  executed = true;
}

abbrev executor : Executor
executor = record {
  World = ℕ;
  configured = true;
  open_engine = λ target w. (none, suc w);
  execute = λ o statements w. (result 1 [] ∷ [], suc w);
}

execute_audited-Admits_example :
    (options.execute ≡ true) × All (Admits options.ignore_warnings) (audited 1 ∷ [])
unfolding execute_audited
execute_audited-Admits_example =
    execute_audited-Admits executor options (drop_missing ∷ []) (audited 1 ∷ []) 0
      (λ e. absurd (omega arith))

merge_results-recorded_example :
    (r' : AuditRecord) × (get_elem?
        (merge_results
          ((result 1 [] ∷ []) ++ (result 2 (txt "lost") ∷ []))
          (audited 1 ∷ audited 2 ∷ []))
        1
      ≡ some r')
    × IsMerged (result 2 (txt "lost")) (audited 2) r'
merge_results-recorded_example =
    merge_results-recorded (result 1 [] ∷ []) [] (result 2 (txt "lost"))
      (audited 1 ∷ audited 2 ∷ []) 1 (audited 2) ((refl, λ e. absurd (omega arith)), tt) tt refl
      refl
