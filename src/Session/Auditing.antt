-- ===== src/Session/Auditing.antt =====
-- internal/session/session.go: `Audit` up to the gate of the execution. The parser is a parameter.
-- The request cache is neither a `GrantChecker` nor an `ImpactEstimatorWithRule`, so the branches of
-- the two are never taken.
pub mod Laws
use goinception_plus.Prelude.{
  ℕ, Bool, true, false, not, ◌&&◌, ◌||◌, Option, none, some, List, [], ◌∷◌, ◌++◌, map, is_empty,
  ltb, if◌then◌else◌, ◌==◌, nat_eq, text_eq,
}
use goinception_plus.Strings.{Text, txt, to_lower, trim_space, contains, has_prefix}
use goinception_plus.Strings.Format.{sprintf, quoted}
use goinception_plus.Model.{
  Severity, AuditIssue, AuditRecord, DdlSpec, DmlSpec, StatementKind, Statement, ParseResult,
  RequestOptions, TargetOptions,
}
use goinception_plus.Audit.Types.{ServerInfo, Error, error_text, Result, ok, err}
use goinception_plus.Audit.Codes.{
  rule_schema_not_found, rule_no_database, rule_dml_impact_estimate, rule_ddl_metadata,
  rule_parser_warning, rule_parser_error, rule_target_version,
}
use goinception_plus.Audit.Policy.{Policy, legacy_string, legacy_int}
use goinception_plus.Audit.Engine.{Context, Rule, check}
use goinception_plus.Metadata.Cache.{
  MetadataProvider, Provider, schema_of, estimate_impact, new_request_cache,
}
use goinception_plus.Metadata.Snapshot.{prepare_ddl, apply_ddl}
use goinception_plus.Session.Records.{new_issue, make_record, failure_record}
use goinception_plus.Session.Database.{resolve_statement_database, requires_database}

unfoldable pub supported_mysql_version : Text → Bool
supported_mysql_version version =
    let v = trim_space (to_lower version) in
    not (contains v (txt "mariadb") || contains v (txt "tidb"))
    && (has_prefix v (txt "5.7.") || v == txt "5.7" || has_prefix v (txt "8.0.") || v == txt "8.0")

-- The options of the target for the request.
unfoldable pub target_options : Policy → ServerInfo → TargetOptions → TargetOptions
target_options policy server target =
    let configured = trim_space (legacy_string policy (txt "sql_mode")) in
    record target {
      version = server.version;
      sql_mode = if configured == [] then server.sql_mode else configured;
      sql_safe_updates = legacy_int policy (txt "sql_safe_updates");
      lock_wait_timeout = legacy_int policy (txt "lock_wait_timeout");
      default_charset = legacy_string policy (txt "default_charset");
    }

is_use : Statement → Bool
is_use s = elim s.kind [ StatementKind.use_database ↦ true | _ ↦ false ]

is_insert : Statement → Bool
is_insert s = elim s.kind [ StatementKind.insert ↦ true | _ ↦ false ]

-- The changes whose rows are estimated.
is_estimated : Statement → DmlSpec → Bool
is_estimated s m = elim s.kind [
  | StatementKind.update ↦ true
  | StatementKind.delete ↦ true
  | _ ↦ m.insert_select
]

is_error : AuditRecord → Bool
is_error r = elim r.error_level [ Severity.error ↦ true | _ ↦ false ]

abbrev pub warning_issue : ℕ → Text → AuditIssue
warning_issue sequence message = record {
  rule_id = rule_parser_warning;
  legacy_key = [];
  code = 0;
  level = Severity.warning;
  message = message;
  sequence = sequence;
}

module _ (source : MetadataProvider) where
  -- The statement, its issues so far and the context.
  abbrev pub Stage : Type 0
  Stage = Statement × List AuditIssue × Context source

  unfoldable pub select_database : Statement → Context source → Stage
  unfolding is_use
  select_database s c =
      let (loaded, p) = schema_of source s.database c.metadata in
      let resolved = resolve_statement_database c.database s in
      if is_use s
      then elim loaded [
        | err e ↦ (
          s,
          new_issue rule_schema_not_found s.sequence
                (sprintf "database %s is unavailable: %s" (quoted s.database ∷ error_text e ∷ []))
              ∷ [],
          record c { metadata = p },
        )
        | ok schema ↦ (s, [], record c { metadata = p; database = s.database })
      ]
      else if requires_database resolved && resolved.database == []
      then (resolved, new_issue rule_no_database s.sequence (txt "No database selected.") ∷ [], c)
      else (resolved, [], c)

  unfoldable pub estimate : Statement → DmlSpec → Context source → Stage
  unfolding is_insert is_estimated
  estimate s m c =
      let (result, p) = estimate_impact source c.database s.normalized c.metadata in
      if is_insert s && ltb 0 m.value_rows
      then (
        record s {
          dml = some (record m { estimated_rows = m.value_rows; estimate_method = txt "values" });
        },
        [],
        c,
      )
      else if ltb 0 c.policy.max_affected_rows && is_estimated s m
      then elim result [
        | err e ↦ (
          s,
          new_issue rule_dml_impact_estimate s.sequence (error_text e) ∷ [],
          record c { metadata = p },
        )
        | ok found ↦ (
          record s {
            dml = some (record m { estimated_rows = found.rows; estimate_method = found.method });
          },
          [],
          record c { metadata = p },
        )
      ]
      else (s, [], c)

  unfoldable pub prepare : Statement → DdlSpec → Context source → Stage
  prepare s d c =
      let (failed, d', p) = prepare_ddl source d c.metadata in
      let s' = record s { ddl = some d' } in
      elim failed [
        | none ↦ (s', [], record c { metadata = p })
        | some e ↦ (
          s',
          new_issue rule_ddl_metadata s.sequence (error_text e) ∷ [],
          record c { metadata = p },
        )
      ]

  -- The checks before the rules, each if the ones before found nothing.
  unfoldable pub estimated : Stage → Stage
  unfolding estimate
  estimated (s, issues, c) =
      if is_empty issues
      then elim s.dml [ none ↦ (s, [], c) | some m ↦ estimate s m c ]
      else (s, issues, c)

  unfoldable pub prepared : Stage → Stage
  unfolding prepare
  prepared (s, issues, c) =
      if is_empty issues && s.supported
      then elim s.ddl [ none ↦ (s, [], c) | some d ↦ prepare s d c ]
      else (s, issues, c)

  -- The schema view after a statement whose record has no error.
  unfoldable pub applied :
      Statement → List AuditIssue → Context source → AuditRecord × Context source
  unfolding is_error
  applied s issues c =
      let r = make_record s issues in
      if is_error r || not s.supported then (r, c) else elim s.ddl [
        | none ↦ (r, c)
        | some d ↦
            let (failed, p) = apply_ddl source d c.metadata in
            elim failed [
              | none ↦ (r, record c { metadata = p })
              | some e ↦ (
                make_record s
                    (issues ++ (new_issue rule_ddl_metadata s.sequence (error_text e) ∷ [])),
                record c { metadata = p },
              )
            ]
      ]

  unfoldable pub audit_statement :
      List (Rule source)
      → List Text
      → Statement
      → Context source
      → Statement × AuditRecord × Context source
  audit_statement rules warnings s0 c0 =
      let (s, issues, c) = prepared (estimated (select_database s0 c0)) in
      let (found, c1) = check source rules c s in
      let warned = if s.sequence == 1 then map (warning_issue s.sequence) warnings else [] in
      let (r, c2) = applied s (issues ++ (found ++ warned)) c1 in (s, r, c2)

  -- A statement shares its projections with the audited one, but not its database.
  abbrev pub shared : Statement → Statement → Statement
  shared s audited = record s { ddl = audited.ddl; dml = audited.dml }

  -- The records, and the statements as the execution will see them.
  unfoldable pub audit_statements :
      List (Rule source)
      → List Text
      → List Statement
      → Context source
      → List AuditRecord × List Statement
  unfolding audit_statement
  audit_statements rules warnings [] c = ([], [])
  audit_statements rules warnings (s ∷ rest) c =
      let (audited, r, c1) = audit_statement rules warnings s c in
      let (records, statements) = audit_statements rules warnings rest c1 in
      (r ∷ records, shared s audited ∷ statements)

  -- The audit of a request on an open target: its options, records and statements.
  unfoldable pub audit_request :
      (Text → Text → Result ParseResult)
      → List (Rule source)
      → Policy
      → ServerInfo
      → RequestOptions
      → Text
      → source.World
      → RequestOptions × List AuditRecord × List Statement
  unfolding audit_statements supported_mysql_version target_options
  audit_request parse rules policy server request sql w =
      let options = record request { target = target_options policy server request.target } in
      let unsupported =
        sprintf "unsupported target server version %s; only MySQL 5.7 and 8.0 are supported"
          (quoted server.version ∷ []) in
      if not (supported_mysql_version server.version)
      then (request, failure_record 1 [] rule_target_version unsupported ∷ [], [])
      else elim (parse sql options.target.sql_mode) [
        | err e ↦ (options, failure_record 1 sql rule_parser_error (error_text e) ∷ [], [])
        | ok parsed ↦
            let c : Context source = record {
              request = options;
              database = options.target.database;
              metadata = new_request_cache source w (not (server.lower_case_table_names == 0));
              policy = policy;
              server = server;
              seen_alter_tables = [];
            } in
            let (records, statements) =
              audit_statements rules parsed.warnings parsed.statements c in
            (options, records, statements)
      ]
