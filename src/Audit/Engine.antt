-- ===== src/Audit/Engine.antt =====
-- internal/audit/audit.go: the context of a request and the engine that runs the rules.
pub mod Laws
use goinception_plus.Prelude.{
  ℕ, Bool, true, false, Option, none, some, List, [], ◌∷◌, ◌++◌, map, keep,
}
use goinception_plus.Strings.{Text}
use goinception_plus.Model.{Severity, AuditIssue, RequestOptions, Statement}
use goinception_plus.Audit.Types.{ServerInfo}
use goinception_plus.Audit.Catalog.{rule_by_code}
use goinception_plus.Audit.Policy.{Policy}
use goinception_plus.Metadata.Cache.{MetadataProvider, Provider}

-- The legacy key of the catalog on an issue.
unfoldable pub label : AuditIssue → AuditIssue
label issue = elim (rule_by_code issue.rule_id) [
  | none ↦ issue
  | some definition ↦ record issue { legacy_key = definition.legacy_key }
]

abbrev pub is_reported : AuditIssue → Bool
is_reported issue = elim issue.level [ Severity.no_severity ↦ false | _ ↦ true ]

module _ (source : MetadataProvider) where
  pub record Context : Type 0 where
    pub request : RequestOptions
    pub database : Text
    pub metadata : Provider source
    pub policy : Policy
    pub server : ServerInfo
    pub seen_alter_tables : List (Text × ℕ)

  -- A rule loads metadata and counts statements in its context.
  pub record Rule : Type 0 where
    pub id : Text
    pub run : Context → Statement → List AuditIssue × Context

  unfoldable pub check_rules : List Rule → Context → Statement → List AuditIssue × Context
  check_rules [] c s = ([], c)
  check_rules (r ∷ rest) c s =
      let (issues, c1) = r.run c s in
      let (others, c2) = check_rules rest c1 s in (issues ++ others, c2)

  unfoldable pub check : List Rule → Context → Statement → List AuditIssue × Context
  unfolding check_rules label keep
  check rules c s =
      let (issues, c') = check_rules rules c s in (keep is_reported (map label issues), c')
