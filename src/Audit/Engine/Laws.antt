-- ===== src/Audit/Engine/Laws.antt =====
-- The issues that the engine of internal/audit/audit.go returns.
use goinception_plus.Prelude.{
  ◌++◌, ◌≢◌, ◌⊎◌, ◌∙◌, sym, ap, Memᴰ, Memᴰ-left, Memᴰ-right, none, Option-cases, true, some, List,
  [], ◌∷◌, map, keep, All, ◌≡◌, refl, arith, Bool-cases, inl, inr,
}
use goinception_plus.Model.{Severity, AuditIssue, Statement}
use goinception_plus.Audit.Catalog.{RuleDefinition, rule_by_code}
use goinception_plus.Audit.Engine.{Context, Rule, label, is_reported, check_rules, check}
use goinception_plus.Metadata.Cache.{MetadataProvider}

-- An issue that is reported under the catalog's legacy key.
pub record IsLabelled (issue : AuditIssue) : Type 0 where
  pub reported : is_reported issue ≡ true
  pub labelled :
      (d : RuleDefinition) → rule_by_code issue.rule_id ≡ some d → issue.legacy_key ≡ d.legacy_key

label-rule_id : (issue : AuditIssue) → (label issue).rule_id ≡ issue.rule_id
unfolding label
label-rule_id issue = ground arith

label-legacy_key :
    (issue : AuditIssue) (d : RuleDefinition)
    → rule_by_code issue.rule_id ≡ some d
    → (label issue).legacy_key ≡ d.legacy_key
unfolding label
label-legacy_key issue d e = rw (e, label) refl

kept_issues-IsLabelled :
    (issues : List AuditIssue) → All IsLabelled (keep is_reported (map label issues))
unfolding keep
kept_issues-IsLabelled [] = tt
kept_issues-IsLabelled (issue ∷ rest) = elim (Bool-cases (is_reported (label issue))) [
  | inl e ↦ rw e (
    record {
      reported = e;
      labelled = λ d found. label-legacy_key issue d (rw (label-rule_id issue) at found);
    },
    kept_issues-IsLabelled rest,
  )
  | inr e ↦ rw e (kept_issues-IsLabelled rest)
]

-- The issue as it is reported: under the legacy key of its rule, and else as the rule found it.
pub record IsReportOf (found x : AuditIssue) : Type 0 where
  pub rule_id : x.rule_id ≡ found.rule_id
  pub level : x.level ≡ found.level
  pub message : x.message ≡ found.message
  pub sequence : x.sequence ≡ found.sequence
  pub code : x.code ≡ found.code
  pub unknown : (rule_by_code found.rule_id ≢ none) ⊎ (x.legacy_key ≡ found.legacy_key)

label-IsReportOf : (issue : AuditIssue) → IsReportOf issue (label issue)
unfolding label
label-IsReportOf issue = elim (Option-cases (rule_by_code issue.rule_id)) [
  | inl e ↦
      rw (label, e)
        (record {
          rule_id = refl;
          level = refl;
          message = refl;
          sequence = refl;
          code = refl;
          unknown = inr refl;
        })
  | inr (d, e) ↦
      rw (label, e)
        (record {
          rule_id = refl;
          level = refl;
          message = refl;
          sequence = refl;
          code = refl;
          unknown = inl (λ n. cc n);
        })
]

level-is_reported :
    (issue : AuditIssue) (v : Severity)
    → v ≢ Severity.no_severity
    → is_reported (record issue { level = v }) ≡ true
level-is_reported issue Severity.no_severity h = absurd (h refl)
level-is_reported issue _ h = refl

Memᴰ-reported :
    (l : List AuditIssue) (issue : AuditIssue)
    → Memᴰ issue l
    → is_reported (label issue) ≡ true
    → Memᴰ (label issue) (keep is_reported (map label l))
unfolding keep
Memᴰ-reported [] issue m h = elim m [ ]
Memᴰ-reported (y ∷ l) issue (Memᴰ.head e) h =
    let here : is_reported (label y) ≡ true = ap (λ x. is_reported (label x)) (sym e) ∙ h in
    rw here (Memᴰ.head (ap label e))
Memᴰ-reported (y ∷ l) issue (Memᴰ.tail m) h = elim (Bool-cases (is_reported (label y))) [
  | inl shown ↦ rw shown (Memᴰ.tail (Memᴰ-reported l issue m h))
  | inr hidden ↦ rw hidden (Memᴰ-reported l issue m h)
]

module _ (source : MetadataProvider) where
  Memᴰ-check_rules :
      (before after : List (Rule source)) (r : Rule source) (c : Context source) (s : Statement)
      (issue : AuditIssue)
      → Memᴰ issue (r.run (check_rules source before c s).1 s).0
      → Memᴰ issue (check_rules source (before ++ (r ∷ after)) c s).0
  unfolding check_rules
  Memᴰ-check_rules [] after r c s issue m =
      Memᴰ-left issue (r.run c s).0 (check_rules source after (r.run c s).1 s).0 m
  Memᴰ-check_rules (q ∷ before) after r c s issue m =
      Memᴰ-right issue (q.run c s).0 (check_rules source (before ++ (r ∷ after)) (q.run c s).1 s).0
        (Memᴰ-check_rules before after r (q.run c s).1 s issue m)

  -- Every issue with a level that a rule finds, in the context that the rules before it leave, is among the issues
  -- of the engine, as it was found but for its legacy key; and every issue of the engine has a level other
  -- than none and carries the legacy key that the catalog gives its rule.
  pub check-IsComplete :
      (before after : List (Rule source)) (r : Rule source) (c : Context source) (s : Statement)
      (issue : AuditIssue)
      → Memᴰ issue (r.run (check source before c s).1 s).0
      → issue.level ≢ Severity.no_severity
      → ((x : AuditIssue) × Memᴰ x (check source (before ++ (r ∷ after)) c s).0
          × IsReportOf issue x)
        × All IsLabelled (check source (before ++ (r ∷ after)) c s).0
  unfolding check
  check-IsComplete before after r c s issue m leveled =
      let report = label-IsReportOf issue in
      let shown : is_reported (label issue) ≡ true =
        level-is_reported (label issue) (label issue).level (λ e. leveled (sym report.level ∙ e)) in
      (
        (
          label issue,
          Memᴰ-reported (check_rules source (before ++ (r ∷ after)) c s).0 issue
              (Memᴰ-check_rules before after r c s issue m) shown,
          report,
        ),
        kept_issues-IsLabelled (check_rules source (before ++ (r ∷ after)) c s).0,
      )
