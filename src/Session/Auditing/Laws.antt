-- ===== src/Session/Auditing/Laws.antt =====
-- The records of `Audit` in internal/session/session.go against the statements, and its checks before
-- the rules.
use goinception_plus.Prelude.{
  ℕ, ◌≤◌, false, List, [], ◌∷◌, ◌++◌, map, is_empty, All, ◌≡◌, refl, arith, Option-cases, inl, inr,
  if◌then◌else◌, ◌==◌, nat_eq, ap, ◌∙◌, subst,
}
use goinception_plus.Strings.{Text}
use goinception_plus.Model.{Severity, AuditIssue, AuditRecord, DdlSpec, DmlSpec, Statement}
use goinception_plus.Audit.Engine.{Context, Rule, check}
use goinception_plus.Metadata.Cache.{MetadataProvider}
use goinception_plus.Session.Records.{new_issue, make_record, rank}
use goinception_plus.Session.Records.Levels.{make_record-IsHighest}
use goinception_plus.Session.Database.{resolve_statement_database}
use goinception_plus.Session.Auditing.{
  Stage, select_database, estimate, prepare, estimated, prepared, applied, warning_issue,
  audit_statement, audit_statements,
}

-- What the audit never changes of a statement.
abbrev SameText : Statement → Statement → Type 0
SameText s s' =
    (s'.sequence ≡ s.sequence) × (s'.original ≡ s.original) × (s'.normalized ≡ s.normalized)

abbrev pub record_line : AuditRecord → ℕ × Text
record_line r = (r.sequence, r.sql)

abbrev pub original_line : Statement → ℕ × Text
original_line s = (s.sequence, s.original)

abbrev pub normalized_line : Statement → ℕ × Text
normalized_line s = (s.sequence, s.normalized)

resolve-SameText : (v : Text) (s : Statement) → SameText s (resolve_statement_database v s)
unfolding resolve_statement_database
resolve-SameText v s = (refl, refl, refl)

module _ (source : MetadataProvider) where
  select_database-SameText :
      (s : Statement) (c : Context source) → SameText s (select_database source s c).0
  unfolding select_database
  select_database-SameText s c = ground (arith, resolve-SameText c.database s)

  estimate-SameText :
      (s : Statement) (m : DmlSpec) (c : Context source) → SameText s (estimate source s m c).0
  unfolding estimate
  estimate-SameText s m c = ground arith

  estimated-SameText : (st : Stage source) → SameText st.0 (estimated source st).0
  unfolding estimated
  estimated-SameText (s, issues, c) = elim (Option-cases s.dml) [
    | inl e ↦ ground (arith, e)
    | inr (m, e) ↦ ground (arith, e, estimate-SameText s m c)
  ]

  prepare-SameText :
      (s : Statement) (d : DdlSpec) (c : Context source) → SameText s (prepare source s d c).0
  unfolding prepare
  prepare-SameText s d c = ground arith

  prepared-SameText : (st : Stage source) → SameText st.0 (prepared source st).0
  unfolding prepared
  prepared-SameText (s, issues, c) = elim (Option-cases s.ddl) [
    | inl e ↦ ground (arith, e)
    | inr (d, e) ↦ ground (arith, e, prepare-SameText s d c)
  ]

  checked-SameText :
      (s : Statement) (c : Context source)
      → SameText s (prepared source (estimated source (select_database source s c))).0
  checked-SameText s c = ground (
    arith,
    select_database-SameText s c,
    estimated-SameText (select_database source s c),
    prepared-SameText (estimated source (select_database source s c)),
  )

  applied-SameText :
      (s : Statement) (issues : List AuditIssue) (c : Context source)
      → ((applied source s issues c).0.sequence ≡ s.sequence)
        × ((applied source s issues c).0.sql ≡ s.original)
  unfolding applied make_record
  applied-SameText s issues c = ground arith

  audit_statement-SameText :
      (rules : List (Rule source)) (warnings : List Text) (s : Statement) (c : Context source)
      → SameText s (audit_statement source rules warnings s c).0
        × ((audit_statement source rules warnings s c).1.sequence ≡ s.sequence)
        × ((audit_statement source rules warnings s c).1.sql ≡ s.original)
  unfolding audit_statement
  audit_statement-SameText rules warnings s c =
      let st = prepared source (estimated source (select_database source s c)) in
      let same = checked-SameText s c in
      let made = applied-SameText st.0 _ (check source rules st.2 st.0).1 in
      (same, made.0 ∙ same.0, made.1 ∙ same.1)

  -- There is one record for each statement of the batch, in its order, with its sequence number and
  -- its text, and the execution gets the same statements with the same SQL.
  pub audit_statements-records :
      (rules : List (Rule source)) (warnings : List Text) (statements : List Statement)
      (c : Context source)
      → (map record_line (audit_statements source rules warnings statements c).0
          ≡ map original_line statements)
        × (map normalized_line (audit_statements source rules warnings statements c).1
            ≡ map normalized_line statements)
  unfolding audit_statements
  audit_statements-records rules warnings [] c = (refl, refl)
  audit_statements-records rules warnings (s ∷ rest) c =
      let here = audit_statement-SameText rules warnings s c in
      let there =
        audit_statements-records rules warnings rest
          (audit_statement source rules warnings s c).2 in
      (cc (here.1, here.2, there.0), cc there.1)

  abbrev AllErrors : List AuditIssue → Type 0
  AllErrors issues = All (λ i. i.level ≡ Severity.error) issues

  select_database-AllErrors :
      (s : Statement) (c : Context source) → AllErrors (select_database source s c).1
  unfolding select_database new_issue
  select_database-AllErrors s c = ground arith

  estimate-AllErrors :
      (s : Statement) (m : DmlSpec) (c : Context source) → AllErrors (estimate source s m c).1
  unfolding estimate new_issue
  estimate-AllErrors s m c = ground arith

  estimated-AllErrors : (st : Stage source) → AllErrors st.1 → AllErrors (estimated source st).1
  unfolding estimated
  estimated-AllErrors (s, issues, c) h = elim (Option-cases s.dml) [
    | inl e ↦ ground (arith, e, h)
    | inr (m, e) ↦ ground (arith, e, h, estimate-AllErrors s m c)
  ]

  prepare-AllErrors :
      (s : Statement) (d : DdlSpec) (c : Context source) → AllErrors (prepare source s d c).1
  unfolding prepare new_issue
  prepare-AllErrors s d c = ground arith

  prepared-AllErrors : (st : Stage source) → AllErrors st.1 → AllErrors (prepared source st).1
  unfolding prepared
  prepared-AllErrors (s, issues, c) h = elim (Option-cases s.ddl) [
    | inl e ↦ ground (arith, e, h)
    | inr (d, e) ↦ ground (arith, e, h, prepare-AllErrors s d c)
  ]

error_is_highest : (v : Severity) → 2 ≤ rank v → v ≡ Severity.error
unfolding rank
error_is_highest Severity.no_severity h = absurd (omega arith)
error_is_highest Severity.warning h = absurd (omega arith)
error_is_highest Severity.error h = refl

-- An error first among the issues makes the record an error.
make_record-error :
    (s : Statement) (issues more : List AuditIssue)
    → All (λ i. i.level ≡ Severity.error) issues
    → is_empty issues ≡ false
    → (make_record s (issues ++ more)).error_level ≡ Severity.error
unfolding rank
make_record-error s [] more h nonempty = absurd (cc nonempty)
make_record-error s (i ∷ rest) more h nonempty =
    error_is_highest (make_record s (i ∷ (rest ++ more))).error_level (
      subst (λ v. rank v ≤ rank (make_record s (i ∷ (rest ++ more))).error_level) h.0
        (make_record-IsHighest s (i ∷ (rest ++ more))).bounds.0)

module _ (source : MetadataProvider) where
  applied-error :
      (s : Statement) (issues : List AuditIssue) (c : Context source)
      → (make_record s issues).error_level ≡ Severity.error
      → applied source s issues c ≡ (make_record s issues, c)
  unfolding applied
  applied-error s issues c e = ground (arith, e)

  -- If a check before the rules finds an issue (the database, the estimate of the rows, or the
  -- objects of a DDL statement), the record of the statement is an error and the statement is not
  -- applied to the schema view: the context is the one that the rules leave.
  pub audit_statement-refused :
      (rules : List (Rule source)) (warnings : List Text) (s : Statement) (c : Context source)
      → let st = prepared source (estimated source (select_database source s c)) in
        is_empty st.1 ≡ false
        → ((audit_statement source rules warnings s c).1.error_level ≡ Severity.error)
          × ((audit_statement source rules warnings s c).2 ≡ (check source rules st.2 st.0).1)
  unfolding audit_statement
  audit_statement-refused rules warnings s c h =
      let st = prepared source (estimated source (select_database source s c)) in
      let more =
        (check source rules st.2 st.0).0
        ++ (if st.0.sequence == 1 then map (warning_issue st.0.sequence) warnings else []) in
      let errors = prepared-AllErrors source (estimated source (select_database source s c)) (
        estimated-AllErrors source (select_database source s c)
          (select_database-AllErrors source s c)) in
      let level = make_record-error st.0 st.1 more errors h in
      let same = applied-error st.0 (st.1 ++ more) (check source rules st.2 st.0).1 level in
      (ap (λ x. x.0.error_level) same ∙ level, ap (λ x. x.1) same)
