-- ===== src/Rules/LegacyDdl/AlterOnce.antt =====
-- internal/audit/rules/legacy_ddl.go: a second ALTER TABLE of one table in a request.
use goinception_plus.Prelude.{
  ℕ, suc, Option, true, false, some, List, [], ◌∷◌, ◌++◌, ◌≡◌, refl, ap, sym, ◌∙◌, ◌⊎◌, inl, inr,
  arith, Bool-cases, text_eq, beq_refl, ltb,
}
use goinception_plus.Strings.{Text, txt}
use goinception_plus.Strings.Dict.{lookup, insert}
use goinception_plus.Model.{AuditIssue, DdlAction, DdlSpec, Statement}
use goinception_plus.Audit.Types.{Table}
use goinception_plus.Audit.Codes.{rule_ddl_alter_once}
use goinception_plus.Audit.Policy.{Policy}
use goinception_plus.Audit.Engine.{Context}
use goinception_plus.Metadata.Cache.{MetadataProvider}
use goinception_plus.Rules.LegacyDdl.{
  is_view_action, is_alter, reads_table, alter_key, times, alter_checks, table_name_checks,
  option_checks, ddl_checks, existing_table, count_alter, legacy_ddl,
}
use goinception_plus.Rules.LegacyDdl.Columns.{Check, report, name_checks}

-- Some issue is one of the rule.
abbrev pub Reports : Text → List AuditIssue → Type 0
Reports rule_id [] = ⊥
Reports rule_id (i ∷ rest) = (i.rule_id ≡ rule_id) ⊎ Reports rule_id rest

-- Some check of the rule fails.
abbrev IsFailed : Text → List Check → Type 0
IsFailed rule_id [] = ⊥
IsFailed rule_id (c ∷ rest) = ((c.wrong ≡ true) × (c.rule_id ≡ rule_id)) ⊎ IsFailed rule_id rest

append-IsFailed :
    (rule_id : Text) (l more : List Check) → IsFailed rule_id more → IsFailed rule_id (l ++ more)
append-IsFailed rule_id [] more h = h
append-IsFailed rule_id (c ∷ l) more h = inr (append-IsFailed rule_id l more h)

report-Reports :
    (p : Policy) (s : Statement) (rule_id : Text) (l : List Check)
    → IsFailed rule_id l
    → Reports rule_id (report p s l)
unfolding report
report-Reports p s rule_id [] h = absurd h
report-Reports p s rule_id (c ∷ rest) (inl (wrong, e)) = rw wrong (inl e)
report-Reports p s rule_id (c ∷ rest) (inr h) = elim (Bool-cases c.wrong) [
  | inl wrong ↦ rw wrong (inr (report-Reports p s rule_id rest h))
  | inr fine ↦ rw fine (report-Reports p s rule_id rest h)
]

alter_not_view : (action : DdlAction) → is_alter action ≡ true → is_view_action action ≡ false
alter_not_view action h = ground (arith, h)

ddl_checks-IsFailed :
    (p : Policy) (d : DdlSpec) (existing : Option Table) (seen : List (Text × ℕ))
    → is_alter d.action ≡ true
    → ltb 1 (times (alter_key d) seen) ≡ true
    → IsFailed rule_ddl_alter_once (ddl_checks p d existing seen)
unfolding ddl_checks alter_checks
ddl_checks-IsFailed p d existing seen alters twice =
    append-IsFailed rule_ddl_alter_once (name_checks p (txt "schema") d.schema) _ (
      append-IsFailed rule_ddl_alter_once (name_checks p (txt "table") d.table) _ (
        append-IsFailed rule_ddl_alter_once (table_name_checks p d.tables) _ (
          append-IsFailed rule_ddl_alter_once (option_checks p d) _
            (rw (alter_checks, alters) (inl (twice, refl))))))

times-insert : (key : Text) (n : ℕ) (seen : List (Text × ℕ)) → times key (insert key n seen) ≡ n
unfolding lookup
times-insert key n seen = rw (times, beq_refl key) refl

module _ (source : MetadataProvider) where
  existing_table_seen :
      (a : Context source) (d : DdlSpec)
      → (existing_table source a d).1.seen_alter_tables ≡ a.seen_alter_tables
  unfolding existing_table
  existing_table_seen a d = elim (Bool-cases (reads_table d.action)) [
    | inl reads ↦ rw (existing_table, reads) refl
    | inr other ↦ rw (existing_table, other) refl
  ]

  times-count_alter :
      (a : Context source) (d : DdlSpec)
      → is_alter d.action ≡ true
      → times (alter_key d) (count_alter source a d).seen_alter_tables
        ≡ suc (times (alter_key d) a.seen_alter_tables)
  unfolding count_alter
  times-count_alter a d alters =
      rw (count_alter, alters)
        (times-insert (alter_key d) (suc (times (alter_key d) a.seen_alter_tables))
          a.seen_alter_tables)

  legacy_ddl_seen :
      (a : Context source) (s : Statement) (d : DdlSpec)
      → s.ddl ≡ some d
      → is_alter d.action ≡ true
      → (legacy_ddl source a s).1.seen_alter_tables ≡ (count_alter source a d).seen_alter_tables
  unfolding legacy_ddl
  legacy_ddl_seen a s d e alters =
      rw (legacy_ddl, e, alter_not_view d.action alters)
        (existing_table_seen (count_alter source a d) d)

  -- After an ALTER TABLE, the next statement that alters a table of the same name, in whatever case, gets an
  -- issue of the rule that ALTERs should be merged, whatever happened to the rest of the context
  -- between them.
  pub legacy_ddl-Reports_merge :
      (a b : Context source) (s t : Statement) (d e : DdlSpec)
      → s.ddl ≡ some d
      → t.ddl ≡ some e
      → is_alter d.action ≡ true
      → is_alter e.action ≡ true
      → alter_key d ≡ alter_key e
      → b.seen_alter_tables ≡ (legacy_ddl source a s).1.seen_alter_tables
      → Reports rule_ddl_alter_once (legacy_ddl source b t).0
  unfolding legacy_ddl
  legacy_ddl-Reports_merge a b s t d e is_d is_e alters alters' same seen =
      let counted = existing_table source (count_alter source b e) e in
      let once : times (alter_key e) b.seen_alter_tables
          ≡ suc (times (alter_key d) a.seen_alter_tables) =
        ap (λ l. times (alter_key e) l) (seen ∙ legacy_ddl_seen a s d is_d alters)
        ∙ ap (λ k. times k (count_alter source a d).seen_alter_tables) (sym same)
        ∙ times-count_alter a d alters in
      let twice : times (alter_key e) counted.1.seen_alter_tables
          ≡ suc (suc (times (alter_key d) a.seen_alter_tables)) =
        ap (λ l. times (alter_key e) l) (existing_table_seen (count_alter source b e) e)
        ∙ times-count_alter b e alters'
        ∙ ap suc once in
      rw (legacy_ddl, is_e, alter_not_view e.action alters')
        (report-Reports b.policy t rule_ddl_alter_once
          (ddl_checks b.policy e counted.0 counted.1.seen_alter_tables)
          (ddl_checks-IsFailed b.policy e counted.0 counted.1.seen_alter_tables alters'
            (ground (arith, twice))))
