-- ===== src/Session/Records/Levels.antt =====
-- The level of a record of internal/session/session.go and the levels of its issues.
use goinception_plus.Prelude.{
  ◌≤◌, List, [], ◌∷◌, All, ◌≡◌, refl, ◌⊎◌, inl, inr, arith, Bool-cases, ltb, ltb→lt, lt→ltb,
}
use goinception_plus.Model.{Severity, AuditIssue, Statement}
use goinception_plus.Session.Records.{rank, highest_level, make_record}

-- Some issue has the level.
abbrev pub HasLevel : Severity → List AuditIssue → Type 0
HasLevel v [] = ⊥
HasLevel v (issue ∷ rest) = (issue.level ≡ v) ⊎ HasLevel v rest

-- A level that bounds the start and every issue, and is one of them.
pub record IsHighest (start v : Severity) (issues : List AuditIssue) : Type 0 where
  pub from_start : rank start ≤ rank v
  pub bounds : All (λ i. rank i.level ≤ rank v) issues
  pub reached : (v ≡ start) ⊎ HasLevel v issues

highest_level-IsHighest :
    (start : Severity) (issues : List AuditIssue)
    → IsHighest start (highest_level start issues) issues
unfolding highest_level
highest_level-IsHighest start [] = record {
  from_start = omega arith;
  bounds = tt;
  reached = inl refl;
}
highest_level-IsHighest start (issue ∷ rest) =
    elim (Bool-cases (ltb (rank start) (rank issue.level))) [
      | inl e ↦
          let ih = highest_level-IsHighest issue.level rest in
          let lt = ltb→lt (rank start) (rank issue.level) e in
          rw e (record {
            from_start = ground (arith, ih.from_start, lt);
            bounds = (ih.from_start, ih.bounds);
            reached = raised issue.level rest ih.reached;
          })
      | inr e ↦
          let ih = highest_level-IsHighest start rest in
          rw e (record {
            from_start = ih.from_start;
            bounds = (
              ground (arith, ih.from_start, e, lt→ltb (rank start) (rank issue.level)),
              ih.bounds,
            );
            reached = kept ih.reached;
          })
    ]
  where
    raised :
        (v : Severity) (l : List AuditIssue)
        → (highest_level v l ≡ v) ⊎ HasLevel (highest_level v l) l
        → (highest_level v l ≡ start) ⊎ ((v ≡ highest_level v l) ⊎ HasLevel (highest_level v l) l)
    raised v l (inl e) = inr (inl (cc e))
    raised v l (inr h) = inr (inr h)

    kept :
        (highest_level start rest ≡ start) ⊎ HasLevel (highest_level start rest) rest
        → (highest_level start rest ≡ start)
          ⊎ ((issue.level ≡ highest_level start rest) ⊎ HasLevel (highest_level start rest) rest)
    kept (inl e) = inl e
    kept (inr h) = inr (inr h)

-- The level of the record made for a statement bounds the levels of its issues, and is one of them
-- unless there is none.
pub make_record-IsHighest :
    (s : Statement) (issues : List AuditIssue)
    → IsHighest Severity.no_severity (make_record s issues).error_level issues
unfolding make_record
make_record-IsHighest s issues = highest_level-IsHighest Severity.no_severity issues
