-- ===== src/Session/Merging/Laws.antt =====
-- The gate of the execution in internal/session/session.go, and the records under the merge.
use goinception_plus.Prelude.{
  ℕ, zero, suc, ◌-◌, ◌<◌, Bool, true, false, not, ◌||◌, some, List, [], ◌∷◌, ◌++◌, set, get_elem?,
  length, ltb, ◌==◌, nat_eq, text_eq, All, ◌≡◌, ◌≢◌, refl, arith, ap, ◌⊎◌, inl, inr, Bool-cases,
  Option-cases, ◌∙◌, text_beq_iff,
}
use goinception_plus.Model.{Severity, AuditRecord, Statement, RequestOptions, ExecutionResult}
use goinception_plus.Session.Merging.{
  blocks, is_blocked, merge_record, merge_at, merge_results, Executor, execute_audited,
}
use goinception_plus.Session.Merging.Merged.{IsMerged, merge_record-IsMerged}

-- The record admits the execution.
abbrev pub Admits : Bool → AuditRecord → Type 0
Admits ignore_warnings r =
    (r.error_level ≢ Severity.error)
    × ((ignore_warnings ≡ true) ⊎ (r.error_level ≢ Severity.warning))

level-Admits :
    (ignore_warnings : Bool) (r : AuditRecord) (v : Severity)
    → blocks ignore_warnings (record r { error_level = v }) ≡ false
    → Admits ignore_warnings (record r { error_level = v })
unfolding blocks
level-Admits ignore_warnings r Severity.no_severity h = ((λ e. cc e), inr (λ e. cc e))
level-Admits true r Severity.warning h = ((λ e. cc e), inl refl)
level-Admits false r Severity.warning h = absurd (ground (arith, h))
level-Admits ignore_warnings r Severity.error h = absurd (ground (arith, h))

not_blocked-Admits :
    (ignore_warnings : Bool) (records : List AuditRecord)
    → is_blocked ignore_warnings records ≡ false
    → All (Admits ignore_warnings) records
unfolding is_blocked
not_blocked-Admits ignore_warnings [] h = tt
not_blocked-Admits ignore_warnings (r ∷ rest) h = (
  level-Admits ignore_warnings r r.error_level (ground (arith, h)),
  not_blocked-Admits ignore_warnings rest (ground (arith, h)),
)

-- The target changes only if the request asks for execution and no record has an error, nor a
-- warning unless warnings are ignored.
pub execute_audited-Admits :
    (executor : Executor) (options : RequestOptions) (statements : List Statement)
    (records : List AuditRecord) (w : executor.World)
    → (execute_audited executor options statements records w).1 ≢ w
    → (options.execute ≡ true) × All (Admits options.ignore_warnings) records
unfolding execute_audited
execute_audited-Admits executor options statements records w h =
    elim (Bool-cases (not options.execute || is_blocked options.ignore_warnings records)) [
      | inl e ↦ absurd (h (rw (e, execute_audited) refl))
      | inr e ↦ (
        ground (arith, e),
        not_blocked-Admits options.ignore_warnings records (ground (arith, e)),
      )
    ]

get_elem?-set_other {ℓ} :
    {A : Type ℓ} (l : List A) (i k : ℕ) (v : A) → i ≢ k → get_elem? (set l i v) k ≡ get_elem? l k
get_elem?-set_other [] i k v ne = refl
get_elem?-set_other (x ∷ l) zero zero v ne = absurd (ne refl)
get_elem?-set_other (x ∷ l) zero (suc k) v ne = refl
get_elem?-set_other (x ∷ l) (suc i) zero v ne = refl
get_elem?-set_other (x ∷ l) (suc i) (suc k) v ne = get_elem?-set_other l i k v (λ e. ne (ap suc e))

get_elem?-set_self {ℓ} :
    {A : Type ℓ} (l : List A) (i : ℕ) (v w : A)
    → get_elem? l i ≡ some w
    → get_elem? (set l i v) i ≡ some v
get_elem?-set_self [] i v w e = absurd (cc e)
get_elem?-set_self (x ∷ l) zero v w e = refl
get_elem?-set_self (x ∷ l) (suc i) v w e = get_elem?-set_self l i v w e

get_elem?_bound {ℓ} :
    {A : Type ℓ} (l : List A) (i : ℕ) (w : A) → get_elem? l i ≡ some w → i < length l
get_elem?_bound [] i w e = absurd (cc e)
get_elem?_bound (x ∷ l) zero w e = omega arith
get_elem?_bound (x ∷ l) (suc i) w e = omega (arith, get_elem?_bound l i w e)

merge_at_other :
    (x : ExecutionResult) (records : List AuditRecord) (k : ℕ)
    → x.sequence ≢ 0
    → x.sequence ≢ suc k
    → get_elem? (merge_at x records) k ≡ get_elem? records k
unfolding merge_at
merge_at_other x records k nonzero ne = elim (Option-cases (get_elem? records (x.sequence - 1))) [
  | inl e ↦ rw (e, merge_at) refl
  | inr (r, e) ↦
      rw (e, merge_at)
        (get_elem?-set_other records (x.sequence - 1) k (merge_record x r) (λ same. omega arith))
]

-- The guard of the loop over the results.
abbrev is_skipped : ExecutionResult → List AuditRecord → Bool
is_skipped x records = x.sequence == 0 || ltb (length records) x.sequence

merge_none :
    (records : List AuditRecord) (k : ℕ)
    → get_elem? (merge_results [] records) k ≡ get_elem? records k
unfolding merge_results
merge_none records k = refl

no_error : (x : ExecutionResult) → x.error ≡ [] → (x.error == []) ≡ true
no_error x e = (text_beq_iff x.error []).1 e

merge_skipped :
    (x : ExecutionResult) (rest : List ExecutionResult) (records : List AuditRecord)
    → is_skipped x records ≡ true
    → merge_results (x ∷ rest) records ≡ merge_results rest records
unfolding merge_results
merge_skipped x rest records e = rw e refl

merge_clean :
    (x : ExecutionResult) (rest : List ExecutionResult) (records : List AuditRecord)
    → is_skipped x records ≡ false
    → (x.error == []) ≡ true
    → merge_results (x ∷ rest) records ≡ merge_results rest (merge_at x records)
unfolding merge_results
merge_clean x rest records e clean = rw (e, clean) refl

merge_failed :
    (x : ExecutionResult) (rest : List ExecutionResult) (records : List AuditRecord)
    → is_skipped x records ≡ false
    → (x.error == []) ≡ false
    → merge_results (x ∷ rest) records ≡ merge_at x records
unfolding merge_results
merge_failed x rest records e failed = rw (e, failed) refl

-- A record whose statement has no result stays as the audit made it.
pub merge_results-untouched :
    (results : List ExecutionResult) (records : List AuditRecord) (k : ℕ)
    → All (λ x. x.sequence ≢ suc k) results
    → get_elem? (merge_results results records) k ≡ get_elem? records k
merge_results-untouched [] records k none_here = merge_none records k
merge_results-untouched (x ∷ rest) records k (here, there) =
    elim (Bool-cases (is_skipped x records)) [
      | inl e ↦ rw (merge_skipped x rest records e) (merge_results-untouched rest records k there)
      | inr e ↦
          let same = merge_at_other x records k (ground (arith, e)) here in
          elim (Bool-cases (x.error == [])) [
            | inl clean ↦
                rw (merge_clean x rest records e clean)
                  (merge_results-untouched rest (merge_at x records) k there ∙ same)
            | inr failed ↦ rw (merge_failed x rest records e failed) same
          ]
    ]

merge_at_self :
    (x : ExecutionResult) (records : List AuditRecord) (k : ℕ) (r : AuditRecord)
    → x.sequence ≡ suc k
    → get_elem? records k ≡ some r
    → get_elem? (merge_at x records) k ≡ some (merge_record x r)
unfolding merge_at
merge_at_self x records k r e found =
    let index : x.sequence - 1 ≡ k = omega arith in
    rw (index, found, merge_at, index) (get_elem?-set_self records k (merge_record x r) r found)

merge_results-at :
    (before after : List ExecutionResult) (x : ExecutionResult) (records : List AuditRecord) (k : ℕ)
    (r : AuditRecord)
    → All (λ y. (y.error ≡ []) × (y.sequence ≢ suc k)) before
    → All (λ y. y.sequence ≢ suc k) after
    → x.sequence ≡ suc k
    → get_elem? records k ≡ some r
    → get_elem? (merge_results (before ++ (x ∷ after)) records) k ≡ some (merge_record x r)
merge_results-at [] after x records k r clean single e found =
    let bound = get_elem?_bound records k r found in
    let in_range : is_skipped x records ≡ false = ground (arith, e, bound) in
    let here = merge_at_self x records k r e found in
    elim (Bool-cases (x.error == [])) [
      | inl fine ↦
          rw (merge_clean x after records in_range fine)
            (merge_results-untouched after (merge_at x records) k single ∙ here)
      | inr failed ↦ rw (merge_failed x after records in_range failed) here
    ]
merge_results-at (y ∷ before) after x records k r ((fine, ne), clean) single e found =
    elim (Bool-cases (is_skipped y records)) [
      | inl skip ↦
          rw (merge_skipped y (before ++ (x ∷ after)) records skip)
            (merge_results-at before after x records k r clean single e found)
      | inr kept ↦ rw (merge_clean y (before ++ (x ∷ after)) records kept (no_error y fine)) (
          merge_results-at before after x (merge_at y records) k r clean single e
            (merge_at_other y records k (ground (arith, kept)) ne ∙ found))
    ]

-- A result that comes after results without errors, and is the only one of its statement, is recorded: the
-- record at the index of the statement is afterwards what the result leaves of it, on success and on failure.
pub merge_results-recorded :
    (before after : List ExecutionResult) (x : ExecutionResult) (records : List AuditRecord) (k : ℕ)
    (r : AuditRecord)
    → All (λ y. (y.error ≡ []) × (y.sequence ≢ suc k)) before
    → All (λ y. y.sequence ≢ suc k) after
    → x.sequence ≡ suc k
    → get_elem? records k ≡ some r
    → (r' : AuditRecord) × (get_elem? (merge_results (before ++ (x ∷ after)) records) k ≡ some r')
      × IsMerged x r r'
merge_results-recorded before after x records k r clean single e found = (
  merge_record x r,
  merge_results-at before after x records k r clean single e found,
  merge_record-IsMerged x r,
)
