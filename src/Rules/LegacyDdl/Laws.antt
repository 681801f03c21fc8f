-- ===== src/Rules/LegacyDdl/Laws.antt =====
-- internal/audit/rules/legacy_ddl.go: what a statement in which the rules find nothing fulfils.
use goinception_plus.Prelude.{
  subst, ℕ, true, false, Memᴰ, Option, some, List, [], ◌∷◌, ◌++◌, ◌≡◌, refl, sym, ◌⊎◌, inl, inr,
  All, All-parts, Bool-cases, text_eq,
}
use goinception_plus.Strings.{Text, txt}
use goinception_plus.Model.{IndexSpec, DdlAction, DdlSpec, Statement}
use goinception_plus.Audit.Types.{Table, Index, ok}
use goinception_plus.Audit.Policy.{Policy, legacy_bool}
use goinception_plus.Audit.Engine.{Context}
use goinception_plus.Metadata.Cache.{MetadataProvider, table_of}
use goinception_plus.Rules.LegacyDdl.{
  is_view_action, alter_checks, table_name_checks, option_checks, defined_columns, ddl_checks,
  existing_table, count_alter, legacy_ddl,
}
use goinception_plus.Rules.LegacyDdl.Columns.{
  Check, report, name_checks, columns_checks, timestamp_checks,
}
use goinception_plus.Rules.LegacyDdl.Indexes.{
  added_indexes, index_of_table, new_indexes, kept_indexes, typed_columns, all_index_checks,
  overlap_checks, all_overlap_checks, indexes_checks, required_checks,
}
use goinception_plus.Rules.LegacyDdl.Redundancy.{
  IsRedundant, leading_columns_overlap_iff, IsIrredundant,
}
use goinception_plus.Rules.LegacyDdl.Kept.{
  IsStated, Keeps, IsStated-new_indexes, Keeps-kept_indexes,
}

abbrev IsPassed : Check → Type 0
IsPassed c = c.wrong ≡ false

report-nothing : (p : Policy) (s : Statement) (l : List Check) → report p s l ≡ [] → All IsPassed l
unfolding report
report-nothing p s [] h = tt
report-nothing p s (c ∷ rest) h = elim (Bool-cases c.wrong) [
  | inl wrong ↦ absurd (cc (rw (report, wrong) at h))
  | inr fine ↦ (fine, report-nothing p s rest (rw (report, fine) at h))
]

module _ (p : Policy) (on : legacy_bool p (txt "check_index_column_repeat") ≡ true) where
  overlap_checks_passed :
      (i : IndexSpec) (l : List IndexSpec)
      → All IsPassed (overlap_checks p i l)
      → All (λ (j : IndexSpec). ¬ IsRedundant i.columns j.columns) l
  unfolding overlap_checks
  overlap_checks_passed i [] h = tt
  overlap_checks_passed i (j ∷ rest) (here, h) = (
    λ r. cc (rw on at here, (leading_columns_overlap_iff i.columns j.columns).1 r),
    overlap_checks_passed i rest h,
  )

  all_overlap_checks-IsIrredundant :
      (l : List IndexSpec) → All IsPassed (all_overlap_checks p l) → IsIrredundant l
  unfolding all_overlap_checks
  all_overlap_checks-IsIrredundant [] h = tt
  all_overlap_checks-IsIrredundant (i ∷ rest) h =
      let (here, later) =
        All-parts IsPassed (overlap_checks p i rest) (all_overlap_checks p rest) h in
      (overlap_checks_passed i rest here, all_overlap_checks-IsIrredundant rest later)

last_part : (l more : List Check) → All IsPassed (l ++ more) → All IsPassed more
last_part l more h = (All-parts IsPassed l more h).1

ddl_checks-IsIrredundant :
    (p : Policy) (d : DdlSpec) (existing : Option Table) (seen : List (Text × ℕ))
    → legacy_bool p (txt "check_index_column_repeat") ≡ true
    → All IsPassed (ddl_checks p d existing seen)
    → IsIrredundant (new_indexes d ++ kept_indexes d existing)
unfolding ddl_checks indexes_checks
ddl_checks-IsIrredundant p d existing seen on h =
    let columns = defined_columns d in
    let required = required_checks p d in
    let indexes = new_indexes d ++ kept_indexes d existing in
    let t8 = indexes_checks p d existing ++ required in
    let t7 = timestamp_checks p columns ++ t8 in
    let t6 = columns_checks p columns ++ t7 in
    let t5 = alter_checks p d existing seen ++ t6 in
    let t4 = option_checks p d ++ t5 in
    let t3 = table_name_checks p d.tables ++ t4 in
    let t2 = name_checks p (txt "table") d.table ++ t3 in
    let h4 = last_part (table_name_checks p d.tables) t4 (
      last_part (name_checks p (txt "table") d.table) t3
        (last_part (name_checks p (txt "schema") d.schema) t2 h)) in
    let h8 = last_part (timestamp_checks p columns) t8 (
      last_part (columns_checks p columns) t7
        (last_part (alter_checks p d existing seen) t6 (last_part (option_checks p d) t5 h4))) in
    let found = (All-parts IsPassed (indexes_checks p d existing) required h8).0 in
    all_overlap_checks-IsIrredundant p on indexes (
      last_part (all_index_checks p (typed_columns d existing) (new_indexes d))
        (all_overlap_checks p indexes) found.1)

IsIrredundant-left : (l more : List IndexSpec) → IsIrredundant (l ++ more) → IsIrredundant l
IsIrredundant-left [] more h = tt
IsIrredundant-left (i ∷ l) more (here, later) = (
  (All-parts (λ (j : IndexSpec). ¬ IsRedundant i.columns j.columns) l more here).0,
  IsIrredundant-left l more later,
)

IsIrredundant-across :
    (l more : List IndexSpec) (i j : IndexSpec)
    → IsIrredundant (l ++ more)
    → Memᴰ i l
    → Memᴰ j more
    → ¬ IsRedundant i.columns j.columns
IsIrredundant-across [] more i j h m n = elim m [ ]
IsIrredundant-across (x ∷ l) more i j (here, later) (Memᴰ.head e) n =
    let all = (All-parts (λ (y : IndexSpec). ¬ IsRedundant x.columns y.columns) l more here).1 in
    subst (λ (y : IndexSpec). ¬ IsRedundant y.columns j.columns) (sym e) (at_member more all n)
  where
    at_member :
        (m : List IndexSpec)
        → All (λ (y : IndexSpec). ¬ IsRedundant x.columns y.columns) m
        → Memᴰ j m
        → ¬ IsRedundant x.columns j.columns
    at_member [] h m = elim m [ ]
    at_member (y ∷ m) (first, rest) (Memᴰ.head same) =
        subst (λ (z : IndexSpec). ¬ IsRedundant x.columns z.columns) (sym same) first
    at_member (y ∷ m) (first, rest) (Memᴰ.tail further) = at_member m rest further
IsIrredundant-across (x ∷ l) more i j (here, later) (Memᴰ.tail m) n =
    IsIrredundant-across l more i j later m n

module _ (source : MetadataProvider) where
  loaded_for :
      (a : Context source) (d : DdlSpec) (t : Table) (action : DdlAction)
      → (action ≡ DdlAction.create_index) ⊎ (action ≡ DdlAction.alter_table)
      → (table_of source d.schema d.table a.metadata).0 ≡ ok t
      → let d' = record d { action = action } in
        (existing_table source (count_alter source a d') d').0 ≡ some t
  unfolding existing_table count_alter
  loaded_for a d t action (inl e) loaded = rw (e, loaded) refl
  loaded_for a d t action (inr e) loaded = rw (e, loaded) refl

  -- If the rules find nothing in a CREATE INDEX or an ALTER TABLE while the setting
  -- check_index_column_repeat is on, no index that the statement names (with the index itself or in an
  -- operation) and no index of the loaded table that no operation drops by its name make one of them
  -- redundant, nor do two indexes of the statement's own list. An index is redundant if its columns begin
  -- those of the other.
  pub legacy_ddl-IsIrredundant :
      (a : Context source) (s : Statement) (d : DdlSpec) (t : Table) (i : IndexSpec) (k : Index)
      → s.ddl ≡ some d
      → (d.action ≡ DdlAction.create_index) ⊎ (d.action ≡ DdlAction.alter_table)
      → legacy_bool a.policy (txt "check_index_column_repeat") ≡ true
      → (legacy_ddl source a s).0 ≡ []
      → (table_of source d.schema d.table a.metadata).0 ≡ ok t
      → IsStated i d
      → Memᴰ k t.indexes
      → All (Keeps k.name) d.alter_operations
      → (¬ IsRedundant i.columns k.columns) × IsIrredundant d.indexes
  unfolding legacy_ddl index_of_table new_indexes
  legacy_ddl-IsIrredundant a s d t i k e action on h loaded stated member keeps =
      let existing = existing_table source (count_alter source a d) d in
      let there : existing.0 ≡ some t = loaded_for a d t d.action action loaded in
      let all : IsIrredundant (new_indexes d ++ kept_indexes d existing.0) =
        elim (Bool-cases (is_view_action d.action)) [
          | inl view ↦ absurd (cc (rw (legacy_ddl, e, view, report) at h))
          | inr other ↦
              ddl_checks-IsIrredundant a.policy d existing.0 existing.1.seen_alter_tables on
                (report-nothing a.policy s _ (rw (legacy_ddl, e, other) at h))
        ] in
      let old = Keeps-kept_indexes d t k member keeps in
      (
        IsIrredundant-across (new_indexes d) (kept_indexes d (some t)) i (index_of_table k)
            (subst (λ x. IsIrredundant (new_indexes d ++ kept_indexes d x)) there all)
            (IsStated-new_indexes i d stated) old,
        IsIrredundant-left d.indexes (added_indexes d.alter_operations)
            (IsIrredundant-left (new_indexes d) (kept_indexes d existing.0) all),
      )
