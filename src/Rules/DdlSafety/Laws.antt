-- ===== src/Rules/DdlSafety/Laws.antt =====
-- The structural checks of internal/audit/rules/ddl_safety.go against the coherence of a CREATE TABLE.
use goinception_plus.Prelude.{
  Bool, true, false, not, some, List, [], ◌∷◌, map, any, All, ◌≡◌, ◌≢◌, refl, append_nothing, arith,
  Bool-cases, inl, inr, ◌==◌, text_eq, text_beq_iff,
}
use goinception_plus.Strings.{Text, to_lower}
use goinception_plus.Model.{AuditIssue, ColumnSpec, IndexSpec, DdlAction, DdlSpec, Statement}
use goinception_plus.Audit.Engine.{Context}
use goinception_plus.Metadata.Cache.{MetadataProvider}
use goinception_plus.Metadata.Names.{IsFresh, IsDistinct}
use goinception_plus.Metadata.Presence.{HasName}
use goinception_plus.Rules.DdlSafety.{
  has_key, column_key, require, action_issues, feature_issues, engine_issues, column_issues,
  missing_issues, index_issues, create_issues, ddl_safety,
}

abbrev pub spec_name : ColumnSpec → Text
spec_name c = c.name

abbrev pub index_spec_name : IndexSpec → Text
index_spec_name i = i.name

-- The columns and the indexes of a CREATE TABLE fit together, up to the case of names.
pub record IsCoherent (d : DdlSpec) : Type 0 where
  pub columns_distinct : IsDistinct spec_name d.columns
  pub indexes_distinct : IsDistinct index_spec_name d.indexes
  pub references :
      All (λ (i : IndexSpec). All (λ n. HasName spec_name n d.columns) i.columns) d.indexes

nothing-require : (ok : Bool) (i : AuditIssue) → require ok i ≡ [] → ok ≡ true
unfolding require
nothing-require true i e = refl
nothing-require false i e = absurd (cc e)

-- Every name of the list misses the seen keys.
module _ {ℓ} {A : Type ℓ} (name_of : A → Text) where
  abbrev Misses : Text → List A → Type 0
  Misses key l = All (λ x. to_lower (name_of x) ≢ key) l

  Misses-IsFresh : (n : Text) (l : List A) → Misses (to_lower n) l → IsFresh name_of n l
  Misses-IsFresh n [] h = tt
  Misses-IsFresh n (x ∷ l) h = (h.0, Misses-IsFresh n l h.1)

  abbrev IsNew : List Text → List A → Type 0
  IsNew seen l = All (λ x. has_key (to_lower (name_of x)) seen ≡ false) l

  IsNew-Misses : (key : Text) (seen : List Text) (l : List A) → IsNew (key ∷ seen) l → Misses key l
  unfolding has_key any
  IsNew-Misses key seen [] h = tt
  IsNew-Misses key seen (x ∷ l) h = (
    λ e. ground (arith, h.0, text_beq_iff key (to_lower (name_of x)), e),
    IsNew-Misses key seen l h.1,
  )

  IsNew-weaken : (key : Text) (seen : List Text) (l : List A) → IsNew (key ∷ seen) l → IsNew seen l
  unfolding has_key any
  IsNew-weaken key seen [] h = tt
  IsNew-weaken key seen (x ∷ l) h = (ground (arith, h.0), IsNew-weaken key seen l h.1)

  HasName-has_key :
      (n : Text) (l : List A)
      → has_key (to_lower n) (map (λ x. to_lower (name_of x)) l) ≡ true
      → HasName name_of n l
  unfolding has_key any
  HasName-has_key n [] h = absurd (ground (arith, h))
  HasName-has_key n (x ∷ l) h = elim (Bool-cases (to_lower (name_of x) == to_lower n)) [
    | inl e ↦ inl ((text_beq_iff (to_lower (name_of x)) (to_lower n)).0 e)
    | inr e ↦ inr (HasName-has_key n l (ground (arith, h, e)))
  ]

module _ (source : MetadataProvider) (c : Context source) (s : Statement) where
  column_issues-none :
      (seen : List Text) (l : List ColumnSpec)
      → column_issues source c s seen l ≡ []
      → IsDistinct spec_name l × IsNew spec_name seen l
  unfolding column_issues
  column_issues-none seen [] e = (tt, tt)
  column_issues-none seen (x ∷ l) e =
      let (here, there) = append_nothing _ (column_issues source c s (column_key x ∷ seen) l) e in
      let (distinct, fresh) = column_issues-none (column_key x ∷ seen) l there in
      (
        (
          Misses-IsFresh spec_name x.name l (IsNew-Misses spec_name (column_key x) seen l fresh),
          distinct,
        ),
        (
          ground (arith, nothing-require (not (has_key (column_key x) seen)) _ here),
          IsNew-weaken spec_name (column_key x) seen l fresh,
        ),
      )

  missing_issues-none :
      (d : DdlSpec) (index : Text) (names : List Text)
      → missing_issues source c s (map column_key d.columns) index names ≡ []
      → All (λ n. HasName spec_name n d.columns) names
  unfolding missing_issues
  missing_issues-none d index [] e = tt
  missing_issues-none d index (n ∷ names) e =
      let (here, there) =
        append_nothing _ (missing_issues source c s (map column_key d.columns) index names) e in
      (
        HasName-has_key spec_name n d.columns (nothing-require _ _ here),
        missing_issues-none d index names there,
      )

  index_issues-none :
      (d : DdlSpec) (seen : List Text) (l : List IndexSpec)
      → index_issues source c s (map column_key d.columns) seen l ≡ []
      → IsDistinct index_spec_name l
        × IsNew index_spec_name seen l
        × All (λ (i : IndexSpec). All (λ n. HasName spec_name n d.columns) i.columns) l
  unfolding index_issues
  index_issues-none d seen [] e = (tt, tt, tt)
  index_issues-none d seen (i ∷ l) e =
      let key = to_lower i.name in
      let (here, more) = append_nothing _ _ e in
      let (columns, there) =
        append_nothing (missing_issues source c s (map column_key d.columns) i.name i.columns) _
          more in
      let (distinct, fresh, references) = index_issues-none d (key ∷ seen) l there in
      (
        (
          Misses-IsFresh index_spec_name i.name l (IsNew-Misses index_spec_name key seen l fresh),
          distinct,
        ),
        (
          ground (arith, nothing-require (not (has_key key seen)) _ here),
          IsNew-weaken index_spec_name key seen l fresh,
        ),
        (missing_issues-none d i.name i.columns columns, references),
      )

  create_issues-none : (d : DdlSpec) → create_issues source c s d ≡ [] → IsCoherent d
  unfolding create_issues
  create_issues-none d e =
      let (engine, more) = append_nothing (engine_issues source c s d) _ e in
      let (columns, indexes) = append_nothing (column_issues source c s [] d.columns) _ more in
      let (distinct, fresh) = column_issues-none [] d.columns columns in
      let (names, new, references) = index_issues-none d [] d.indexes indexes in
      record { columns_distinct = distinct; indexes_distinct = names; references = references }

  -- If the structural checks find nothing in a CREATE TABLE, its column names are distinct, its index
  -- names are distinct, and every index column is a column of the table, all up to case.
  pub ddl_safety-IsCoherent :
      (d : DdlSpec)
      → s.ddl ≡ some d
      → d.action ≡ DdlAction.create_table
      → ddl_safety source c s ≡ []
      → IsCoherent d
  unfolding ddl_safety
  ddl_safety-IsCoherent d is_ddl create none_found =
      let d' = record d { action = DdlAction.create_table } in
      create_issues-none d
        (append_nothing (feature_issues source c s d') _
          (append_nothing (action_issues source c s d') _
            (rw (is_ddl, ddl_safety, create) at none_found)).1).1
