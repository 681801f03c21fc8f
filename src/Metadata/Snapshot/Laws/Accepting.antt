-- ===== src/Metadata/Snapshot/Laws/Accepting.antt =====
-- Which DDL statements `PrepareDDL` of internal/metadata/snapshot.go accepts.
use goinception_plus.Prelude.{
  Bool, true, false, Option, none, some, List, [], ◌∷◌, map, ◌≡◌, ◌↔◌, refl, ap, sym, ◌∙◌, inl, inr,
  All, Bool-cases, Option-cases, subst, text_eq,
}
use goinception_plus.Strings.{txt}
use goinception_plus.Model.{TableRef, RenamePair, DdlAction, DdlSpec}
use goinception_plus.Audit.Types.{Error, failure, is_not_found, ok, Result-cases}
use goinception_plus.Metadata.Table.{default_schema}
use goinception_plus.Metadata.Cache.{MetadataProvider, Provider}
use goinception_plus.Metadata.Cache.Laws.{IsStable, AgreesOnKeys}
use goinception_plus.Metadata.Snapshot.{affected_tables, prepare_ddl, lookup_error, exists_error}
use goinception_plus.Metadata.Snapshot.Laws.Spec.{
  Tables, check_affected_spec, check_targets_spec, copy_reference_spec, prepare_create_spec,
  prepare_spec,
}
use goinception_plus.Metadata.Snapshot.Laws.Refinement.{Shows, prepare_ddl-Refines}
use goinception_plus.Metadata.Snapshot.Laws.Accepted.{
  IsAbsent, IsUsable, IsFree, Creates, Accepts, check_affected_iff, check_targets_iff,
}
use goinception_plus.Metadata.Snapshot.Laws.Copied.{copied, copied-Copies}

-- A result that is accepted exactly when there is no error.
abbrev Exactly : Option Error × DdlSpec → (DdlSpec → Type 0) → Type 0
Exactly r P = (r.0 ≡ none) ↔ P r.1

accepts : (P : DdlSpec → Type 0) (d' : DdlSpec) → P d' → Exactly (none, d') P
accepts P d' h = (λ e. h, λ k. refl)

refuses : (P : DdlSpec → Type 0) (x : Error) (d' : DdlSpec) → ¬ P d' → Exactly (some x, d') P
refuses P x d' h = (λ e. absurd (cc e), λ k. absurd (h k))

by_result :
    (P : DdlSpec → Type 0) (r q : Option Error × DdlSpec) → r ≡ q → Exactly q P → Exactly r P
by_result P r q e h = subst (λ x. Exactly x P) (sym e) h

copy_reference-Creates :
    (V : Tables) (d : DdlSpec)
    → IsAbsent V d.schema d.table
    → d.create_like ≡ true
    → Exactly (copy_reference_spec d V) (Creates V d)
unfolding copy_reference_spec
copy_reference-Creates V d (x, absent, missing) like = elim (Option-cases d.reference) [
  | inl e ↦
      by_result (Creates V d) (copy_reference_spec d V)
        (some (failure (txt "missing reference")), d) (simp (copy_reference_spec, e))
        (refuses (Creates V d) _ d (λ h. elim h [
          | inl ((t, f), lax, g) ↦ absurd (cc (absent, f))
          | inr (gone, inl (plain, same)) ↦ absurd (cc (plain, like))
          | inr (gone, inr (yes_like, (r, t, f, g, c))) ↦ absurd (cc (e, f))
        ]))
  | inr (r, e) ↦ elim (Result-cases (V (default_schema r.schema d.schema) r.name)) [
    | inl (t, f) ↦
        by_result (Creates V d) (copy_reference_spec d V) (none, copied d r t)
          (simp (copy_reference_spec, e, f))
          (accepts (Creates V d) (copied d r t)
            (inr ((x, absent, missing), inr (like, (r, t, e, f, copied-Copies d r t)))))
    | inr (y, f) ↦
        let d' : DdlSpec = record d {
          reference = some (record r { schema = default_schema r.schema d.schema });
        } in
        by_result (Creates V d) (copy_reference_spec d V)
          (
            some (lookup_error "source table %s.%s: " (default_schema r.schema d.schema) r.name y),
            d',
          )
          (simp (copy_reference_spec, e, f))
          (refuses (Creates V d) _ d' (λ h. elim h [
            | inl ((t, g), lax, k) ↦ absurd (cc (absent, g))
            | inr (gone, inl (plain, same)) ↦ absurd (cc (plain, like))
            | inr (gone, inr (yes_like, (r', t, g, k, c))) ↦
                let same : r ≡ r' = cc (e, g) in
                let found : V (default_schema r.schema d.schema) r.name ≡ ok t =
                  subst (λ (q : TableRef). V (default_schema q.schema d.schema) q.name ≡ ok t)
                    (sym same) k in
                absurd (cc (f, found))
          ]))
  ]
]

prepare_create-Creates :
    (V : Tables) (d : DdlSpec) → Exactly (prepare_create_spec d V) (Creates V d)
unfolding prepare_create_spec
prepare_create-Creates V d = elim (Result-cases (V d.schema d.table)) [
  | inl (t, e) ↦ elim (Bool-cases d.if_not_exists) [
    | inl lax ↦
        by_result (Creates V d) (prepare_create_spec d V) (none, record d { noop = true })
          (simp (prepare_create_spec, e, lax))
          (accepts (Creates V d) (record d { noop = true }) (inl ((t, e), lax, refl)))
    | inr strict ↦
        by_result (Creates V d) (prepare_create_spec d V)
          (some (exists_error "table %s.%s already exists" d.schema d.table), d)
          (simp (prepare_create_spec, e, strict))
          (refuses (Creates V d) _ d (λ h. elim h [
            | inl (f, lax, g) ↦ absurd (cc (strict, lax))
            | inr ((y, f, missing), more) ↦ absurd (cc (e, f))
          ]))
  ]
  | inr (x, e) ↦ elim (Bool-cases (is_not_found x)) [
    | inr broken ↦
        by_result (Creates V d) (prepare_create_spec d V) (some x, d)
          (simp (prepare_create_spec, e, broken))
          (refuses (Creates V d) _ d (λ h. elim h [
            | inl ((t, f), lax, g) ↦ absurd (cc (e, f))
            | inr ((y, f, missing), more) ↦
                let same : x ≡ y = cc (e, f) in absurd (cc (broken, ap is_not_found same ∙ missing))
          ]))
    | inl missing ↦ elim (Bool-cases d.create_like) [
      | inl like ↦
          by_result (Creates V d) (prepare_create_spec d V) (copy_reference_spec d V)
            (simp (prepare_create_spec, e, missing, like))
            (copy_reference-Creates V d (x, e, missing) like)
      | inr plain ↦
          by_result (Creates V d) (prepare_create_spec d V) (none, d)
            (simp (prepare_create_spec, e, missing, plain))
            (accepts (Creates V d) d (inr ((x, e, missing), inl (plain, refl))))
    ]
  ]
]

affected-Usable :
    (V : Tables) (d : DdlSpec) (refs : List TableRef)
    → Exactly (check_affected_spec d refs V, d) (λ d'. All (IsUsable V d) refs × (d' ≡ d))
affected-Usable V d refs = (
  λ h. ((check_affected_iff V d refs).0 h, refl),
  λ (all, e). (check_affected_iff V d refs).1 all,
)

unaffected : (V : Tables) (d : DdlSpec) → Exactly (check_affected_spec d [] V, d) (λ d'. d' ≡ d)
unfolding check_affected_spec
unaffected V d = (λ h. refl, λ h. refl)

from_tables :
    (V : Tables) (d : DdlSpec) (pairs : List RenamePair)
    → All (IsUsable V d) (map (λ (pair : RenamePair). pair.from) pairs)
      ↔ All (λ (pair : RenamePair). IsUsable V d pair.from) pairs
from_tables V d [] = (λ h. tt, λ h. tt)
from_tables V d (pair ∷ rest) =
    let more = from_tables V d rest in
    (λ (here, h). (here, more.0 h), λ (here, h). (here, more.1 h))

renamed-Free :
    (V : Tables) (d : DdlSpec) (targets affected : Option Error)
    → (targets ≡ none) ↔ All (IsFree V d) d.rename_pairs
    → (affected ≡ none) ↔ All (λ (pair : RenamePair). IsUsable V d pair.from) d.rename_pairs
    → Exactly
        (elim targets [ some x ↦ (some x, d) | none ↦ (affected, d) ])
        (λ d'.
          All (IsFree V d) d.rename_pairs
          × All (λ (pair : RenamePair). IsUsable V d pair.from) d.rename_pairs
          × (d' ≡ d))
renamed-Free V d none affected free usable =
    (λ h. (free.0 refl, usable.0 h, refl), λ (a, b, c). usable.1 b)
renamed-Free V d (some x) affected free usable =
    (λ h. absurd (cc h), λ (a, b, c). absurd (cc (free.1 a)))

abbrev as_action : DdlSpec → DdlAction → DdlSpec
as_action d action = record d { action = action; fully_projected = true }

action-Accepts :
    (V : Tables) (d : DdlSpec) (action : DdlAction)
    → Exactly (prepare_spec (as_action d action) V) (Accepts action V (as_action d action))
unfolding prepare_spec affected_tables
action-Accepts V d DdlAction.create_table =
    prepare_create-Creates V (as_action d DdlAction.create_table)
action-Accepts V d DdlAction.create_view =
    prepare_create-Creates V (as_action d DdlAction.create_view)
action-Accepts V d DdlAction.rename_table =
    let d' = as_action d DdlAction.rename_table in
    let affected = check_affected_iff V d' (affected_tables d') in
    let usable = from_tables V d' d.rename_pairs in
    renamed-Free V d' (check_targets_spec d.schema d.rename_pairs V)
      (check_affected_spec d' (affected_tables d') V) (check_targets_iff V d' d.rename_pairs)
      (λ h. usable.0 (affected.0 h), λ h. affected.1 (usable.1 h))
action-Accepts V d DdlAction.alter_table =
    affected-Usable V (as_action d DdlAction.alter_table) d.tables
action-Accepts V d DdlAction.truncate_table =
    affected-Usable V (as_action d DdlAction.truncate_table) d.tables
action-Accepts V d DdlAction.create_index =
    affected-Usable V (as_action d DdlAction.create_index) d.tables
action-Accepts V d DdlAction.drop_index =
    affected-Usable V (as_action d DdlAction.drop_index) d.tables
action-Accepts V d DdlAction.drop_table =
    affected-Usable V (as_action d DdlAction.drop_table) d.tables
action-Accepts V d DdlAction.drop_view =
    affected-Usable V (as_action d DdlAction.drop_view) d.tables
action-Accepts V d DdlAction.create_database = unaffected V (as_action d DdlAction.create_database)
action-Accepts V d DdlAction.alter_database = unaffected V (as_action d DdlAction.alter_database)
action-Accepts V d DdlAction.drop_database = unaffected V (as_action d DdlAction.drop_database)
action-Accepts V d DdlAction.alter_view = unaffected V (as_action d DdlAction.alter_view)

projected-Accepts :
    (V : Tables) (d : DdlSpec) (projected : Bool)
    → projected ≡ true
    → let d' = record d { fully_projected = projected } in
      Exactly (prepare_spec d' V) (Accepts d.action V d')
projected-Accepts V d true e = action-Accepts V d d.action
projected-Accepts V d false e = absurd (cc e)

module _ (source : MetadataProvider) (content : Tables) (stable : IsStable source content)
    (lower_case : Bool) (agrees : AgreesOnKeys lower_case content) where
  -- `PrepareDDL` accepts a projected DDL statement exactly if its tables are as its action needs them and it is
  -- resolved to what it stands for: the tables of ALTER, TRUNCATE, DROP TABLE, DROP VIEW and of an index are
  -- there, or missing under IF EXISTS; the old names of a RENAME likewise, and its new names are free; a table or
  -- view to create is missing, or there under IF NOT EXISTS and then without effect; CREATE TABLE LIKE gets the
  -- columns, the indexes, the primary key and the comment flag of the table that it refers to. It changes none
  -- of the tables in view. This holds on any target that is steady while the request is audited and that has
  -- one table for the names of one cache key.
  pub prepare_ddl-Accepts :
      (V : Tables) (d : DdlSpec) (p : Provider source)
      → Shows source content stable lower_case agrees V p
      → d.fully_projected ≡ true
      → (((prepare_ddl source d p).0 ≡ none) ↔ Accepts d.action V d (prepare_ddl source d p).1)
        × Shows source content stable lower_case agrees V (prepare_ddl source d p).2
  prepare_ddl-Accepts V d p shows projected =
      let (same_error, same_spec, after) =
        prepare_ddl-Refines source content stable lower_case agrees V d p shows in
      let spec = projected-Accepts V d d.fully_projected projected in
      (
        (
          λ h. subst (Accepts d.action V d) (sym same_spec) (spec.0 (sym same_error ∙ h)),
          λ h. same_error ∙ spec.1 (subst (Accepts d.action V d) same_spec h),
        ),
        after,
      )
