-- ===== src/Metadata/Snapshot/Laws/Accepted.antt =====
-- What a DDL statement needs of the tables in view for `PrepareDDL` of internal/metadata/snapshot.go, and what it
-- is resolved to.
use goinception_plus.Prelude.{
  true, false, none, some, List, [], ◌∷◌, ◌≡◌, ◌↔◌, refl, ap, ◌∙◌, ◌⊎◌, inl, inr, All, Bool-cases,
  text_eq,
}
use goinception_plus.Strings.{Text}
use goinception_plus.Model.{TableRef, RenamePair, ColumnSpec, IndexSpec, DdlAction, DdlSpec}
use goinception_plus.Audit.Types.{Table, Column, Index, Error, is_not_found, ok, err, Result-cases}
use goinception_plus.Metadata.Table.{default_schema}
use goinception_plus.Metadata.Snapshot.Laws.Spec.{Tables, check_affected_spec, check_targets_spec}

abbrev pub IsPresent : Tables → Text → Text → Type 0
IsPresent V s t = (table : Table) × (V s t ≡ ok table)

abbrev pub IsAbsent : Tables → Text → Text → Type 0
IsAbsent V s t = (e : Error) × (V s t ≡ err e) × (is_not_found e ≡ true)

-- A table that the statement needs: it is there, or it is missing under IF EXISTS.
abbrev pub IsUsable : Tables → DdlSpec → TableRef → Type 0
IsUsable V d r =
    IsPresent V (default_schema r.schema d.schema) r.name
    ⊎ ((d.if_exists ≡ true) × IsAbsent V (default_schema r.schema d.schema) r.name)

-- The new name of a renamed table is free.
abbrev pub IsFree : Tables → DdlSpec → RenamePair → Type 0
IsFree V d pair =
    IsAbsent V (default_schema pair.to.schema (default_schema pair.from.schema d.schema))
      pair.to.name

pub record IsCopiedColumn (c : Column) (k : ColumnSpec) : Type 0 where
  pub name : k.name ≡ c.name
  pub type : k.type ≡ c.column_type
  pub nullable : k.nullable ≡ c.nullable
  pub auto_increment : k.auto_increment ≡ c.auto_increment
  pub unsigned : k.unsigned ≡ c.unsigned
  pub character_set : k.character_set ≡ c.character_set
  pub default :
      (c.default ≡ none)
      ⊎ ((value : Text) × (c.default ≡ some value)
          × (k.has_default ≡ true)
          × (k.default_expression ≡ value))

pub record IsCopiedIndex (i : Index) (k : IndexSpec) : Type 0 where
  pub name : k.name ≡ i.name
  pub columns : k.columns ≡ i.columns
  pub unique : k.unique ≡ i.unique
  pub primary : k.primary ≡ i.primary
  pub prefix_lengths : k.prefix_lengths ≡ i.prefix_lengths
  pub expressions : k.expressions ≡ i.expressions

-- The members of two lists are related one by one.
abbrev pub Each {ℓ κ} : {A : Type ℓ} {B : Type κ} → (A → B → Type 0) → List A → List B → Type 0
Each R [] [] = Unit
Each R (a ∷ l) (b ∷ m) = R a b × Each R l m
Each R l m = ⊥

-- The statement is to create what the table has: its columns, its indexes, its primary key and whether it has
-- a comment. Its schema, its name and its action are those that were parsed.
pub record Copies (t : Table) (d d' : DdlSpec) : Type 0 where
  pub statement :
      (d'.action ≡ d.action) × (d'.schema ≡ d.schema) × (d'.table ≡ d.table) × (d'.noop ≡ d.noop)
  pub columns : Each IsCopiedColumn t.columns d'.columns
  pub indexes : Each IsCopiedIndex t.indexes d'.indexes
  pub primary : All (λ (i : Index). (i.primary ≡ false) ⊎ (d'.has_primary_key ≡ true)) t.indexes
  pub comment : (d'.has_comment ≡ false) ↔ (t.comment ≡ [])

-- A CREATE is of a table that is there, under IF NOT EXISTS, and then without effect; or of one that is missing.
-- A CREATE TABLE LIKE refers to a table that is there, and is resolved to a copy of it.
abbrev pub Creates : Tables → DdlSpec → DdlSpec → Type 0
Creates V d d' =
    (IsPresent V d.schema d.table × (d.if_not_exists ≡ true) × (d' ≡ record d { noop = true }))
    ⊎ (IsAbsent V d.schema d.table
        × (((d.create_like ≡ false) × (d' ≡ d))
            ⊎ ((d.create_like ≡ true)
                × ((r : TableRef) × (t : Table) × (d.reference ≡ some r)
                    × (V (default_schema r.schema d.schema) r.name ≡ ok t)
                    × Copies t d d'))))

-- Which statements of an action are accepted, and what they are resolved to.
abbrev pub Accepts : DdlAction → Tables → DdlSpec → DdlSpec → Type 0
Accepts DdlAction.create_table V d d' = Creates V d d'
Accepts DdlAction.create_view V d d' = Creates V d d'
Accepts DdlAction.rename_table V d d' =
    All (IsFree V d) d.rename_pairs
    × All (λ (pair : RenamePair). IsUsable V d pair.from) d.rename_pairs
    × (d' ≡ d)
Accepts DdlAction.alter_table V d d' = All (IsUsable V d) d.tables × (d' ≡ d)
Accepts DdlAction.truncate_table V d d' = All (IsUsable V d) d.tables × (d' ≡ d)
Accepts DdlAction.create_index V d d' = All (IsUsable V d) d.tables × (d' ≡ d)
Accepts DdlAction.drop_index V d d' = All (IsUsable V d) d.tables × (d' ≡ d)
Accepts DdlAction.drop_table V d d' = All (IsUsable V d) d.tables × (d' ≡ d)
Accepts DdlAction.drop_view V d d' = All (IsUsable V d) d.tables × (d' ≡ d)
Accepts other V d d' = d' ≡ d

pub check_affected_iff :
    (V : Tables) (d : DdlSpec) (refs : List TableRef)
    → (check_affected_spec d refs V ≡ none) ↔ All (IsUsable V d) refs
unfolding check_affected_spec
check_affected_iff V d [] = (λ h. tt, λ h. refl)
check_affected_iff V d (r ∷ rest) =
    let schema = default_schema r.schema d.schema in
    let others = check_affected_iff V d rest in
    elim (Result-cases (V schema r.name)) [
      | inl (t, e) ↦ (
        λ h. (inl (t, e), others.0 (rw (check_affected_spec, e) at h)),
        λ h. rw (check_affected_spec, e) (others.1 h.1),
      )
      | inr (x, e) ↦ elim (Bool-cases d.if_exists) [
        | inr strict ↦ (
          λ h. absurd (cc (rw (check_affected_spec, e, strict) at h)),
          λ h. elim h.0 [ inl (t, f) ↦ absurd (cc (e, f)) | inr (f, g) ↦ absurd (cc (strict, f)) ],
        )
        | inl lax ↦ elim (Bool-cases (is_not_found x)) [
          | inl missing ↦ (
            λ h. (
              inr (lax, (x, e, missing)),
              others.0 (rw (check_affected_spec, e, lax, missing) at h),
            ),
            λ h. rw (check_affected_spec, e, lax, missing) (others.1 h.1),
          )
          | inr broken ↦ (
            λ h. absurd (cc (rw (check_affected_spec, e, lax, broken) at h)),
            λ h. elim h.0 [
              | inl (t, f) ↦ absurd (cc (e, f))
              | inr (f, (y, g, missing)) ↦
                  let same : x ≡ y = cc (e, g) in
                  absurd (cc (broken, ap is_not_found same ∙ missing))
            ],
          )
        ]
      ]
    ]

pub check_targets_iff :
    (V : Tables) (d : DdlSpec) (pairs : List RenamePair)
    → (check_targets_spec d.schema pairs V ≡ none) ↔ All (IsFree V d) pairs
unfolding check_targets_spec
check_targets_iff V d [] = (λ h. tt, λ h. refl)
check_targets_iff V d (pair ∷ rest) =
    let to_schema = default_schema pair.to.schema (default_schema pair.from.schema d.schema) in
    let others = check_targets_iff V d rest in
    elim (Result-cases (V to_schema pair.to.name)) [
      | inl (t, e) ↦ (
        λ h. absurd (cc (rw (check_targets_spec, e) at h)),
        λ ((y, g, missing), more). absurd (cc (e, g)),
      )
      | inr (x, e) ↦ elim (Bool-cases (is_not_found x)) [
        | inl missing ↦ (
          λ h. ((x, e, missing), others.0 (rw (check_targets_spec, e, missing) at h)),
          λ h. rw (check_targets_spec, e, missing) (others.1 h.1),
        )
        | inr broken ↦ (
          λ h. absurd (cc (rw (check_targets_spec, e, broken) at h)),
          λ ((y, g, missing), more).
              let same : x ≡ y = cc (e, g) in absurd (cc (broken, ap is_not_found same ∙ missing)),
        )
      ]
    ]
