-- ===== src/Metadata/Snapshot/Laws/Copied.antt =====
-- What a CREATE TABLE LIKE copies in `PrepareDDL` of internal/metadata/snapshot.go.
use goinception_plus.Prelude.{
  Bool, true, false, not, some, List, [], ◌∷◌, ◌≡◌, ◌↔◌, refl, ◌⊎◌, inl, inr, All, Bool-cases,
  Option-cases, text_eq, ◌==◌, text_beq_iff,
}
use goinception_plus.Model.{TableRef, DdlSpec}
use goinception_plus.Audit.Types.{Table, Column, Index}
use goinception_plus.Metadata.Table.{default_schema}
use goinception_plus.Metadata.Snapshot.{columns_from_table, indexes_from_table, derive_flags}
use goinception_plus.Metadata.Snapshot.Laws.Accepted.{IsCopiedColumn, IsCopiedIndex, Each, Copies}

columns_from_table-IsCopiedColumn :
    (t : Table) (l : List Column)
    → Each IsCopiedColumn l (columns_from_table (record t { columns = l }))
unfolding columns_from_table
columns_from_table-IsCopiedColumn t [] = tt
columns_from_table-IsCopiedColumn t (c ∷ l) = (
  record {
    name = refl;
    type = refl;
    nullable = refl;
    auto_increment = refl;
    unsigned = refl;
    character_set = refl;
    default = elim (Option-cases c.default) [
      | inl e ↦ inl e
      | inr (value, e) ↦ inr (value, e, rw e refl, rw e refl)
    ];
  },
  columns_from_table-IsCopiedColumn t l,
)

indexes_from_table-IsCopiedIndex :
    (t : Table) (l : List Index)
    → Each IsCopiedIndex l (indexes_from_table (record t { indexes = l }))
unfolding indexes_from_table
indexes_from_table-IsCopiedIndex t [] = tt
indexes_from_table-IsCopiedIndex t (i ∷ l) = (
  record {
    name = refl;
    columns = refl;
    unique = refl;
    primary = refl;
    prefix_lengths = refl;
    expressions = refl;
  },
  indexes_from_table-IsCopiedIndex t l,
)

abbrev copied_key : DdlSpec → Table → List Index → Bool
copied_key d t l = (derive_flags d (record t { indexes = l })).has_primary_key

copied_key-cons :
    (d : DdlSpec) (t : Table) (i : Index) (l : List Index)
    → copied_key d t l ≡ true
    → copied_key d t (i ∷ l) ≡ true
unfolding derive_flags
copied_key-cons d t i l h = elim (Bool-cases d.has_primary_key) [
  | inl own ↦ rw (own) refl
  | inr foreign ↦ elim (Bool-cases i.primary) [
    | inl here ↦ rw (foreign, here) refl
    | inr other ↦ rw (foreign, other) (rw (foreign) at h)
  ]
]

copied_key-primary :
    (d : DdlSpec) (t : Table) (i : Index) (l : List Index)
    → i.primary ≡ true
    → copied_key d t (i ∷ l) ≡ true
unfolding derive_flags
copied_key-primary d t i l h = elim (Bool-cases d.has_primary_key) [
  | inl own ↦ rw (own) refl
  | inr foreign ↦ rw (foreign, h) refl
]

abbrev Covers : DdlSpec → Table → List Index → Index → Type 0
Covers d t l i = (i.primary ≡ false) ⊎ (copied_key d t l ≡ true)

Covers-cons :
    (d : DdlSpec) (t : Table) (i : Index) (l m : List Index)
    → All (Covers d t l) m
    → All (Covers d t (i ∷ l)) m
Covers-cons d t i l [] h = tt
Covers-cons d t i l (j ∷ m) (inl e, h) = (inl e, Covers-cons d t i l m h)
Covers-cons d t i l (j ∷ m) (inr e, h) = (inr (copied_key-cons d t i l e), Covers-cons d t i l m h)

indexes-Covers : (d : DdlSpec) (t : Table) (l : List Index) → All (Covers d t l) l
indexes-Covers d t [] = tt
indexes-Covers d t (i ∷ l) = (
  elim (Bool-cases i.primary) [ inl e ↦ inr (copied_key-primary d t i l e) | inr e ↦ inl e ],
  Covers-cons d t i l l (indexes-Covers d t l),
)

comment_iff : (t : Table) (b : Bool) → (t.comment == []) ≡ b → (not b ≡ false) ↔ (t.comment ≡ [])
comment_iff t true e = (λ h. (text_beq_iff t.comment []).0 e, λ h. refl)
comment_iff t false e = (λ h. absurd (cc h), λ h. absurd (cc (e, (text_beq_iff t.comment []).1 h)))

-- What `copy_reference_spec` makes of a statement and of the table that it refers to.
abbrev pub copied : DdlSpec → TableRef → Table → DdlSpec
copied d r t =
    derive_flags
      (record d {
        reference = some (record r { schema = default_schema r.schema d.schema });
        columns = columns_from_table t;
        indexes = indexes_from_table t;
      })
      t

pub copied-Copies : (d : DdlSpec) (r : TableRef) (t : Table) → Copies t d (copied d r t)
unfolding derive_flags
copied-Copies d r t = record {
  statement = (refl, refl, refl, refl);
  columns = columns_from_table-IsCopiedColumn t t.columns;
  indexes = indexes_from_table-IsCopiedIndex t t.indexes;
  primary =
      indexes-Covers
        (record d {
          reference = some (record r { schema = default_schema r.schema d.schema });
          columns = columns_from_table t;
          indexes = indexes_from_table t;
        })
        t t.indexes;
  comment = comment_iff t (t.comment == []) refl;
}
