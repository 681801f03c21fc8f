-- ===== src/Metadata/Snapshot/Laws/Refinement.antt =====
-- `PrepareDDL` of internal/metadata/snapshot.go and its specification.
use goinception_plus.Prelude.{
  Bool, true, false, Option, none, some, List, [], ◌∷◌, text_eq, ◌≡◌, refl, ◌∙◌, arith, inl, inr,
  Option-cases,
}
use goinception_plus.Strings.{Text}
use goinception_plus.Model.{TableRef, RenamePair, DdlAction, DdlSpec}
use goinception_plus.Audit.Types.{Error}
use goinception_plus.Metadata.Table.{default_schema}
use goinception_plus.Metadata.Cache.{MetadataProvider, Provider, table_of}
use goinception_plus.Metadata.Cache.Laws.{
  IsStable, AgreesOnKeys, view, table_of-view, view-table_of,
}
use goinception_plus.Metadata.Snapshot.{
  Prepared, prepare_rename, prepare_affected, check_affected, check_targets, copy_reference,
  prepare_create, prepare_ddl, affected_tables,
}
use goinception_plus.Metadata.Snapshot.Laws.Spec.{
  Tables, check_affected_spec, check_targets_spec, copy_reference_spec, prepare_create_spec,
  prepare_spec,
}

abbrev as_action : DdlSpec → DdlAction → DdlSpec
as_action d action = record d { action = action; fully_projected = true }

module _ (source : MetadataProvider) (content : Tables) (stable : IsStable source content)
    (lower_case : Bool) (agrees : AgreesOnKeys lower_case content) where
  -- The provider shows the tables `V`.
  pub record Shows (V : Tables) (p : Provider source) : Type 0 where
    pub mode : p.lower_case ≡ lower_case
    pub shown : (s t : Text) → view source content p s t ≡ V s t

  lower_case-table_of :
      (s t : Text) (p : Provider source) → (table_of source s t p).1.lower_case ≡ p.lower_case
  unfolding table_of
  lower_case-table_of s t p = ground arith

  pub table_of-Shows :
      (V : Tables) (p : Provider source)
      → Shows V p
      → (s t : Text) → ((table_of source s t p).0 ≡ V s t) × Shows V (table_of source s t p).1
  table_of-Shows V p sh s t = (
    table_of-view source content stable s t p ∙ sh.shown s t,
    record {
      mode = lower_case-table_of s t p ∙ sh.mode;
      shown =
          λ a b. view-table_of source content stable p (rw sh.mode agrees) s t a b ∙ sh.shown a b;
    },
  )

  check_affected-Shows :
      (V : Tables) (d : DdlSpec) (refs : List TableRef) (p : Provider source)
      → Shows V p
      → ((check_affected source d refs p).0 ≡ check_affected_spec d refs V)
        × Shows V (check_affected source d refs p).1
  unfolding check_affected check_affected_spec
  check_affected-Shows V d [] p sh = (refl, sh)
  check_affected-Shows V d (r ∷ rest) p sh =
      let schema = default_schema r.schema d.schema in
      let loaded = table_of-Shows V p sh schema r.name in
      ground
        (arith, loaded, check_affected-Shows V d rest (table_of source schema r.name p).1 loaded.1)

  check_targets-Shows :
      (V : Tables) (schema : Text) (pairs : List RenamePair) (p : Provider source)
      → Shows V p
      → ((check_targets source schema pairs p).0 ≡ check_targets_spec schema pairs V)
        × Shows V (check_targets source schema pairs p).1
  unfolding check_targets check_targets_spec
  check_targets-Shows V schema [] p sh = (refl, sh)
  check_targets-Shows V schema (pair ∷ rest) p sh =
      let to_schema = default_schema pair.to.schema (default_schema pair.from.schema schema) in
      let loaded = table_of-Shows V p sh to_schema pair.to.name in
      ground (
        arith,
        loaded,
        check_targets-Shows V schema rest (table_of source to_schema pair.to.name p).1 loaded.1,
      )

  abbrev pub Refines : Prepared source → Option Error × DdlSpec → Tables → Type 0
  Refines r s V = (r.0 ≡ s.0) × (r.1 ≡ s.1) × Shows V r.2

  copy_reference-Shows :
      (V : Tables) (d : DdlSpec) (p : Provider source)
      → Shows V p
      → Refines (copy_reference source d p) (copy_reference_spec d V) V
  unfolding copy_reference copy_reference_spec
  copy_reference-Shows V d p sh = elim (Option-cases d.reference) [
    | inl e ↦ rw (e, copy_reference, copy_reference_spec) (refl, refl, sh)
    | inr (r, e) ↦
        let schema = default_schema r.schema d.schema in
        let loaded = table_of-Shows V p sh schema r.name in ground (arith, e, loaded)
  ]

  prepare_create-Shows :
      (V : Tables) (d : DdlSpec) (p : Provider source)
      → Shows V p
      → Refines (prepare_create source d p) (prepare_create_spec d V) V
  unfolding prepare_create prepare_create_spec
  prepare_create-Shows V d p sh =
      let loaded = table_of-Shows V p sh d.schema d.table in
      ground
        (arith, loaded, copy_reference-Shows V d (table_of source d.schema d.table p).1 loaded.1)

  prepare_affected-Shows :
      (V : Tables) (d : DdlSpec) (p : Provider source)
      → Shows V p
      → Refines (prepare_affected source d p) (check_affected_spec d (affected_tables d) V, d) V
  unfolding prepare_affected
  prepare_affected-Shows V d p sh =
      let checked = check_affected-Shows V d (affected_tables d) p sh in
      (checked.0, refl, checked.1)

  prepare_rename-Shows :
      (V : Tables) (d : DdlSpec) (p : Provider source)
      → Shows V p
      → Refines
          (prepare_rename source d p)
          (elim (check_targets_spec d.schema d.rename_pairs V) [
            | some x ↦ (some x, d)
            | none ↦ (check_affected_spec d (affected_tables d) V, d)
          ])
          V
  unfolding prepare_rename
  prepare_rename-Shows V d p sh =
      let checked = check_targets-Shows V d.schema d.rename_pairs p sh in
      let q = (check_targets source d.schema d.rename_pairs p).1 in
      ground (arith, checked, prepare_affected-Shows V d q checked.1)

  prepare_action-Shows :
      (V : Tables) (d : DdlSpec) (action : DdlAction) (p : Provider source)
      → Shows V p
      → Refines (prepare_ddl source (as_action d action) p) (prepare_spec (as_action d action) V) V
  unfolding prepare_ddl prepare_spec
  prepare_action-Shows V d DdlAction.create_table p sh =
      prepare_create-Shows V (as_action d DdlAction.create_table) p sh
  prepare_action-Shows V d DdlAction.create_view p sh =
      prepare_create-Shows V (as_action d DdlAction.create_view) p sh
  prepare_action-Shows V d DdlAction.rename_table p sh =
      prepare_rename-Shows V (as_action d DdlAction.rename_table) p sh
  prepare_action-Shows V d other p sh = prepare_affected-Shows V (as_action d other) p sh

  prepare_projected-Shows :
      (V : Tables) (d : DdlSpec) (projected : Bool) (p : Provider source)
      → Shows V p
      → let d' = record d { fully_projected = projected } in
        Refines (prepare_ddl source d' p) (prepare_spec d' V) V
  unfolding prepare_ddl prepare_spec
  prepare_projected-Shows V d true p sh = prepare_action-Shows V d d.action p sh
  prepare_projected-Shows V d false p sh = (refl, refl, sh)

  -- `PrepareDDL` returns the error and the statement of its specification, and changes none of the
  -- tables in view, if the cache shows these tables before, on any target that is steady
  -- while the request is audited and that has one table for the names of one cache key.
  pub prepare_ddl-Refines :
      (V : Tables) (d : DdlSpec) (p : Provider source)
      → Shows V p
      → Refines (prepare_ddl source d p) (prepare_spec d V) V
  prepare_ddl-Refines V d p sh = prepare_projected-Shows V d d.fully_projected p sh
