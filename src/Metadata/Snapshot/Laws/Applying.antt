-- ===== src/Metadata/Snapshot/Laws/Applying.antt =====
-- `ApplyDDL` of internal/metadata/snapshot.go and its specification.
use goinception_plus.Prelude.{
  Bool, true, false, Option, List, [], ◌∷◌, text_eq, ◌≡◌, refl, ◌∙◌, arith, inl, inr,
}
use mathlib.Core.Path.{subst₂}
use goinception_plus.Strings.{Text}
use goinception_plus.Model.{TableRef, RenamePair, DdlAction, DdlSpec}
use goinception_plus.Audit.Types.{Table, Error, metadata_not_found, ok, err, Result-cases}
use goinception_plus.Metadata.Table.{default_schema}
use goinception_plus.Metadata.Alter.{table_from_spec, apply_table_ddl}
use goinception_plus.Metadata.Alter.Created.{table_from_spec-SameName}
use goinception_plus.Metadata.Cache.{
  MetadataProvider, Provider, table_of, put_table, delete_table, rename_table, put_schema,
  delete_schema,
}
use goinception_plus.Metadata.Cache.Laws.{
  IsStable, AgreesOnKeys, view, view-put_table, view-delete_table,
}
use goinception_plus.Metadata.Snapshot.{
  view_table, rename_pairs_in, alter_loaded, apply_ddl, delete_tables,
}
use goinception_plus.Metadata.Snapshot.Laws.Spec.{
  Tables, update, move, delete_spec, rename_spec, alter_spec, apply_spec,
}
use goinception_plus.Metadata.Snapshot.Laws.Refinement.{Shows, table_of-Shows}

abbrev effective : DdlSpec → DdlAction → DdlSpec
effective d action = record d { action = action; fully_projected = true; noop = false }

module _ (source : MetadataProvider) (content : Tables) (stable : IsStable source content)
    (lower_case : Bool) (agrees : AgreesOnKeys lower_case content) where
  abbrev Shown : Tables → Provider source → Type 0
  Shown V p = Shows source content stable lower_case agrees V p

  loaded-Shown :
      (V : Tables) (p : Provider source)
      → Shown V p
      → (s t : Text) → ((table_of source s t p).0 ≡ V s t) × Shown V (table_of source s t p).1
  loaded-Shown V p sh s t = table_of-Shows source content stable lower_case agrees V p sh s t

  put_table-Shows :
      (V : Tables) (x : Table) (p : Provider source)
      → Shown V p
      → Shown (update lower_case x.schema x.name (ok x) V) (put_table source x p)
  unfolding update put_table
  put_table-Shows V x p sh = record {
    mode = sh.mode;
    shown = λ s t. view-put_table source content x p s t ∙ ground (arith, sh.mode, sh.shown s t);
  }

  delete_table-Shows :
      (V : Tables) (a b : Text) (p : Provider source)
      → Shown V p
      → Shown (update lower_case a b (err metadata_not_found) V) (delete_table source a b p)
  unfolding update delete_table
  delete_table-Shows V a b p sh = record {
    mode = sh.mode;
    shown =
        λ s t. view-delete_table source content a b p s t ∙ ground (arith, sh.mode, sh.shown s t);
  }

  rename_table-Shows :
      (V : Tables) (a b : Text) (x : Table) (p : Provider source)
      → Shown V p
      → Shown (move lower_case a b x V) (rename_table source a b x p)
  unfolding move rename_table
  rename_table-Shows V a b x p sh = put_table-Shows _ x _ (delete_table-Shows V a b p sh)

  delete_tables-Shows :
      (V : Tables) (schema : Text) (refs : List TableRef) (p : Provider source)
      → Shown V p
      → Shown (delete_spec lower_case schema refs V) (delete_tables source schema refs p)
  unfolding delete_spec delete_tables
  delete_tables-Shows V schema [] p sh = sh
  delete_tables-Shows V schema (r ∷ rest) p sh =
      delete_tables-Shows
        (update lower_case (default_schema r.schema schema) r.name (err metadata_not_found) V)
        schema rest (delete_table source (default_schema r.schema schema) r.name p)
        (delete_table-Shows V (default_schema r.schema schema) r.name p sh)

  abbrev AppliesAs : Option Error × Provider source → Option Error × Tables → Type 0
  AppliesAs r s = (r.0 ≡ s.0) × Shown s.1 r.1

  rename_pairs-Shows :
      (V : Tables) (schema : Text) (pairs : List RenamePair) (p : Provider source)
      → Shown V p
      → AppliesAs (rename_pairs_in source schema pairs p) (rename_spec lower_case schema pairs V)
  unfolding rename_pairs_in rename_spec
  rename_pairs-Shows V schema [] p sh = (refl, sh)
  rename_pairs-Shows V schema (pair ∷ rest) p sh =
      let from_schema = default_schema pair.from.schema schema in
      let to_schema = default_schema pair.to.schema from_schema in
      let loaded = loaded-Shown V p sh from_schema pair.from.name in
      elim (Result-cases (V from_schema pair.from.name)) [
        | inr (e, missing) ↦ ground (arith, loaded, missing)
        | inl (t, found) ↦
            let moved = record t { schema = to_schema; name = pair.to.name } in
            let q = (table_of source from_schema pair.from.name p).1 in
            ground (
              arith,
              loaded,
              found,
              rename_pairs-Shows (move lower_case from_schema pair.from.name moved V) schema rest
                  (rename_table source from_schema pair.from.name moved q)
                  (rename_table-Shows V from_schema pair.from.name moved q loaded.1),
            )
      ]

  alter_loaded-Shows :
      (V : Tables) (d : DdlSpec) (p : Provider source)
      → Shown V p
      → AppliesAs (alter_loaded source d p) (alter_spec lower_case d V)
  unfolding alter_loaded alter_spec
  alter_loaded-Shows V d p sh =
      let loaded = loaded-Shown V p sh d.schema d.table in
      let q = (table_of source d.schema d.table p).1 in
      elim (Result-cases (V d.schema d.table)) [
        | inr (e, missing) ↦ ground (arith, loaded, missing)
        | inl (t, found) ↦ elim (Result-cases (apply_table_ddl d t)) [
          | inr (e, failed) ↦ ground (arith, loaded, found, failed)
          | inl (t', done) ↦ ground (
            arith,
            loaded,
            found,
            done,
            put_table-Shows V t' q loaded.1,
            rename_table-Shows V t.schema t.name t' q loaded.1,
          )
        ]
      ]

  apply_action-Shows :
      (V : Tables) (d : DdlSpec) (action : DdlAction) (p : Provider source)
      → Shown V p
      → let d' = effective d action in
        AppliesAs (apply_ddl source d' p) (apply_spec lower_case d' V)
  unfolding apply_ddl apply_spec view put_schema delete_schema table_from_spec
  apply_action-Shows V d DdlAction.create_table p sh =
      let named = table_from_spec-SameName d in
      (
        refl,
        subst₂
            (λ a b.
              Shown (update lower_case a b (ok (table_from_spec d)) V)
                (put_table source (table_from_spec d) p))
            named.0 named.1 (put_table-Shows V (table_from_spec d) p sh),
      )
  apply_action-Shows V d DdlAction.create_view p sh = (refl, put_table-Shows V (view_table d) p sh)
  apply_action-Shows V d DdlAction.drop_table p sh =
      (refl, delete_tables-Shows V d.schema d.tables p sh)
  apply_action-Shows V d DdlAction.drop_view p sh =
      (refl, delete_tables-Shows V d.schema d.tables p sh)
  apply_action-Shows V d DdlAction.rename_table p sh =
      rename_pairs-Shows V d.schema d.rename_pairs p sh
  apply_action-Shows V d DdlAction.create_index p sh =
      alter_loaded-Shows V (effective d DdlAction.create_index) p sh
  apply_action-Shows V d DdlAction.drop_index p sh =
      alter_loaded-Shows V (effective d DdlAction.drop_index) p sh
  apply_action-Shows V d DdlAction.alter_table p sh =
      alter_loaded-Shows V (effective d DdlAction.alter_table) p sh
  apply_action-Shows V d DdlAction.create_database p sh =
      (refl, record { mode = sh.mode; shown = λ s t. sh.shown s t })
  apply_action-Shows V d DdlAction.drop_database p sh =
      (refl, record { mode = sh.mode; shown = λ s t. sh.shown s t })
  apply_action-Shows V d _ p sh = (refl, sh)

  apply_flags-Shows :
      (V : Tables) (d : DdlSpec) (projected noop : Bool) (p : Provider source)
      → Shown V p
      → let d' = record d { fully_projected = projected; noop = noop } in
        AppliesAs (apply_ddl source d' p) (apply_spec lower_case d' V)
  unfolding apply_ddl apply_spec
  apply_flags-Shows V d true false p sh = apply_action-Shows V d d.action p sh
  apply_flags-Shows V d true true p sh = (refl, sh)
  apply_flags-Shows V d false noop p sh = (refl, sh)

  -- `ApplyDDL` returns the error of its specification, and afterwards the cache shows the tables of
  -- the specification, if it shows the tables of the specification's start before, on any target that
  -- is steady while the request is audited and that has one table for the names of one cache key.
  pub apply_ddl-AppliesAs :
      (V : Tables) (d : DdlSpec) (p : Provider source)
      → Shown V p
      → AppliesAs (apply_ddl source d p) (apply_spec lower_case d V)
  apply_ddl-AppliesAs V d p sh = apply_flags-Shows V d d.fully_projected d.noop p sh
