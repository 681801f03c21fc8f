-- ===== src/Metadata/Snapshot/Laws/Effects.antt =====
-- What one DDL statement of a request means for the next in internal/metadata/snapshot.go.
use goinception_plus.Prelude.{
  Bool, true, false, Option, none, some, List, [], ◌∷◌, if◌then◌else◌, ◌==◌, text_eq, ◌≡◌, refl,
  ◌∙◌, arith, ap, sym, subst, any, beq_refl,
}
use goinception_plus.Strings.{Text}
use goinception_plus.Model.{TableRef, DdlAction, DdlSpec}
use goinception_plus.Audit.Types.{Table, Error, metadata_not_found, Result, ok, err}
use goinception_plus.Metadata.Table.{default_schema}
use goinception_plus.Metadata.Alter.{table_from_spec}
use goinception_plus.Metadata.Cache.{MetadataProvider, Provider, table_key, delete_schema}
use goinception_plus.Metadata.Cache.Laws.{IsStable, AgreesOnKeys, view}
use goinception_plus.Metadata.Snapshot.{prepare_ddl, apply_ddl, exists_error}
use goinception_plus.Metadata.Snapshot.Laws.Spec.{
  Tables, update, prepare_spec, prepare_create_spec, delete_spec, apply_spec,
}
use goinception_plus.Metadata.Snapshot.Laws.Refinement.{Shows, prepare_ddl-Refines}
use goinception_plus.Metadata.Snapshot.Laws.Applying.{apply_ddl-AppliesAs}

abbrev pub named_by : Bool → Text → Text → Text → TableRef → Bool
named_by lower_case schema s t r =
    table_key lower_case (default_schema r.schema schema) r.name == table_key lower_case s t

-- The tables named by a DROP are gone, and no other.
delete_spec-lookup :
    (lower_case : Bool) (schema : Text) (refs : List TableRef) (V : Tables) (s t : Text)
    → delete_spec lower_case schema refs V s t
      ≡ (if any (named_by lower_case schema s t) refs then err metadata_not_found else V s t)
unfolding delete_spec update any
delete_spec-lookup lower_case schema [] V s t = refl
delete_spec-lookup lower_case schema (r ∷ rest) V s t =
    let V' = update lower_case (default_schema r.schema schema) r.name (err metadata_not_found) V in
    ground (arith, delete_spec-lookup lower_case schema rest V' s t)

-- A statement that `ApplyDDL` carries out.
abbrev pub IsEffective : DdlAction → DdlSpec → Type 0
IsEffective action d = (d.action ≡ action) × (d.fully_projected ≡ true) × (d.noop ≡ false)

apply_create_table :
    (lower_case : Bool) (d : DdlSpec) (V : Tables)
    → IsEffective DdlAction.create_table d
    → apply_spec lower_case d V
      ≡ (none, update lower_case d.schema d.table (ok (table_from_spec d)) V)
unfolding apply_spec
apply_create_table lower_case d V (a, f, n) = simp (a, f, n)

apply_drop_table :
    (lower_case : Bool) (d : DdlSpec) (V : Tables)
    → IsEffective DdlAction.drop_table d
    → apply_spec lower_case d V ≡ (none, delete_spec lower_case d.schema d.tables V)
unfolding apply_spec
apply_drop_table lower_case d V (a, f, n) = simp (a, f, n)

prepare_create_existing :
    (d : DdlSpec) (V : Tables) (t : Table)
    → d.action ≡ DdlAction.create_table
    → d.fully_projected ≡ true
    → V d.schema d.table ≡ ok t
    → (prepare_spec d V).0 ≡ (
        if d.if_not_exists
        then none
        else some (exists_error "table %s.%s already exists" d.schema d.table))
unfolding prepare_spec prepare_create_spec
prepare_create_existing d V t a f e = ground arith

update_here :
    (lower_case : Bool) (d d' : DdlSpec) (V : Tables)
    → table_key lower_case d.schema d.table ≡ table_key lower_case d'.schema d'.table
    → update lower_case d.schema d.table (ok (table_from_spec d)) V d'.schema d'.table
      ≡ ok (table_from_spec d)
unfolding update
update_here lower_case d d' V same =
    rw (same, beq_refl (table_key lower_case d'.schema d'.table)) refl

module _ (source : MetadataProvider) (content : Tables) (stable : IsStable source content)
    (lower_case : Bool) (agrees : AgreesOnKeys lower_case content) where
  abbrev Shown : Tables → Provider source → Type 0
  Shown V p = Shows source content stable lower_case agrees V p

  -- After a CREATE TABLE of the request that is projected in full and no no-op, a second CREATE TABLE
  -- of a name with the same key, also projected in full, is refused as existing, or is accepted if
  -- it says IF NOT EXISTS, whatever the steady target holds.
  pub prepare_ddl-apply_ddl_create :
      (V : Tables) (d d' : DdlSpec) (p : Provider source)
      → Shown V p
      → IsEffective DdlAction.create_table d
      → d'.action ≡ DdlAction.create_table
      → d'.fully_projected ≡ true
      → table_key lower_case d.schema d.table ≡ table_key lower_case d'.schema d'.table
      → (prepare_ddl source d' (apply_ddl source d p).1).0 ≡ (
          if d'.if_not_exists
          then none
          else some (exists_error "table %s.%s already exists" d'.schema d'.table))
  prepare_ddl-apply_ddl_create V d d' p sh eff a f same =
      let W = update lower_case d.schema d.table (ok (table_from_spec d)) V in
      let applied = apply_ddl-AppliesAs source content stable lower_case agrees V d p sh in
      let shown =
        subst (λ (s : Option Error × Tables). Shown s.1 (apply_ddl source d p).1)
          (apply_create_table lower_case d V eff) applied.1 in
      let prepared =
        prepare_ddl-Refines source content stable lower_case agrees W d' (apply_ddl source d p).1
          shown in
      prepared.0
      ∙ prepare_create_existing d' W (table_from_spec d) a f (update_here lower_case d d' V same)

  -- After a DROP TABLE of the request that is projected in full and no no-op, a table of a name with
  -- the key of a named table is missing in view; every other is in view as before, on a steady target.
  pub view-apply_ddl_drop :
      (V : Tables) (d : DdlSpec) (p : Provider source)
      → Shown V p
      → IsEffective DdlAction.drop_table d
      → (s t : Text)
      → view source content (apply_ddl source d p).1 s t ≡ (
          if any (named_by lower_case d.schema s t) d.tables
          then err metadata_not_found
          else view source content p s t)
  view-apply_ddl_drop V d p sh eff s t =
      let applied = apply_ddl-AppliesAs source content stable lower_case agrees V d p sh in
      let shown =
        subst (λ (s : Option Error × Tables). Shown s.1 (apply_ddl source d p).1)
          (apply_drop_table lower_case d V eff) applied.1 in
      shown.shown s t
      ∙ delete_spec-lookup lower_case d.schema d.tables V s t
      ∙ ap
          (λ (r : Result Table).
            if any (named_by lower_case d.schema s t) d.tables then err metadata_not_found else r)
          (sym (sh.shown s t))

-- After a DROP DATABASE of the request every table of the database is still in view.
pub view-apply_ddl_drop_database :
    (source : MetadataProvider) (content : Tables) (d : DdlSpec) (p : Provider source)
    → d.action ≡ DdlAction.drop_database
    → (s t : Text) → view source content (apply_ddl source d p).1 s t ≡ view source content p s t
unfolding apply_ddl view delete_schema
view-apply_ddl_drop_database source content d p e s t = ground arith
