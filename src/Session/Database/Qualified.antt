-- ===== src/Session/Database/Qualified.antt =====
-- The schemas of a statement after `resolveStatementDatabase` of internal/session/session.go.
use goinception_plus.Prelude.{
  Option, none, some, List, [], ◌∷◌, map, if◌then◌else◌, ◌==◌, text_eq, text_beq, text_beq_iff, ◌≡◌,
  ◌≢◌, All, arith, Bool-cases, inl, inr, refl,
}
use goinception_plus.Strings.{Text}
use goinception_plus.Model.{TableRef, RenamePair, DdlSpec, DmlSpec, Statement}
use goinception_plus.Session.Database.{
  fill, fill_pair, resolve_ddl, resolve_dml, first_schema, resolve_statement_database,
}

abbrev pub HasSchema : TableRef → Type 0
HasSchema t = t.schema ≢ []

abbrev pub DdlIsQualified : Option DdlSpec → Type 0
DdlIsQualified none = Unit
DdlIsQualified (some d) =
    (d.schema ≢ [])
    × All HasSchema d.tables
    × All (λ (p : RenamePair). HasSchema p.from × HasSchema p.to) d.rename_pairs

abbrev pub DmlIsQualified : Option DmlSpec → Type 0
DmlIsQualified none = Unit
DmlIsQualified (some m) = All HasSchema m.tables

pub record IsQualified (s : Statement) : Type 0 where
  pub database : s.database ≢ []
  pub ddl : DdlIsQualified s.ddl
  pub dml : DmlIsQualified s.dml

default_nonempty : (v f : Text) → f ≢ [] → (if v == [] then f else v) ≢ []
unfolding text_beq
default_nonempty [] f h = h
default_nonempty (c ∷ v) f h = λ e. cc e

fill-HasSchema : (database : Text) (t : TableRef) → database ≢ [] → HasSchema (fill database t)
fill-HasSchema database t h = elim (Bool-cases (t.schema == [])) [
  | inl e ↦ rw e h
  | inr e ↦ rw e (λ empty. ground (arith, e, empty, text_beq_iff t.schema []))
]

fill-All-HasSchema :
    (database : Text) (l : List TableRef) → database ≢ [] → All HasSchema (map (fill database) l)
fill-All-HasSchema database [] h = tt
fill-All-HasSchema database (t ∷ rest) h =
    (fill-HasSchema database t h, fill-All-HasSchema database rest h)

fill_pairs-HasSchema :
    (database : Text) (l : List RenamePair)
    → database ≢ []
    → All (λ (p : RenamePair). HasSchema p.from × HasSchema p.to) (map (fill_pair database) l)
fill_pairs-HasSchema database [] h = tt
fill_pairs-HasSchema database (p ∷ rest) h = (
  (fill-HasSchema database p.from h, fill-HasSchema database p.to h),
  fill_pairs-HasSchema database rest h,
)

resolve_ddl-qualified :
    (d : Option DdlSpec) (database : Text)
    → database ≢ []
    → DdlIsQualified (resolve_ddl d database).0 × ((resolve_ddl d database).1 ≢ [])
unfolding resolve_ddl
resolve_ddl-qualified none database h = (tt, h)
resolve_ddl-qualified (some d) database h =
    let selected = default_nonempty d.schema database h in
    (
      (
        selected,
        fill-All-HasSchema _ d.tables selected,
        fill_pairs-HasSchema _ d.rename_pairs selected,
      ),
      selected,
    )

resolve_dml-qualified :
    (m : Option DmlSpec) (database : Text)
    → database ≢ []
    → DmlIsQualified (resolve_dml m database).0 × ((resolve_dml m database).1 ≢ [])
unfolding resolve_dml text_beq
resolve_dml-qualified none database h = (tt, h)
resolve_dml-qualified (some m) database h = (
  fill-All-HasSchema database m.tables h,
  first_nonempty database (map (fill database) m.tables) h,
)
  where
    first_nonempty : (v : Text) (l : List TableRef) → v ≢ [] → first_schema v l ≢ []
    first_nonempty v [] n = n
    first_nonempty [] (t ∷ rest) n = absurd (n refl)
    first_nonempty (c ∷ v) (t ∷ rest) n = n

-- The reference of a CREATE TABLE LIKE and the operations of an ALTER TABLE are as they were.
abbrev pub KeepsOthers : Option DdlSpec → Option DdlSpec → Type 0
KeepsOthers none none = Unit
KeepsOthers (some d) (some d') =
    (d'.reference ≡ d.reference) × (d'.alter_operations ≡ d.alter_operations) × (d'.table ≡ d.table)
KeepsOthers d d' = ⊥

resolve_ddl-KeepsOthers :
    (d : Option DdlSpec) (database : Text) → KeepsOthers d (resolve_ddl d database).0
unfolding resolve_ddl
resolve_ddl-KeepsOthers none database = tt
resolve_ddl-KeepsOthers (some d) database = (refl, refl, refl)

-- Once a database is selected, a resolved statement has a database, its DDL has the schema of its table, and
-- every table of its lists and of its rename pairs has its schema. The table that a CREATE TABLE LIKE refers
-- to and the new table in an operation of an ALTER TABLE stay as they were parsed, with or without a schema.
pub resolve_statement_database-IsQualified :
    (current : Text) (s : Statement)
    → current ≢ []
    → IsQualified (resolve_statement_database current s)
      × KeepsOthers s.ddl (resolve_statement_database current s).ddl
unfolding resolve_statement_database
resolve_statement_database-IsQualified current s h =
    let start = if s.database == [] then current else s.database in
    let ddl = resolve_ddl-qualified s.ddl start (default_nonempty s.database current h) in
    let dml = resolve_dml-qualified s.dml (resolve_ddl s.ddl start).1 ddl.1 in
    (record { database = dml.1; ddl = ddl.0; dml = dml.0 }, resolve_ddl-KeepsOthers s.ddl start)
