-- ===== src/Session/Database.antt =====
-- internal/session/session.go: `resolveStatementDatabase` and `requiresDatabase`.
pub mod Qualified
use goinception_plus.Prelude.{
  ℕ, Bool, true, false, Option, none, some, List, [], ◌∷◌, map, if◌then◌else◌, ◌==◌, text_eq,
}
use goinception_plus.Strings.{Text}
use goinception_plus.Model.{TableRef, RenamePair, DdlSpec, DmlSpec, StatementKind, Statement}

abbrev pub fill : Text → TableRef → TableRef
fill database t = if t.schema == [] then record t { schema = database } else t

abbrev pub fill_pair : Text → RenamePair → RenamePair
fill_pair database pair = record pair { from = fill database pair.from; to = fill database pair.to }

-- The DDL projection with the database of the statement.
unfoldable pub resolve_ddl : Option DdlSpec → Text → Option DdlSpec × Text
resolve_ddl none database = (none, database)
resolve_ddl (some d) database =
    let selected = if d.schema == [] then database else d.schema in
    (
      some (record d {
        schema = selected;
        tables = map (fill selected) d.tables;
        rename_pairs = map (fill_pair selected) d.rename_pairs;
      }),
      selected,
    )

-- The database of the first table, if the statement has none.
first_schema : Text → List TableRef → Text
first_schema database [] = database
first_schema database (t ∷ rest) = if database == [] then t.schema else database

unfoldable pub resolve_dml : Option DmlSpec → Text → Option DmlSpec × Text
unfolding first_schema
resolve_dml none database = (none, database)
resolve_dml (some m) database =
    let tables = map (fill database) m.tables in
    (some (record m { tables = tables }), first_schema database tables)

unfoldable pub resolve_statement_database : Text → Statement → Statement
unfolding resolve_ddl resolve_dml
resolve_statement_database current s =
    let (ddl, selected) = resolve_ddl s.ddl (if s.database == [] then current else s.database) in
    let (dml, database) = resolve_dml s.dml selected in
    record s { database = database; ddl = ddl; dml = dml }

unfoldable pub requires_database : Statement → Bool
requires_database s = elim s.kind [
  | StatementKind.create_table ↦ true
  | StatementKind.alter_table ↦ true
  | StatementKind.drop_table ↦ true
  | StatementKind.rename_table ↦ true
  | StatementKind.truncate_table ↦ true
  | StatementKind.insert ↦ true
  | StatementKind.update ↦ true
  | StatementKind.delete ↦ true
  | StatementKind.create_index ↦ true
  | StatementKind.drop_index ↦ true
  | StatementKind.create_view ↦ true
  | StatementKind.alter_view ↦ true
  | StatementKind.drop_view ↦ true
  | _ ↦ false
]
