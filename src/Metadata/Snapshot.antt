-- ===== src/Metadata/Snapshot.antt =====
-- internal/metadata/snapshot.go: `PrepareDDL`, which resolves what the audit of a DDL statement
-- needs, and `ApplyDDL`, which records its effect for the statements that follow.
pub mod Laws
use goinception_plus.Prelude.{
  ℕ, String, Bool, true, false, not, ◌&&◌, ◌||◌, Option, none, some, List, [], ◌∷◌, ◌++◌, map,
  if◌then◌else◌, ◌==◌, text_eq,
}
use goinception_plus.Strings.{Text, txt}
use goinception_plus.Strings.Format.{sprintf}
use goinception_plus.Model.{TableRef, RenamePair, ColumnSpec, IndexSpec, DdlAction, DdlSpec}
use goinception_plus.Audit.Types.{
  Schema, Column, Index, Table, Error, failure, wrap, is_not_found, Result, ok, err,
}
use goinception_plus.Metadata.Table.{default_schema}
use goinception_plus.Metadata.Alter.{table_from_spec, apply_table_ddl, empty_table}
use goinception_plus.Metadata.Cache.{
  MetadataProvider, Provider, table_of, put_table, put_schema, delete_schema, delete_table,
  rename_table,
}

column_spec_of : Column → ColumnSpec
column_spec_of c = record {
  name = c.name;
  type = c.column_type;
  nullable = c.nullable;
  has_comment = not (c.comment == []);
  primary_key = false;
  auto_increment = c.auto_increment;
  unsigned = c.unsigned;
  has_default = elim c.default [ some value ↦ true | none ↦ c.nullable ];
  generated = not (c.generation_expression == []);
  character_set = c.character_set;
  collation = [];
  default_expression = elim c.default [
    | some value ↦ value
    | none ↦ if c.nullable then txt "null" else []
  ];
  on_update = false;
  length = 0;
  position_changed = false;
  explicit_charset = false;
}

unfoldable pub columns_from_table : Table → List ColumnSpec
unfolding column_spec_of
columns_from_table t = map column_spec_of t.columns

index_spec_of : Index → IndexSpec
index_spec_of i = record {
  name = i.name;
  columns = i.columns;
  unique = i.unique;
  primary = i.primary;
  prefix_lengths = i.prefix_lengths;
  expressions = i.expressions;
}

unfoldable pub indexes_from_table : Table → List IndexSpec
unfolding index_spec_of
indexes_from_table t = map index_spec_of t.indexes

any_primary : List Index → Bool
any_primary [] = false
any_primary (i ∷ rest) = i.primary || any_primary rest

unfoldable pub derive_flags : DdlSpec → Table → DdlSpec
unfolding any_primary
derive_flags d t = record d {
  has_comment = not (t.comment == []);
  has_primary_key = d.has_primary_key || any_primary t.indexes;
}

pair_from : RenamePair → TableRef
pair_from pair = pair.from

unfoldable pub affected_tables : DdlSpec → List TableRef
unfolding pair_from
affected_tables d = elim d.action [
  | DdlAction.alter_table ↦ d.tables
  | DdlAction.truncate_table ↦ d.tables
  | DdlAction.create_index ↦ d.tables
  | DdlAction.drop_index ↦ d.tables
  | DdlAction.drop_table ↦ d.tables
  | DdlAction.drop_view ↦ d.tables
  | DdlAction.rename_table ↦ map pair_from d.rename_pairs
  | _ ↦ []
]

unfoldable pub exists_error : String → Text → Text → Error
exists_error template schema name = failure (sprintf template (schema ∷ name ∷ []))

unfoldable pub lookup_error : String → Text → Text → Error → Error
lookup_error template schema name e = wrap (sprintf template (schema ∷ name ∷ [])) e

abbrev pub view_table : DdlSpec → Table
view_table d = record (empty_table d.schema d.table) { is_view = true; table_type = txt "VIEW" }

module _ (source : MetadataProvider) where
  -- The error that stopped `PrepareDDL`, the statement with what it resolved, and the cache.
  abbrev pub Prepared : Type 0
  Prepared = Option Error × DdlSpec × Provider source

  -- A CREATE TABLE ... LIKE takes over the columns and indexes of its source table. A statement
  -- with `CreateLike` and no reference, on which the code would panic, is an error.
  unfoldable pub copy_reference : DdlSpec → Provider source → Prepared
  copy_reference d p = elim d.reference [
    | none ↦ (some (failure (txt "missing reference")), d, p)
    | some r ↦
        let r' = record r { schema = default_schema r.schema d.schema } in
        let d' = record d { reference = some r' } in
        let (loaded, p') = table_of source r'.schema r'.name p in
        elim loaded [
          | err e ↦ (some (lookup_error "source table %s.%s: " r'.schema r'.name e), d', p')
          | ok t ↦ (
            none,
            derive_flags
                (record d' { columns = columns_from_table t; indexes = indexes_from_table t }) t,
            p',
          )
        ]
  ]

  unfoldable pub prepare_create : DdlSpec → Provider source → Prepared
  unfolding copy_reference
  prepare_create d p =
      let (loaded, p') = table_of source d.schema d.table p in
      elim loaded [
        | ok t ↦
            if d.if_not_exists
            then (none, record d { noop = true }, p')
            else (some (exists_error "table %s.%s already exists" d.schema d.table), d, p')
        | err e ↦
            if is_not_found e
            then if d.create_like then copy_reference d p' else (none, d, p')
            else (some e, d, p')
      ]

  -- The targets of a RENAME TABLE must be free.
  unfoldable pub check_targets :
      Text → List RenamePair → Provider source → Option Error × Provider source
  check_targets schema [] p = (none, p)
  check_targets schema (pair ∷ rest) p =
      let to_schema = default_schema pair.to.schema (default_schema pair.from.schema schema) in
      let (loaded, p') = table_of source to_schema pair.to.name p in
      let others = check_targets schema rest p' in
      elim loaded [
        | ok t ↦
            (some (exists_error "rename target %s.%s already exists" to_schema pair.to.name), p')
        | err e ↦ if is_not_found e then others else (some e, p')
      ]

  -- The tables that the statement affects must exist.
  unfoldable pub check_affected :
      DdlSpec → List TableRef → Provider source → Option Error × Provider source
  check_affected d [] p = (none, p)
  check_affected d (r ∷ rest) p =
      let schema = default_schema r.schema d.schema in
      let (loaded, p') = table_of source schema r.name p in
      let others = check_affected d rest p' in
      elim loaded [
        | ok t ↦ others
        | err e ↦
            if d.if_exists && is_not_found e
            then others
            else (some (lookup_error "table %s.%s: " schema r.name e), p')
      ]

  unfoldable pub prepare_affected : DdlSpec → Provider source → Prepared
  unfolding check_affected affected_tables
  prepare_affected d p = let (e, p') = check_affected d (affected_tables d) p in (e, d, p')

  unfoldable pub prepare_rename : DdlSpec → Provider source → Prepared
  unfolding check_targets prepare_affected
  prepare_rename d p =
      let (e, p') = check_targets d.schema d.rename_pairs p in
      elim e [ some x ↦ (some x, d, p') | none ↦ prepare_affected d p' ]

  unfoldable pub prepare_ddl : DdlSpec → Provider source → Prepared
  unfolding prepare_create prepare_rename prepare_affected
  prepare_ddl d p =
      if d.fully_projected
      then elim d.action [
        | DdlAction.create_table ↦ prepare_create d p
        | DdlAction.create_view ↦ prepare_create d p
        | DdlAction.rename_table ↦ prepare_rename d p
        | _ ↦ prepare_affected d p
      ]
      else (none, d, p)

  unfoldable pub delete_tables : Text → List TableRef → Provider source → Provider source
  delete_tables schema [] p = p
  delete_tables schema (r ∷ rest) p =
      delete_tables schema rest (delete_table source (default_schema r.schema schema) r.name p)

  unfoldable pub rename_loaded :
      TableRef → TableRef → Text → Provider source → Option Error × Provider source
  rename_loaded from to fallback p =
      let from_schema = default_schema from.schema fallback in
      let to_schema = default_schema to.schema from_schema in
      let (loaded, p') = table_of source from_schema from.name p in
      elim loaded [
        | err e ↦ (some e, p')
        | ok t ↦ (
          none,
          rename_table source from_schema from.name
              (record t { schema = to_schema; name = to.name }) p',
        )
      ]

  unfoldable pub rename_pairs_in :
      Text → List RenamePair → Provider source → Option Error × Provider source
  unfolding rename_loaded
  rename_pairs_in schema [] p = (none, p)
  rename_pairs_in schema (pair ∷ rest) p =
      let (e, p') = rename_loaded pair.from pair.to schema p in
      let others = rename_pairs_in schema rest p' in
      elim e [ some x ↦ (some x, p') | none ↦ others ]

  unfoldable pub alter_loaded : DdlSpec → Provider source → Option Error × Provider source
  alter_loaded d p =
      let (loaded, p') = table_of source d.schema d.table p in
      elim loaded [
        | err e ↦ (some e, p')
        | ok t ↦ elim (apply_table_ddl d t) [
          | err e ↦ (some e, p')
          | ok t' ↦ (
            none,
            if t.schema == t'.schema && t.name == t'.name
                then put_table source t' p'
                else rename_table source t.schema t.name t' p',
          )
        ]
      ]

  unfoldable pub apply_ddl : DdlSpec → Provider source → Option Error × Provider source
  unfolding delete_tables rename_pairs_in alter_loaded
  apply_ddl d p = if not d.fully_projected || d.noop then (none, p) else elim d.action [
    | DdlAction.create_database ↦
        (none, put_schema source (record { name = d.schema; character_set = []; collation = [] }) p)
    | DdlAction.drop_database ↦ (none, delete_schema source d.schema p)
    | DdlAction.create_table ↦ (none, put_table source (table_from_spec d) p)
    | DdlAction.create_view ↦ (none, put_table source (view_table d) p)
    | DdlAction.drop_table ↦ (none, delete_tables d.schema d.tables p)
    | DdlAction.drop_view ↦ (none, delete_tables d.schema d.tables p)
    | DdlAction.rename_table ↦ rename_pairs_in d.schema d.rename_pairs p
    | DdlAction.create_index ↦ alter_loaded d p
    | DdlAction.drop_index ↦ alter_loaded d p
    | DdlAction.alter_table ↦ alter_loaded d p
    | _ ↦ (none, p)
  ]
