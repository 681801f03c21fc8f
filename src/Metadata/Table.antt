-- ===== src/Metadata/Table.antt =====
-- internal/metadata/snapshot.go: a table built from a CREATE TABLE, and the effect of CREATE INDEX,
-- DROP INDEX and ALTER TABLE on a table. A table is a value, so that the code's in-place writes to
-- a private copy are the returned table.
use goinception_plus.Prelude.{
  ℕ, String, Bool, true, false, ◌&&◌, Option, none, some, List, [], ◌∷◌, ◌++◌, map, if◌then◌else◌,
  remove_at, is_empty, ◌==◌, text_eq,
}
use goinception_plus.Strings.{Text, txt}
use goinception_plus.Strings.Fold.{equal_fold}
use goinception_plus.Strings.Format.{sprintf}
use goinception_plus.Model.{ColumnSpec, IndexSpec}
use goinception_plus.Audit.Types.{Column, Index, Table, Error, failure, Result, ok, err, ◌>>=◌}
use goinception_plus.Metadata.Names.{find_named, modify_at, name_at}

abbrev pub column_name : Column → Text
column_name c = c.name

abbrev pub index_name : Index → Text
index_name i = i.name

unfoldable pub find_column : Table → Text → Option ℕ
find_column t n = find_named column_name n t.columns

unfoldable pub find_index : Table → Text → Option ℕ
find_index t n = find_named index_name n t.indexes

-- An error of `fmt.Errorf` with one name in it.
unfoldable pub name_error : String → Text → Error
name_error template name = failure (sprintf template (name ∷ []))

abbrev pub default_schema : Text → Text → Text
default_schema v f = if v == [] then f else v

abbrev pub optional_text : Bool → Text → Option Text
optional_text has value = if has then some value else none

unfoldable pub column_from_spec : ColumnSpec → Column
column_from_spec c = record {
  name = c.name;
  column_type = c.type;
  nullable = c.nullable;
  default = optional_text c.has_default c.default_expression;
  extra = if c.on_update then txt "on update" else [];
  character_set = c.character_set;
  collation = c.collation;
  comment = if c.has_comment then txt "comment" else [];
  generation_expression = if c.generated then txt "generated" else [];
  auto_increment = c.auto_increment;
  unsigned = c.unsigned;
}

unfoldable pub merge_column_spec : ColumnSpec → Column → Column
merge_column_spec spec current = record {
  name = spec.name;
  column_type = spec.type;
  nullable = spec.nullable;
  default = if spec.has_default then some spec.default_expression else current.default;
  extra = if spec.on_update then txt "on update" else current.extra;
  character_set = if spec.character_set == [] then current.character_set else spec.character_set;
  collation = if spec.collation == [] then current.collation else spec.collation;
  comment = if spec.has_comment then txt "comment" else current.comment;
  generation_expression = if spec.generated then txt "generated" else current.generation_expression;
  auto_increment = spec.auto_increment;
  unsigned = spec.unsigned;
}

-- `audit.Index` literals of the code, with the fields that they leave at their zero values.
abbrev pub index_from : Text → List Text → Bool → Bool → List ℕ → List Text → Index
index_from name columns unique primary prefix_lengths expressions = record {
  name = name;
  columns = columns;
  unique = unique;
  primary = primary;
  prefix_lengths = prefix_lengths;
  expressions = expressions;
  directions = [];
  index_type = [];
  visible = true;
}

unfoldable pub rename_part : Text → Text → Text → Text
rename_part old_name new_name name = if equal_fold name old_name then new_name else name

unfoldable pub rename_in_index : Text → Text → Index → Index
unfolding rename_part
rename_in_index old_name new_name i = record i {
  columns = map (rename_part old_name new_name) i.columns;
}

unfoldable pub rename_column_in_indexes : Text → Text → Table → Table
unfolding rename_in_index
rename_column_in_indexes old_name new_name t = record t {
  indexes = map (rename_in_index old_name new_name) t.indexes;
}

-- The inner loop of `dropColumnFromIndexes`: the columns and the prefix lengths that stay.
unfoldable pub drop_parts : Text → List Text → List ℕ → List Text × List ℕ
drop_parts column [] lengths = ([], [])
drop_parts column (name ∷ names) [] =
    let (names', lengths') = drop_parts column names [] in
    if equal_fold name column then (names', lengths') else (name ∷ names', lengths')
drop_parts column (name ∷ names) (n ∷ lengths) =
    let (names', lengths') = drop_parts column names lengths in
    if equal_fold name column then (names', lengths') else (name ∷ names', n ∷ lengths')

unfoldable pub drop_from_index : Text → Index → Index
unfolding drop_parts
drop_from_index column i =
    let (columns, lengths) = drop_parts column i.columns i.prefix_lengths in
    record i { columns = columns; prefix_lengths = lengths }

unfoldable pub drop_from_all : Text → List Index → List Index
unfolding drop_from_index
drop_from_all column [] = []
drop_from_all column (i ∷ rest) =
    let index = drop_from_index column i in
    let others = drop_from_all column rest in
    if is_empty index.columns && is_empty index.expressions then others else index ∷ others

unfoldable pub drop_column_from_indexes : Text → Table → Table
unfolding drop_from_all
drop_column_from_indexes column t = record t { indexes = drop_from_all column t.indexes }

-- CREATE INDEX keeps the names, the columns and the uniqueness of the new indexes.
unfoldable pub create_indexes : List IndexSpec → Table → Result Table
unfolding find_index
create_indexes [] t = ok t
create_indexes (i ∷ rest) t = elim (find_index t i.name) [
  | some n ↦ err (name_error "index %s already exists" i.name)
  | none ↦
      create_indexes rest
        (record t { indexes = t.indexes ++ index_from i.name i.columns i.unique false [] [] ∷ [] })
]

unfoldable pub drop_index_named : Text → Table → Result Table
unfolding find_index
drop_index_named name t = elim (find_index t name) [
  | none ↦ err (name_error "index %s does not exist" name)
  | some n ↦ ok (record t { indexes = remove_at t.indexes n })
]

unfoldable pub drop_indexes : List IndexSpec → Table → Result Table
unfolding drop_index_named
drop_indexes [] t = ok t
drop_indexes (i ∷ rest) t = drop_index_named i.name t >>= drop_indexes rest

unfoldable pub add_columns : List ColumnSpec → Table → Result Table
unfolding find_column column_from_spec
add_columns [] t = ok t
add_columns (c ∷ rest) t = elim (find_column t c.name) [
  | some n ↦ err (name_error "column %s already exists" c.name)
  | none ↦ add_columns rest (record t { columns = t.columns ++ column_from_spec c ∷ [] })
]

unfoldable pub drop_column : Text → Table → Result Table
unfolding find_column drop_column_from_indexes
drop_column name t = elim (find_column t name) [
  | none ↦ err (name_error "column %s does not exist" name)
  | some n ↦ ok (drop_column_from_indexes name (record t { columns = remove_at t.columns n }))
]

unfoldable pub modify_column : List ColumnSpec → Table → Result Table
unfolding find_column merge_column_spec
modify_column (spec ∷ []) t = elim (find_column t spec.name) [
  | none ↦ err (name_error "column %s does not exist" spec.name)
  | some n ↦ ok (record t { columns = modify_at (merge_column_spec spec) n t.columns })
]
modify_column _ t = err (failure (txt "invalid MODIFY COLUMN projection"))

unfoldable pub change_column : Text → List ColumnSpec → Table → Result Table
unfolding find_column merge_column_spec rename_column_in_indexes
change_column name (spec ∷ []) t = elim (find_column t name) [
  | none ↦ err (name_error "column %s does not exist" name)
  | some n ↦ ok (
      rename_column_in_indexes (name_at column_name n t.columns) spec.name
        (record t { columns = modify_at (merge_column_spec spec) n t.columns }))
]
change_column name _ t = err (failure (txt "invalid CHANGE COLUMN projection"))

unfoldable pub rename_column : Text → Text → Table → Result Table
unfolding find_column rename_column_in_indexes
rename_column name new_name t = elim (find_column t name) [
  | none ↦ err (name_error "column %s does not exist" name)
  | some n ↦ elim (find_column t new_name) [
    | some m ↦ err (name_error "column %s already exists" new_name)
    | none ↦ ok (
        rename_column_in_indexes name new_name
          (record t { columns = modify_at (λ c. record c { name = new_name }) n t.columns }))
  ]
]
