-- ===== src/Rules/Dml/Conversion.antt =====
-- internal/audit/rules/dml.go: `resolveComparisonColumn` and `implicitConversion`, with `baseType` and
-- `isIntegerType` of internal/audit/rules/legacy_ddl.go.
use goinception_plus.Prelude.{
  Bool, true, false, ◌||◌, Option, none, some, List, [], ◌∷◌, ◌++◌, map, any, keep, if◌then◌else◌,
  ◌==◌, nat_eq, text_eq,
}
use goinception_plus.Strings.{Text, txt, to_lower, trim_space}
use goinception_plus.Strings.Dict.{lookup}
use goinception_plus.Strings.Fold.{equal_fold}
use goinception_plus.Model.{TableRef, ColumnRef, LiteralKind}
use goinception_plus.Audit.Types.{Column, Table}

-- The columns of a name, with the table that they are found in.
named_columns : Text → Text → List Column → List (Column × Text)
unfolding keep
named_columns name table columns =
    map (λ (c : Column). (c, table)) (keep (λ (c : Column). equal_fold c.name name) columns)

first_column : List (Column × Text) → Option (Column × Text)
first_column [] = none
first_column (c ∷ rest) = some c

-- The loop over the tables of the statement, each name once.
matching_columns : Text → List (Text × Table) → List Text → List TableRef → List (Column × Text)
unfolding named_columns lookup any
matching_columns name tables seen [] = []
matching_columns name tables seen (r ∷ rest) =
    let key = to_lower r.name in
    let again = matching_columns name tables seen rest in
    let others = matching_columns name tables (key ∷ seen) rest in
    let here : List (Column × Text) = elim (lookup key tables) [
      | none ↦ []
      | some t ↦ named_columns name r.name t.columns
    ] in
    if any (λ k. k == key) seen then again else here ++ others

unfoldable pub resolve_comparison_column :
    ColumnRef → List TableRef → List (Text × Table) → Option (Column × Text)
unfolding first_column matching_columns named_columns lookup
resolve_comparison_column ref refs tables =
    let one_table : Option (Column × Text) = elim (lookup (to_lower ref.table) tables) [
      | none ↦ none
      | some t ↦ first_column (named_columns ref.name ref.table t.columns)
    ] in
    let all_tables : Option (Column × Text) = elim (matching_columns ref.name tables [] refs) [
      | [] ↦ none
      | found ∷ [] ↦ some found
      | found ∷ second ∷ rest ↦ none
    ] in
    if ref.table == [] then all_tables else one_table

-- The part before the first space or parenthesis.
before_arguments : Text → Text
before_arguments [] = []
before_arguments (c ∷ rest) =
    let more = before_arguments rest in if c == b' ' || c == b'(' then [] else c ∷ more

unfoldable pub base_type : Text → Text
unfolding before_arguments
base_type value = before_arguments (to_lower (trim_space value))

one_of : List Text → Text → Bool
unfolding any
one_of names v = any (λ n. n == v) names

unfoldable pub is_integer_type : Text → Bool
unfolding one_of
is_integer_type v =
    one_of
      (txt "tinyint"
        ∷ txt "smallint"
        ∷ txt "mediumint"
        ∷ txt "int"
        ∷ txt "integer"
        ∷ txt "bigint"
        ∷ [])
      v

is_numeric_type : Text → Bool
unfolding one_of is_integer_type
is_numeric_type v =
    is_integer_type v
    || one_of (txt "decimal" ∷ txt "float" ∷ txt "double" ∷ txt "real" ∷ txt "bit" ∷ []) v

is_text_type : Text → Bool
unfolding one_of
is_text_type v =
    one_of
      (txt "date"
        ∷ txt "time"
        ∷ txt "datetime"
        ∷ txt "timestamp"
        ∷ txt "char"
        ∷ txt "binary"
        ∷ txt "varchar"
        ∷ txt "varbinary"
        ∷ txt "enum"
        ∷ txt "set"
        ∷ txt "tinyblob"
        ∷ txt "tinytext"
        ∷ txt "blob"
        ∷ txt "text"
        ∷ txt "mediumblob"
        ∷ txt "mediumtext"
        ∷ txt "longblob"
        ∷ txt "longtext"
        ∷ txt "json"
        ∷ txt "geometry"
        ∷ [])
      v

is_string_literal : LiteralKind → Bool
is_string_literal LiteralKind.string = true
is_string_literal LiteralKind.binary = true
is_string_literal LiteralKind.temporal = true
is_string_literal LiteralKind.duration = true
is_string_literal LiteralKind.json = true
is_string_literal kind = false

is_numeric_literal : LiteralKind → Bool
is_numeric_literal LiteralKind.signed_integer = true
is_numeric_literal LiteralKind.unsigned_integer = true
is_numeric_literal LiteralKind.float = true
is_numeric_literal LiteralKind.decimal = true
is_numeric_literal LiteralKind.boolean = true
is_numeric_literal kind = false

-- A literal that is unknown or NULL is of neither kind.
unfoldable pub implicit_conversion : Text → LiteralKind → Bool
unfolding base_type is_numeric_type is_text_type is_string_literal is_numeric_literal
implicit_conversion column_type kind =
    let base = base_type column_type in
    if is_numeric_type base
    then is_string_literal kind
    else if is_text_type base
    then is_numeric_literal kind
    else false
