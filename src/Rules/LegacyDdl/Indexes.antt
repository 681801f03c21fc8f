-- ===== src/Rules/LegacyDdl/Indexes.antt =====
-- internal/audit/rules/legacy_ddl.go: `checkIndexes` and `checkRequiredColumns`.
use goinception_plus.Prelude.{
  Bool, true, false, not, ◌&&◌, Option, none, some, List, [], ◌∷◌, ◌++◌, map, any, keep, length,
  if◌then◌else◌, ◌==◌, text_eq, is_empty,
}
use goinception_plus.Strings.{Text, txt, to_lower, trim_space, split, fields, join}
use goinception_plus.Strings.Fold.{equal_fold}
use goinception_plus.Strings.Format.{sprintf, itoa}
use goinception_plus.Model.{ColumnSpec, IndexSpec, AlterAction, AlterOperation, DdlAction, DdlSpec}
use goinception_plus.Audit.Types.{Column, Index, Table}
use goinception_plus.Audit.Codes.{
  rule_ddl_max_keys, rule_ddl_max_primary_parts, rule_ddl_pk_integer, rule_ddl_index_prefix,
  rule_ddl_unique_index_prefix, rule_ddl_max_key_parts, rule_ddl_index_repeat,
  rule_ddl_must_columns,
}
use goinception_plus.Audit.Policy.{Policy, legacy_bool, legacy_int, legacy_string}
use goinception_plus.Rules.Dml.Conversion.{base_type, is_integer_type}
use goinception_plus.Rules.LegacyDdl.Types.{
  exceeds, int_text, has_any_prefix, leading_columns_overlap, sort_strings,
}
use goinception_plus.Rules.LegacyDdl.Columns.{Check, check_that, name_checks}

unfoldable pub added_indexes : List AlterOperation → List IndexSpec
added_indexes [] = []
added_indexes (op ∷ rest) = elim op.index [
  | none ↦ added_indexes rest
  | some i ↦ i ∷ added_indexes rest
]

-- The indexes of the statement.
unfoldable pub new_indexes : DdlSpec → List IndexSpec
unfolding added_indexes
new_indexes d = d.indexes ++ added_indexes d.alter_operations

abbrev pub drops_index : AlterOperation → Bool
drops_index op = elim op.action [
  | AlterAction.drop_index ↦ true
  | AlterAction.drop_primary_key ↦ true
  | _ ↦ false
]

unfoldable pub is_dropped : List AlterOperation → Text → Bool
is_dropped operations name =
    any (λ (op : AlterOperation). drops_index op && to_lower op.name == to_lower name) operations

unfoldable pub index_of_table : Index → IndexSpec
index_of_table i = record {
  name = i.name;
  columns = i.columns;
  unique = i.unique;
  primary = i.primary;
  prefix_lengths = [];
  expressions = [];
}

-- The indexes of the table that no operation drops by name.
unfoldable pub kept_indexes : DdlSpec → Option Table → List IndexSpec
unfolding is_dropped index_of_table
kept_indexes d none = []
kept_indexes d (some t) =
    map index_of_table (keep (λ (i : Index). not (is_dropped d.alter_operations i.name)) t.indexes)

-- The names and the types of the columns of the statement and of the table.
unfoldable pub typed_columns : DdlSpec → Option Table → List (Text × Text)
typed_columns d existing = map (λ (c : ColumnSpec). (c.name, c.type)) d.columns ++ elim existing [
  | none ↦ []
  | some t ↦ map (λ (c : Column). (c.name, c.column_type)) t.columns
]

-- The columns of the name that are no integers, one check each.
unfoldable pub integer_checks : Policy → Text → List (Text × Text) → List Check
integer_checks p name [] = []
integer_checks p name ((column, type) ∷ rest) =
    check_that
      (legacy_bool p (txt "enable_pk_columns_only_int")
        && equal_fold name column
        && not (is_integer_type (base_type type)))
      rule_ddl_pk_integer (sprintf "primary key column %s should use int or bigint" (name ∷ []))
    ∷ integer_checks p name rest

unfoldable pub primary_part_checks : Policy → List Text → List (Text × Text) → List Check
unfolding integer_checks
primary_part_checks p [] columns = []
primary_part_checks p (name ∷ rest) columns =
    integer_checks p name columns ++ primary_part_checks p rest columns

unfoldable pub primary_checks : Policy → IndexSpec → List (Text × Text) → List Check
unfolding primary_part_checks
primary_checks p i columns =
    check_that (exceeds (legacy_int p (txt "max_primary_key_parts")) (length i.columns))
      rule_ddl_max_primary_parts
      (sprintf "primary key has %d parts, maximum is %d"
        (itoa (length i.columns) ∷ int_text (legacy_int p (txt "max_primary_key_parts")) ∷ []))
    ∷ primary_part_checks p i.columns columns

unfoldable pub prefix_checks : Policy → IndexSpec → List Check
prefix_checks p i =
    let prefix =
      legacy_string p (if i.unique then txt "uniq_index_prefix" else txt "index_prefix") in
    check_that
      (legacy_bool p (txt "check_index_prefix")
        && not (is_empty prefix)
        && not (has_any_prefix i.name prefix))
      (if i.unique then rule_ddl_unique_index_prefix else rule_ddl_index_prefix)
      (sprintf "index %s must use prefix %s" (i.name ∷ prefix ∷ []))
    ∷ []

unfoldable pub index_checks : Policy → List (Text × Text) → IndexSpec → List Check
unfolding primary_checks prefix_checks name_checks
index_checks p columns i =
    (if i.primary
      then primary_checks p i columns
      else name_checks p (txt "index") i.name ++ prefix_checks p i)
    ++ (check_that (exceeds (legacy_int p (txt "max_key_parts")) (length i.columns))
          rule_ddl_max_key_parts
          (sprintf "index %s has %d parts, maximum is %d"
            (i.name ∷ itoa (length i.columns) ∷ int_text (legacy_int p (txt "max_key_parts")) ∷ []))
        ∷ [])

unfoldable pub all_index_checks : Policy → List (Text × Text) → List IndexSpec → List Check
unfolding index_checks
all_index_checks p columns [] = []
all_index_checks p columns (i ∷ rest) = index_checks p columns i ++ all_index_checks p columns rest

-- An index against those after it.
unfoldable pub overlap_checks : Policy → IndexSpec → List IndexSpec → List Check
overlap_checks p i [] = []
overlap_checks p i (j ∷ rest) =
    check_that
      (legacy_bool p (txt "check_index_column_repeat")
        && leading_columns_overlap i.columns j.columns)
      rule_ddl_index_repeat
      (sprintf "indexes %s and %s have redundant leading columns" (i.name ∷ j.name ∷ []))
    ∷ overlap_checks p i rest

unfoldable pub all_overlap_checks : Policy → List IndexSpec → List Check
unfolding overlap_checks
all_overlap_checks p [] = []
all_overlap_checks p (i ∷ rest) = overlap_checks p i rest ++ all_overlap_checks p rest

unfoldable pub indexes_checks : Policy → DdlSpec → Option Table → List Check
unfolding all_index_checks all_overlap_checks new_indexes kept_indexes typed_columns
indexes_checks p d existing =
    let added = new_indexes d in
    let indexes = added ++ kept_indexes d existing in
    check_that (exceeds (legacy_int p (txt "max_keys")) (length indexes)) rule_ddl_max_keys (
      sprintf "table has %d indexes, maximum is %d"
        (itoa (length indexes) ∷ int_text (legacy_int p (txt "max_keys")) ∷ []))
    ∷ (all_index_checks p (typed_columns d existing) added ++ all_overlap_checks p indexes)

-- The names in the setting that no column has.
unfoldable pub missing_columns : List ColumnSpec → List Text → List Text
missing_columns columns [] = []
missing_columns columns (item ∷ rest) =
    let others = missing_columns columns rest in
    elim (fields (trim_space item)) [
      | [] ↦ others
      | name ∷ more ↦
          if any (λ (c : ColumnSpec). to_lower c.name == to_lower name) columns
          then others
          else name ∷ others
    ]

unfoldable pub required_checks : Policy → DdlSpec → List Check
unfolding missing_columns sort_strings
required_checks p d =
    let required = trim_space (legacy_string p (txt "must_have_columns")) in
    let missing = missing_columns d.columns (split b',' required) in
    let creates : Bool = elim d.action [ DdlAction.create_table ↦ true | _ ↦ false ] in
    check_that (not (is_empty required) && creates && not (is_empty missing)) rule_ddl_must_columns
      (txt "missing required columns: " ++ join (sort_strings missing) (txt ","))
    ∷ []
