-- ===== src/Config/Levels.antt =====
-- internal/config/legacy.go, internal/config/runtime.go and internal/config/config.go: the levels of the rules.
-- The fields of `IncLevel` are a map by the names of `levelBindings`, whose newest entry wins. The lock
-- is held for all of an operation.
pub mod Laws
use goinception_plus.Prelude.{
  ℕ, Bool, true, false, not, Option, none, some, List, [], ◌∷◌, ◌++◌, map, if◌then◌else◌, ◌==◌,
  text_eq, nat_eq, ltb, any,
}
use goinception_plus.Prelude.Int.{ℤ, pos, negsuc}
use goinception_plus.Strings.{Text, txt, to_lower, to_upper, trim_space, has_prefix}
use goinception_plus.Strings.Dict.{lookup, insert}
use goinception_plus.Strings.Format.{sprintf, quoted}
use goinception_plus.Model.{Severity}
use goinception_plus.Audit.Types.{Error, failure, Result, ok, err}
use goinception_plus.Audit.Catalog.{rule_by_code}
use goinception_plus.Audit.Policy.{Policy}
use goinception_plus.Audit.Codes.{
  rule_column_must_comment, rule_ddl_add_default, rule_ddl_alter_once, rule_ddl_auto_initial,
  rule_ddl_auto_integer, rule_ddl_auto_name, rule_ddl_auto_unsigned, rule_ddl_blob_default,
  rule_ddl_cant_change, rule_ddl_cant_set_charset, rule_ddl_cant_set_collation,
  rule_ddl_cant_set_engine, rule_ddl_char_to_varchar, rule_ddl_column_charset,
  rule_ddl_column_position, rule_ddl_column_type_change, rule_ddl_datetime_default,
  rule_ddl_foreign_key, rule_ddl_identifier_keyword, rule_ddl_incorrect_datetime,
  rule_ddl_index_prefix, rule_ddl_invalid_identifier, rule_ddl_invalid_type, rule_ddl_json_type,
  rule_ddl_max_key_parts, rule_ddl_max_keys, rule_ddl_max_primary_parts, rule_ddl_must_columns,
  rule_ddl_nullable, rule_ddl_partition, rule_ddl_pk_integer, rule_ddl_table_charset_allow,
  rule_ddl_table_charset_null, rule_ddl_text_not_null, rule_ddl_too_many_timestamps,
  rule_ddl_unique_index_prefix, rule_ddl_use_enum, rule_ddl_use_text_blob, rule_ddl_view,
  rule_dml_implicit_conversion, rule_dml_insert_field, rule_dml_join_no_on, rule_dml_limit,
  rule_dml_max_affected, rule_dml_max_insert, rule_dml_order_by, rule_dml_order_by_rand,
  rule_dml_require_where, rule_dml_select_star, rule_dml_wrong_and, rule_table_must_comment,
  rule_table_must_have_pk,
}

unfoldable pub level_names : List Text
level_names =
    txt "er_alter_table_once"
    ∷ txt "er_auto_incr_id_warning"
    ∷ txt "er_autoinc_unsigned"
    ∷ txt "er_blob_cant_have_default"
    ∷ txt "er_cant_change_column"
    ∷ txt "er_cant_change_column_position"
    ∷ txt "er_cant_set_charset"
    ∷ txt "er_cant_set_collation"
    ∷ txt "er_cant_set_engine"
    ∷ txt "er_change_column_type"
    ∷ txt "er_change_too_much_rows"
    ∷ txt "er_char_to_varchar_len"
    ∷ txt "er_charset_on_column"
    ∷ txt "er_column_have_no_comment"
    ∷ txt "er_datetime_default"
    ∷ txt "er_foreign_key"
    ∷ txt "er_ident_use_keyword"
    ∷ txt "er_implicit_type_conversion"
    ∷ txt "er_inc_init_err"
    ∷ txt "er_incorrect_datetime_value"
    ∷ txt "er_index_name_idx_prefix"
    ∷ txt "er_index_name_uniq_prefix"
    ∷ txt "er_insert_too_much_rows"
    ∷ txt "er_invalid_data_type"
    ∷ txt "er_invalid_ident"
    ∷ txt "er_join_no_on_condition"
    ∷ txt "er_json_type_support"
    ∷ txt "er_must_have_columns"
    ∷ txt "er_no_where_condition"
    ∷ txt "er_not_allowed_nullable"
    ∷ txt "er_ordery_by_rand"
    ∷ txt "er_partition_not_allowed"
    ∷ txt "er_pk_cols_not_int"
    ∷ txt "er_pk_too_many_parts"
    ∷ txt "er_select_only_star"
    ∷ txt "er_set_data_type_int_bigint"
    ∷ txt "er_table_charset_must_null"
    ∷ txt "er_table_charset_must_utf8"
    ∷ txt "er_table_must_have_comment"
    ∷ txt "er_table_must_have_pk"
    ∷ txt "er_text_not_nullable_error"
    ∷ txt "er_too_many_key_parts"
    ∷ txt "er_too_many_keys"
    ∷ txt "er_too_much_auto_timestamp_cols"
    ∷ txt "er_use_enum"
    ∷ txt "er_use_text_or_blob"
    ∷ txt "er_view_support"
    ∷ txt "er_with_default_add_column"
    ∷ txt "er_with_insert_field"
    ∷ txt "er_with_limit_condition"
    ∷ txt "er_with_orderby_condition"
    ∷ txt "er_wrong_and_expr"
    ∷ []

unfoldable pub legacy_level_rule : List (Text × Text)
legacy_level_rule =
    (txt "er_alter_table_once", rule_ddl_alter_once)
    ∷ (txt "er_auto_incr_id_warning", rule_ddl_auto_name)
    ∷ (txt "er_autoinc_unsigned", rule_ddl_auto_unsigned)
    ∷ (txt "er_blob_cant_have_default", rule_ddl_blob_default)
    ∷ (txt "er_cant_change_column", rule_ddl_cant_change)
    ∷ (txt "er_cant_change_column_position", rule_ddl_column_position)
    ∷ (txt "er_cant_set_charset", rule_ddl_cant_set_charset)
    ∷ (txt "er_cant_set_collation", rule_ddl_cant_set_collation)
    ∷ (txt "er_cant_set_engine", rule_ddl_cant_set_engine)
    ∷ (txt "er_change_column_type", rule_ddl_column_type_change)
    ∷ (txt "er_change_too_much_rows", rule_dml_max_affected)
    ∷ (txt "er_char_to_varchar_len", rule_ddl_char_to_varchar)
    ∷ (txt "er_charset_on_column", rule_ddl_column_charset)
    ∷ (txt "er_column_have_no_comment", rule_column_must_comment)
    ∷ (txt "er_datetime_default", rule_ddl_datetime_default)
    ∷ (txt "er_foreign_key", rule_ddl_foreign_key)
    ∷ (txt "er_ident_use_keyword", rule_ddl_identifier_keyword)
    ∷ (txt "er_implicit_type_conversion", rule_dml_implicit_conversion)
    ∷ (txt "er_inc_init_err", rule_ddl_auto_initial)
    ∷ (txt "er_incorrect_datetime_value", rule_ddl_incorrect_datetime)
    ∷ (txt "er_index_name_idx_prefix", rule_ddl_index_prefix)
    ∷ (txt "er_index_name_uniq_prefix", rule_ddl_unique_index_prefix)
    ∷ (txt "er_insert_too_much_rows", rule_dml_max_insert)
    ∷ (txt "er_invalid_data_type", rule_ddl_invalid_type)
    ∷ (txt "er_invalid_ident", rule_ddl_invalid_identifier)
    ∷ (txt "er_join_no_on_condition", rule_dml_join_no_on)
    ∷ (txt "er_json_type_support", rule_ddl_json_type)
    ∷ (txt "er_must_have_columns", rule_ddl_must_columns)
    ∷ (txt "er_no_where_condition", rule_dml_require_where)
    ∷ (txt "er_not_allowed_nullable", rule_ddl_nullable)
    ∷ (txt "er_ordery_by_rand", rule_dml_order_by_rand)
    ∷ (txt "er_partition_not_allowed", rule_ddl_partition)
    ∷ (txt "er_pk_cols_not_int", rule_ddl_pk_integer)
    ∷ (txt "er_pk_too_many_parts", rule_ddl_max_primary_parts)
    ∷ (txt "er_select_only_star", rule_dml_select_star)
    ∷ (txt "er_set_data_type_int_bigint", rule_ddl_auto_integer)
    ∷ (txt "er_table_charset_must_null", rule_ddl_table_charset_null)
    ∷ (txt "er_table_charset_must_utf8", rule_ddl_table_charset_allow)
    ∷ (txt "er_table_must_have_comment", rule_table_must_comment)
    ∷ (txt "er_table_must_have_pk", rule_table_must_have_pk)
    ∷ (txt "er_text_not_nullable_error", rule_ddl_text_not_null)
    ∷ (txt "er_too_many_key_parts", rule_ddl_max_key_parts)
    ∷ (txt "er_too_many_keys", rule_ddl_max_keys)
    ∷ (txt "er_too_much_auto_timestamp_cols", rule_ddl_too_many_timestamps)
    ∷ (txt "er_use_enum", rule_ddl_use_enum)
    ∷ (txt "er_use_text_or_blob", rule_ddl_use_text_blob)
    ∷ (txt "er_view_support", rule_ddl_view)
    ∷ (txt "er_with_default_add_column", rule_ddl_add_default)
    ∷ (txt "er_with_insert_field", rule_dml_insert_field)
    ∷ (txt "er_with_limit_condition", rule_dml_limit)
    ∷ (txt "er_with_orderby_condition", rule_dml_order_by)
    ∷ (txt "er_wrong_and_expr", rule_dml_wrong_and)
    ∷ []

unfoldable pub canonical_level_alias : Text → Text
canonical_level_alias name =
    if name == txt "er_column_must_have_comment"
    then txt "er_column_have_no_comment"
    else if name == txt "er_insert_field"
    then txt "er_with_insert_field"
    else if name == txt "er_sql_no_where"
    then txt "er_no_where_condition"
    else name

-- The levels of the configuration: by their legacy names, and by the codes of the rules.
pub record LevelSettings : Type 0 where
  pub inc_level : List (Text × ℕ)
  pub rules : List (Text × ℕ)

-- `name` after its spaces and case, as a code and as a legacy name.
abbrev pub code_name : Text → Text
code_name name = to_upper (trim_space name)

abbrev pub level_name : Text → Text
level_name name = canonical_level_alias (to_lower (trim_space name))

abbrev pub is_code : Text → Bool
is_code name = has_prefix (code_name name) (txt "GIP-")

abbrev pub with_rule : LevelSettings → Text → ℕ → LevelSettings
with_rule s code value = record s { rules = insert code value s.rules }

abbrev pub with_level : LevelSettings → Text → ℕ → LevelSettings
with_level s name value = record s { inc_level = insert name value s.inc_level }

-- A level of a legacy name, which a setting of its rule overrides.
unfoldable pub set_named : Text → ℕ → LevelSettings → LevelSettings
set_named name value s = elim (lookup name legacy_level_rule) [
  | none ↦ with_level s name value
  | some code ↦ elim (lookup code s.rules) [
    | some overridden ↦ with_rule s code value
    | none ↦ with_level s name value
  ]
]

unfoldable pub set_level : Text → ℤ → LevelSettings → Result LevelSettings
unfolding set_named
set_level name (negsuc n) s = err (failure (txt "level must be 0, 1, or 2"))
set_level name (pos value) s =
    if ltb 2 value
    then err (failure (txt "level must be 0, 1, or 2"))
    else if is_code name
    then elim (rule_by_code (code_name name)) [
      | none ↦ err (failure (sprintf "invalid rule ID %q" (quoted name ∷ [])))
      | some definition ↦ ok (with_rule s (code_name name) value)
    ]
    else if any (λ n. n == level_name name) level_names
    then ok (set_named (level_name name) value s)
    else err (failure (sprintf "invalid level variable %q" (quoted (level_name name) ∷ [])))

-- `severity` of a level, which is 0, 1 or 2.
unfoldable pub severity : ℕ → Severity
severity value =
    if value == 0
    then Severity.no_severity
    else if value == 1
    then Severity.warning
    else Severity.error

unfoldable pub level_of : List (Text × ℕ) → Text → ℕ
level_of inc_level name = elim (lookup name inc_level) [ none ↦ 0 | some value ↦ value ]

unfoldable pub legacy_levels : List (Text × ℕ) → List (Text × Text) → List (Text × Severity)
unfolding level_of
legacy_levels inc_level [] = []
legacy_levels inc_level ((name, code) ∷ rest) =
    (code, severity (level_of inc_level name)) ∷ legacy_levels inc_level rest

unfoldable pub rule_overrides : List (Text × ℕ) → List (Text × Severity)
rule_overrides [] = []
rule_overrides ((code, value) ∷ rest) = (code, severity value) ∷ rule_overrides rest

-- The levels of `Config.Policy`, over the policy `p` that it starts from: a code of `rules` wins over the
-- legacy name of its rule.
unfoldable pub policy_of : Policy → LevelSettings → Policy
unfolding legacy_levels rule_overrides
policy_of p s = record p {
  rule_levels =
      rule_overrides s.rules ++ (legacy_levels s.inc_level legacy_level_rule ++ p.rule_levels);
}
