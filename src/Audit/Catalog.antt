-- ===== src/Audit/Catalog.antt =====
-- internal/audit/catalog.go: the rule catalog and its lookup.
use goinception_plus.Prelude.{
  ℕ, String, List, [], ◌∷◌, Option, none, some, if◌then◌else◌, ◌==◌, text_eq,
}
use goinception_plus.Strings.{Text, txt}
use goinception_plus.Model.{Severity, warning, error}
use goinception_plus.Audit.Codes.{
  rule_unknown_statement, rule_parser_warning, rule_parser_error, rule_metadata_connect,
  rule_target_version, rule_schema_not_found, rule_no_database, rule_ddl_metadata,
  rule_table_must_have_pk, rule_table_must_comment, rule_column_must_comment, rule_max_column_count,
  rule_ddl_drop_database, rule_ddl_drop_table, rule_ddl_truncate, rule_ddl_foreign_key,
  rule_ddl_partition, rule_ddl_engine, rule_ddl_duplicate_col, rule_ddl_duplicate_idx,
  rule_ddl_index_column, rule_ddl_invalid_identifier, rule_ddl_identifier_keyword,
  rule_ddl_index_prefix, rule_ddl_unique_index_prefix, rule_ddl_max_key_parts,
  rule_ddl_max_primary_parts, rule_ddl_max_keys, rule_ddl_pk_integer, rule_ddl_auto_integer,
  rule_ddl_auto_unsigned, rule_ddl_auto_name, rule_ddl_auto_initial, rule_ddl_must_columns,
  rule_ddl_table_charset_null, rule_ddl_table_charset_allow, rule_ddl_column_charset,
  rule_ddl_blob_default, rule_ddl_invalid_type, rule_ddl_json_type, rule_ddl_nullable,
  rule_ddl_text_not_null, rule_ddl_add_default, rule_ddl_datetime_default, rule_ddl_char_to_varchar,
  rule_ddl_too_many_timestamps, rule_ddl_index_repeat, rule_ddl_incorrect_datetime,
  rule_ddl_use_enum, rule_ddl_use_text_blob, rule_ddl_alter_once, rule_ddl_cant_change,
  rule_ddl_column_position, rule_ddl_column_type_change, rule_ddl_cant_set_charset,
  rule_ddl_cant_set_collation, rule_ddl_cant_set_engine, rule_ddl_view, rule_dml_table_metadata,
  rule_dml_require_where, rule_dml_require_key, rule_dml_impact_estimate, rule_dml_max_affected,
  rule_dml_max_insert, rule_dml_limit, rule_dml_order_by, rule_dml_join_no_on, rule_dml_select_star,
  rule_dml_insert_field, rule_dml_order_by_rand, rule_dml_wrong_and, rule_dml_implicit_conversion,
  rule_execution_failed, rule_audit_only, rule_binlog_prereq, rule_backup_failed,
}

pub record RuleDefinition : Type 0 where
  pub code : Text
  pub legacy_key : Text
  pub default_level : Severity
  pub phase : ℕ
  pub summary : Text

rule : Text → String → Severity → ℕ → String → RuleDefinition
rule code key level phase summary = record {
  code = code;
  legacy_key = txt key;
  default_level = level;
  phase = phase;
  summary = txt summary;
}

unfoldable pub definitions : List RuleDefinition
unfolding rule
definitions =
    rule rule_unknown_statement "" error 1 "Reject statement types not admitted by the audit kernel"
    ∷ rule rule_parser_warning "" warning 1 "Expose a warning returned by the SQL parser"
    ∷ rule rule_parser_error "" error 1 "Report SQL parser failure as an audit result"
    ∷ rule rule_metadata_connect "" error 2 "Target MySQL metadata connection failed"
    ∷ rule rule_target_version "" error 2 "Target server must be MySQL 5.7 or 8.0"
    ∷ rule rule_schema_not_found "" error 2 "Selected database does not exist or is unavailable"
    ∷ rule rule_no_database "" error 2 "No database selected for an object statement"
    ∷ rule rule_ddl_metadata "" error 2 "DDL object or schema snapshot validation failed"
    ∷ rule rule_table_must_have_pk "er_table_must_have_pk" warning 2
        "Require a primary key on CREATE TABLE"
    ∷ rule rule_table_must_comment "er_table_must_have_comment" warning 2
        "Require a table comment on CREATE TABLE"
    ∷ rule rule_column_must_comment "er_column_have_no_comment" warning 2
        "Require comments on CREATE TABLE columns"
    ∷ rule rule_max_column_count "er_max_column_count" warning 2
        "Limit the number of columns on CREATE TABLE"
    ∷ rule rule_ddl_drop_database "er_cant_drop_database" error 2 "DROP DATABASE is disabled"
    ∷ rule rule_ddl_drop_table "er_cant_drop_table" error 2 "DROP TABLE is disabled"
    ∷ rule rule_ddl_truncate "er_cant_truncate_table" error 2 "TRUNCATE TABLE is disabled"
    ∷ rule rule_ddl_foreign_key "er_foreign_key" error 2 "Foreign keys are disabled"
    ∷ rule rule_ddl_partition "er_partition_not_allowed" error 2 "Partition tables are disabled"
    ∷ rule rule_ddl_engine "er_table_engine" error 2 "Require the configured table engine"
    ∷ rule rule_ddl_duplicate_col "er_column_existed" error 2 "Reject duplicate columns"
    ∷ rule rule_ddl_duplicate_idx "" error 2 "Reject duplicate index names"
    ∷ rule rule_ddl_index_column "er_column_not_existed" error 2 "Every index column must exist"
    ∷ rule rule_ddl_invalid_identifier "er_invalid_ident" error 2 "Reject invalid identifiers"
    ∷ rule rule_ddl_identifier_keyword "er_ident_use_keyword" error 2 "Reject keyword identifiers"
    ∷ rule rule_ddl_index_prefix "er_index_name_idx_prefix" warning 2
        "Require normal index name prefix"
    ∷ rule rule_ddl_unique_index_prefix "er_index_name_uniq_prefix" warning 2
        "Require unique index name prefix"
    ∷ rule rule_ddl_max_key_parts "er_too_many_key_parts" error 2 "Limit index key parts"
    ∷ rule rule_ddl_max_primary_parts "er_pk_too_many_parts" error 2 "Limit primary key parts"
    ∷ rule rule_ddl_max_keys "er_too_many_keys" warning 2 "Limit indexes per table"
    ∷ rule rule_ddl_pk_integer "er_pk_cols_not_int" warning 2 "Require integer primary key columns"
    ∷ rule rule_ddl_auto_integer "er_set_data_type_int_bigint" warning 2
        "Require integer auto increment column"
    ∷ rule rule_ddl_auto_unsigned "er_autoinc_unsigned" warning 2
        "Recommend unsigned auto increment column"
    ∷ rule rule_ddl_auto_name "er_auto_incr_id_warning" warning 2
        "Recommend ID auto increment column name"
    ∷ rule rule_ddl_auto_initial "er_inc_init_err" warning 2
        "Require AUTO_INCREMENT initial value one"
    ∷ rule rule_ddl_must_columns "er_must_have_columns" error 2 "Require configured table columns"
    ∷ rule rule_ddl_table_charset_null "er_table_charset_must_null" error 2
        "Reject explicit table charset"
    ∷ rule rule_ddl_table_charset_allow "er_table_charset_must_utf8" error 2
        "Require supported table charset"
    ∷ rule rule_ddl_column_charset "er_charset_on_column" error 2
        "Reject column charset or collation"
    ∷ rule rule_ddl_blob_default "er_blob_cant_have_default" warning 2
        "Reject default on large object columns"
    ∷ rule rule_ddl_invalid_type "er_invalid_data_type" warning 2 "Reject disabled data types"
    ∷ rule rule_ddl_json_type "er_json_type_support" warning 2 "Reject JSON when disabled"
    ∷ rule rule_ddl_nullable "er_not_allowed_nullable" warning 2 "Reject nullable columns"
    ∷ rule rule_ddl_text_not_null "er_text_not_nullable_error" warning 2
        "Reject NOT NULL text/blob columns"
    ∷ rule rule_ddl_add_default "er_with_default_add_column" error 2
        "Require defaults for added columns"
    ∷ rule rule_ddl_datetime_default "er_datetime_default" warning 2 "Require DATETIME defaults"
    ∷ rule rule_ddl_char_to_varchar "er_char_to_varchar_len" warning 2
        "Recommend VARCHAR for long CHAR"
    ∷ rule rule_ddl_too_many_timestamps "er_too_much_auto_timestamp_cols" warning 2
        "Limit automatic timestamp columns"
    ∷ rule rule_ddl_index_repeat "" warning 2 "Reject redundant index leading columns"
    ∷ rule rule_ddl_incorrect_datetime "er_incorrect_datetime_value" error 2
        "Reject invalid datetime literals"
    ∷ rule rule_ddl_use_enum "er_use_enum" error 2 "Reject ENUM columns"
    ∷ rule rule_ddl_use_text_blob "er_use_text_or_blob" warning 2 "Reject text/blob columns"
    ∷ rule rule_ddl_alter_once "er_alter_table_once" warning 2
        "Merge ALTER statements for one table"
    ∷ rule rule_ddl_cant_change "er_cant_change_column" warning 2 "Reject CHANGE COLUMN"
    ∷ rule rule_ddl_column_position "er_cant_change_column_position" warning 2
        "Reject column position changes"
    ∷ rule rule_ddl_column_type_change "er_change_column_type" warning 2
        "Report unsafe column type changes"
    ∷ rule rule_ddl_cant_set_charset "er_cant_set_charset" error 2 "Reject explicit charset"
    ∷ rule rule_ddl_cant_set_collation "er_cant_set_collation" error 2 "Reject explicit collation"
    ∷ rule rule_ddl_cant_set_engine "er_cant_set_engine" error 2 "Reject explicit engine"
    ∷ rule rule_ddl_view "er_view_support" error 2 "Reject views"
    ∷ rule rule_dml_table_metadata "" error 3 "DML table and referenced columns must exist"
    ∷ rule rule_dml_require_where "er_no_where_condition" error 3
        "UPDATE and DELETE require a WHERE condition"
    ∷ rule rule_dml_require_key "" error 3 "Backup DML requires a reliable primary or unique key"
    ∷ rule rule_dml_impact_estimate "" error 3 "DML impact rows could not be estimated safely"
    ∷ rule rule_dml_max_affected "er_change_too_much_rows" error 3
        "DML estimated rows exceed configured maximum"
    ∷ rule rule_dml_max_insert "er_insert_too_much_rows" error 3
        "INSERT VALUES row count exceeds configured maximum"
    ∷ rule rule_dml_limit "er_with_limit_condition" warning 3 "UPDATE or DELETE contains LIMIT"
    ∷ rule rule_dml_order_by "er_with_orderby_condition" warning 3
        "UPDATE or DELETE contains ORDER BY"
    ∷ rule rule_dml_join_no_on "er_join_no_on_condition" error 3 "JOIN requires an ON condition"
    ∷ rule rule_dml_select_star "er_select_only_star" warning 3 "SELECT star is disabled"
    ∷ rule rule_dml_insert_field "er_with_insert_field" warning 3
        "INSERT requires an explicit column list"
    ∷ rule rule_dml_order_by_rand "er_ordery_by_rand" error 3 "Reject ORDER BY RAND"
    ∷ rule rule_dml_wrong_and "er_wrong_and_expr" warning 3 "Reject suspicious AND expressions"
    ∷ rule rule_dml_implicit_conversion "er_implicit_type_conversion" error 3
        "Reject implicit type conversions"
    ∷ rule rule_execution_failed "" error 4 "Target SQL execution failed"
    ∷ rule rule_audit_only "" error 7 "Audit-only service rejects execution and backup requests"
    ∷ rule rule_binlog_prereq "" error 5 "ROW/FULL binlog backup prerequisite failed"
    ∷ rule rule_backup_failed "" error 5
        "ROW binlog capture, rollback generation, or backup storage failed"
    ∷ []

module _ (code : Text) where
  -- The loop of `RuleByCode`: the first definition of the code.
  unfoldable pub find_rule : List RuleDefinition → Option RuleDefinition
  find_rule [] = none
  find_rule (r ∷ rest) = if r.code == code then some r else find_rule rest

unfoldable pub rule_by_code : Text → Option RuleDefinition
unfolding find_rule definitions
rule_by_code code = find_rule code definitions
