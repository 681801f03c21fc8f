-- ===== src/Audit/Codes.antt =====
-- internal/audit/catalog.go: the codes of the rules.
use goinception_plus.Strings.{Text, txt}

abbrev pub rule_unknown_statement : Text
rule_unknown_statement = txt "GIP-COR-ST-001"

abbrev pub rule_parser_warning : Text
rule_parser_warning = txt "GIP-COR-PS-001"

abbrev pub rule_parser_error : Text
rule_parser_error = txt "GIP-COR-PS-002"

abbrev pub rule_metadata_connect : Text
rule_metadata_connect = txt "GIP-META-CN-001"

abbrev pub rule_target_version : Text
rule_target_version = txt "GIP-META-CN-002"

abbrev pub rule_schema_not_found : Text
rule_schema_not_found = txt "GIP-META-DB-001"

abbrev pub rule_no_database : Text
rule_no_database = txt "GIP-META-DB-002"

abbrev pub rule_ddl_metadata : Text
rule_ddl_metadata = txt "GIP-DDL-MD-001"

abbrev pub rule_table_must_have_pk : Text
rule_table_must_have_pk = txt "GIP-DDL-CT-001"

abbrev pub rule_table_must_comment : Text
rule_table_must_comment = txt "GIP-DDL-CT-002"

abbrev pub rule_column_must_comment : Text
rule_column_must_comment = txt "GIP-DDL-CT-003"

abbrev pub rule_max_column_count : Text
rule_max_column_count = txt "GIP-DDL-CT-004"

abbrev pub rule_ddl_drop_database : Text
rule_ddl_drop_database = txt "GIP-DDL-SF-001"

abbrev pub rule_ddl_drop_table : Text
rule_ddl_drop_table = txt "GIP-DDL-SF-002"

abbrev pub rule_ddl_truncate : Text
rule_ddl_truncate = txt "GIP-DDL-SF-003"

abbrev pub rule_ddl_foreign_key : Text
rule_ddl_foreign_key = txt "GIP-DDL-SF-004"

abbrev pub rule_ddl_partition : Text
rule_ddl_partition = txt "GIP-DDL-SF-005"

abbrev pub rule_ddl_engine : Text
rule_ddl_engine = txt "GIP-DDL-CT-005"

abbrev pub rule_ddl_duplicate_col : Text
rule_ddl_duplicate_col = txt "GIP-DDL-CT-006"

abbrev pub rule_ddl_duplicate_idx : Text
rule_ddl_duplicate_idx = txt "GIP-DDL-CT-007"

abbrev pub rule_ddl_index_column : Text
rule_ddl_index_column = txt "GIP-DDL-CT-008"

abbrev pub rule_ddl_invalid_identifier : Text
rule_ddl_invalid_identifier = txt "GIP-DDL-CT-009"

abbrev pub rule_ddl_identifier_keyword : Text
rule_ddl_identifier_keyword = txt "GIP-DDL-CT-010"

abbrev pub rule_ddl_index_prefix : Text
rule_ddl_index_prefix = txt "GIP-DDL-CT-011"

abbrev pub rule_ddl_unique_index_prefix : Text
rule_ddl_unique_index_prefix = txt "GIP-DDL-CT-012"

abbrev pub rule_ddl_max_key_parts : Text
rule_ddl_max_key_parts = txt "GIP-DDL-CT-013"

abbrev pub rule_ddl_max_primary_parts : Text
rule_ddl_max_primary_parts = txt "GIP-DDL-CT-014"

abbrev pub rule_ddl_max_keys : Text
rule_ddl_max_keys = txt "GIP-DDL-CT-015"

abbrev pub rule_ddl_pk_integer : Text
rule_ddl_pk_integer = txt "GIP-DDL-CT-016"

abbrev pub rule_ddl_auto_integer : Text
rule_ddl_auto_integer = txt "GIP-DDL-CT-017"

abbrev pub rule_ddl_auto_unsigned : Text
rule_ddl_auto_unsigned = txt "GIP-DDL-CT-018"

abbrev pub rule_ddl_auto_name : Text
rule_ddl_auto_name = txt "GIP-DDL-CT-019"

abbrev pub rule_ddl_auto_initial : Text
rule_ddl_auto_initial = txt "GIP-DDL-CT-020"

abbrev pub rule_ddl_must_columns : Text
rule_ddl_must_columns = txt "GIP-DDL-CT-021"

abbrev pub rule_ddl_table_charset_null : Text
rule_ddl_table_charset_null = txt "GIP-DDL-CT-022"

abbrev pub rule_ddl_table_charset_allow : Text
rule_ddl_table_charset_allow = txt "GIP-DDL-CT-023"

abbrev pub rule_ddl_column_charset : Text
rule_ddl_column_charset = txt "GIP-DDL-CT-024"

abbrev pub rule_ddl_blob_default : Text
rule_ddl_blob_default = txt "GIP-DDL-CT-025"

abbrev pub rule_ddl_invalid_type : Text
rule_ddl_invalid_type = txt "GIP-DDL-CT-026"

abbrev pub rule_ddl_json_type : Text
rule_ddl_json_type = txt "GIP-DDL-CT-027"

abbrev pub rule_ddl_nullable : Text
rule_ddl_nullable = txt "GIP-DDL-CT-028"

abbrev pub rule_ddl_text_not_null : Text
rule_ddl_text_not_null = txt "GIP-DDL-CT-029"

abbrev pub rule_ddl_add_default : Text
rule_ddl_add_default = txt "GIP-DDL-CT-030"

abbrev pub rule_ddl_datetime_default : Text
rule_ddl_datetime_default = txt "GIP-DDL-CT-031"

abbrev pub rule_ddl_char_to_varchar : Text
rule_ddl_char_to_varchar = txt "GIP-DDL-CT-032"

abbrev pub rule_ddl_too_many_timestamps : Text
rule_ddl_too_many_timestamps = txt "GIP-DDL-CT-033"

abbrev pub rule_ddl_index_repeat : Text
rule_ddl_index_repeat = txt "GIP-DDL-CT-034"

abbrev pub rule_ddl_incorrect_datetime : Text
rule_ddl_incorrect_datetime = txt "GIP-DDL-CT-035"

abbrev pub rule_ddl_use_enum : Text
rule_ddl_use_enum = txt "GIP-DDL-CT-036"

abbrev pub rule_ddl_use_text_blob : Text
rule_ddl_use_text_blob = txt "GIP-DDL-CT-037"

abbrev pub rule_ddl_alter_once : Text
rule_ddl_alter_once = txt "GIP-DDL-AT-001"

abbrev pub rule_ddl_cant_change : Text
rule_ddl_cant_change = txt "GIP-DDL-AT-002"

abbrev pub rule_ddl_column_position : Text
rule_ddl_column_position = txt "GIP-DDL-AT-003"

abbrev pub rule_ddl_column_type_change : Text
rule_ddl_column_type_change = txt "GIP-DDL-AT-004"

abbrev pub rule_ddl_cant_set_charset : Text
rule_ddl_cant_set_charset = txt "GIP-DDL-SF-006"

abbrev pub rule_ddl_cant_set_collation : Text
rule_ddl_cant_set_collation = txt "GIP-DDL-SF-007"

abbrev pub rule_ddl_cant_set_engine : Text
rule_ddl_cant_set_engine = txt "GIP-DDL-SF-008"

abbrev pub rule_ddl_view : Text
rule_ddl_view = txt "GIP-DDL-SF-009"

abbrev pub rule_dml_table_metadata : Text
rule_dml_table_metadata = txt "GIP-DML-MD-001"

abbrev pub rule_dml_require_where : Text
rule_dml_require_where = txt "GIP-DML-SF-001"

abbrev pub rule_dml_require_key : Text
rule_dml_require_key = txt "GIP-DML-SF-002"

abbrev pub rule_dml_impact_estimate : Text
rule_dml_impact_estimate = txt "GIP-DML-IM-001"

abbrev pub rule_dml_max_affected : Text
rule_dml_max_affected = txt "GIP-DML-IM-002"

abbrev pub rule_dml_max_insert : Text
rule_dml_max_insert = txt "GIP-DML-IM-003"

abbrev pub rule_dml_limit : Text
rule_dml_limit = txt "GIP-DML-SF-003"

abbrev pub rule_dml_order_by : Text
rule_dml_order_by = txt "GIP-DML-SF-004"

abbrev pub rule_dml_join_no_on : Text
rule_dml_join_no_on = txt "GIP-DML-SF-005"

abbrev pub rule_dml_select_star : Text
rule_dml_select_star = txt "GIP-DML-SF-006"

abbrev pub rule_dml_insert_field : Text
rule_dml_insert_field = txt "GIP-DML-SF-007"

abbrev pub rule_dml_order_by_rand : Text
rule_dml_order_by_rand = txt "GIP-DML-SF-008"

abbrev pub rule_dml_wrong_and : Text
rule_dml_wrong_and = txt "GIP-DML-SF-009"

abbrev pub rule_dml_implicit_conversion : Text
rule_dml_implicit_conversion = txt "GIP-DML-SF-010"

abbrev pub rule_execution_failed : Text
rule_execution_failed = txt "GIP-EXE-RN-001"

abbrev pub rule_audit_only : Text
rule_audit_only = txt "GIP-COR-SF-001"

abbrev pub rule_binlog_prereq : Text
rule_binlog_prereq = txt "GIP-BAK-BL-001"

abbrev pub rule_backup_failed : Text
rule_backup_failed = txt "GIP-BAK-RN-001"
