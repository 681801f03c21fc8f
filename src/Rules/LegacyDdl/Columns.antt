-- ===== src/Rules/LegacyDdl/Columns.antt =====
-- internal/audit/rules/legacy_ddl.go: `checkName` and `checkColumn`. A check is a condition with the rule
-- and the message that are reported if it holds.
use goinception_plus.Prelude.{
  ℕ, ◌+◌, Bool, not, ◌&&◌, ◌||◌, List, [], ◌∷◌, ◌++◌, if◌then◌else◌, ◌==◌, text_eq, is_empty, ltb,
}
use goinception_plus.Strings.{Text, txt, to_lower, contains}
use goinception_plus.Strings.Fold.{equal_fold}
use goinception_plus.Strings.Format.{sprintf, quoted}
use goinception_plus.Model.{AuditIssue, ColumnSpec, Statement}
use goinception_plus.Audit.Codes.{
  rule_ddl_invalid_identifier, rule_ddl_identifier_keyword, rule_ddl_column_charset,
  rule_ddl_blob_default, rule_ddl_json_type, rule_ddl_use_text_blob, rule_ddl_use_enum,
  rule_ddl_invalid_type, rule_ddl_nullable, rule_ddl_text_not_null, rule_ddl_add_default,
  rule_ddl_datetime_default, rule_ddl_incorrect_datetime, rule_ddl_char_to_varchar,
  rule_ddl_auto_integer, rule_ddl_auto_unsigned, rule_ddl_auto_name, rule_ddl_too_many_timestamps,
}
use goinception_plus.Audit.Policy.{Policy, level, legacy_bool, legacy_int, legacy_string}
use goinception_plus.Rules.Dml.Conversion.{base_type, is_integer_type}
use goinception_plus.Rules.LegacyDdl.Types.{exceeds, is_identifier, is_keyword}
use goinception_plus.Rules.LegacyDdl.Temporal.{is_temporal_type, invalid_temporal_default}

pub record Check : Type 0 where
  pub wrong : Bool
  pub rule_id : Text
  pub message : Text

abbrev pub check_that : Bool → Text → Text → Check
check_that wrong rule_id message = record { wrong = wrong; rule_id = rule_id; message = message }

-- `add` for the checks that fail, in order.
unfoldable pub report : Policy → Statement → List Check → List AuditIssue
report p s [] = []
report p s (c ∷ rest) =
    let others = report p s rest in
    let issue : AuditIssue = record {
      rule_id = c.rule_id;
      legacy_key = [];
      code = 0;
      level = level p c.rule_id;
      message = c.message;
      sequence = s.sequence;
    } in
    if c.wrong then issue ∷ others else others

unfoldable pub name_checks : Policy → Text → Text → List Check
name_checks p kind name =
    if is_empty name
    then []
    else check_that (legacy_bool p (txt "check_identifier") && not (is_identifier name))
        rule_ddl_invalid_identifier (sprintf "invalid %s identifier %q" (kind ∷ quoted name ∷ []))
      ∷ check_that (legacy_bool p (txt "check_identifier_lower") && not (name == to_lower name))
          rule_ddl_invalid_identifier
          (sprintf "%s identifier %q must be lowercase" (kind ∷ quoted name ∷ []))
      ∷ check_that
          (legacy_bool p (txt "enable_identifer_keyword")
            && is_keyword name (legacy_string p (txt "custom_keywords")))
          rule_ddl_identifier_keyword
          (sprintf "%s identifier %q is a MySQL keyword" (kind ∷ quoted name ∷ []))
      ∷ []

abbrev pub is_large : Text → Bool
is_large base = contains base (txt "text") || contains base (txt "blob") || base == txt "geometry"

abbrev pub is_json : Text → Bool
is_json base = base == txt "json"

-- The checks of an AUTO_INCREMENT column.
unfoldable pub auto_increment_checks : Policy → ColumnSpec → List Check
auto_increment_checks p c =
    if not c.auto_increment
    then []
    else check_that
        (legacy_bool p (txt "check_autoincrement_datatype")
          && not (is_integer_type (base_type c.type)))
        rule_ddl_auto_integer
        (sprintf "auto increment column %s must be int or bigint" (c.name ∷ []))
      ∷ check_that (legacy_bool p (txt "enable_autoincrement_unsigned") && not c.unsigned)
          rule_ddl_auto_unsigned
          (sprintf "auto increment column %s should be unsigned" (c.name ∷ []))
      ∷ check_that (not (equal_fold c.name (txt "id"))) rule_ddl_auto_name
          (sprintf "auto increment column %s should be named ID" (c.name ∷ []))
      ∷ []

-- The checks of the type of a column.
unfoldable pub type_checks : Policy → ColumnSpec → Text → List Check
type_checks p c base =
    let large = is_large base in
    let json = is_json base in
    check_that (c.explicit_charset && not (legacy_bool p (txt "enable_column_charset")))
      rule_ddl_column_charset
      (sprintf "column %s must not specify charset or collation" (c.name ∷ []))
    ∷ check_that
        ((large || json) && c.has_default && not (to_lower c.default_expression == txt "null"))
        rule_ddl_blob_default (sprintf "column %s cannot have a default" (c.name ∷ []))
    ∷ check_that (json && not (legacy_bool p (txt "enable_json_type"))) rule_ddl_json_type
        (sprintf "JSON column %s is disabled" (c.name ∷ []))
    ∷ check_that (large && not (legacy_bool p (txt "enable_blob_type"))) rule_ddl_use_text_blob
        (sprintf "text/blob column %s is disabled" (c.name ∷ []))
    ∷ check_that
        ((base == txt "enum" || base == txt "set" || base == txt "bit")
          && not (legacy_bool p (txt "enable_enum_set_bit")))
        rule_ddl_use_enum (sprintf "ENUM/SET/BIT column %s is disabled" (c.name ∷ []))
    ∷ check_that (base == txt "timestamp" && not (legacy_bool p (txt "enable_timestamp_type")))
        rule_ddl_invalid_type (sprintf "TIMESTAMP column %s is disabled" (c.name ∷ []))
    ∷ []

-- The checks of the nullability and the default of a column.
unfoldable pub value_checks : Policy → ColumnSpec → Text → List Check
value_checks p c base =
    let large = is_large base in
    let json = is_json base in
    check_that (not (legacy_bool p (txt "enable_nullable")) && c.nullable && not c.generated)
      rule_ddl_nullable (sprintf "column %s must be NOT NULL" (c.name ∷ []))
    ∷ check_that ((large || json) && not c.nullable) rule_ddl_text_not_null
        (sprintf "text/blob/json column %s must not be NOT NULL" (c.name ∷ []))
    ∷ check_that
        (not c.has_default
          && not (base == txt "timestamp")
          && not large
          && not json
          && not c.auto_increment
          && not c.primary_key
          && not c.generated)
        rule_ddl_add_default (sprintf "column %s must have a default" (c.name ∷ []))
    ∷ check_that (base == txt "datetime" && not c.has_default) rule_ddl_datetime_default
        (sprintf "DATETIME column %s must have a default" (c.name ∷ []))
    ∷ check_that
        (c.has_default
          && is_temporal_type base
          && invalid_temporal_default c.default_expression (legacy_string p (txt "sql_mode")))
        rule_ddl_incorrect_datetime
        (sprintf "column %s has invalid datetime default %s" (c.name ∷ c.default_expression ∷ []))
    ∷ check_that (base == txt "char" && exceeds (legacy_int p (txt "max_char_length")) c.length)
        rule_ddl_char_to_varchar (sprintf "column %s should use VARCHAR" (c.name ∷ []))
    ∷ []

unfoldable pub column_checks : Policy → ColumnSpec → List Check
unfolding type_checks value_checks auto_increment_checks
column_checks p c =
    let base = base_type c.type in
    type_checks p c base ++ (value_checks p c base ++ auto_increment_checks p c)

-- The loop over the columns.
unfoldable pub columns_checks : Policy → List ColumnSpec → List Check
unfolding name_checks column_checks
columns_checks p [] = []
columns_checks p (c ∷ rest) =
    name_checks p (txt "column") c.name ++ (column_checks p c ++ columns_checks p rest)

-- How many TIMESTAMP columns have the current time as their default, and how many take it on update.
unfoldable pub timestamp_counts : List ColumnSpec → ℕ × ℕ
timestamp_counts [] = (0, 0)
timestamp_counts (c ∷ rest) =
    let (defaults, updates) = timestamp_counts rest in
    let is_default = contains (to_lower c.default_expression) (txt "current_timestamp") in
    if base_type c.type == txt "timestamp"
    then (
      if is_default then defaults + 1 else defaults,
      if c.on_update then updates + 1 else updates,
    )
    else (defaults, updates)

unfoldable pub timestamp_checks : Policy → List ColumnSpec → List Check
unfolding timestamp_counts
timestamp_checks p columns =
    let (defaults, updates) = timestamp_counts columns in
    check_that (legacy_bool p (txt "check_timestamp_count") && (ltb 1 defaults || ltb 1 updates))
      rule_ddl_too_many_timestamps (txt "too many automatic TIMESTAMP columns")
    ∷ []
