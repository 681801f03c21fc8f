-- ===== src/Audit/Policy.antt =====
-- internal/audit/policy.go: the settings of the audit.
use goinception_plus.Prelude.{
  ℕ, ◌+◌, ◌-◌, ◌*◌, ◌^◌, Bool, true, false, ◌&&◌, ◌||◌, Option, none, some, List, [], ◌∷◌, map,
  if◌then◌else◌, ◌==◌, nat_eq, text_eq, ltb, leb,
}
use goinception_plus.Prelude.Int.{ℤ, pos, negsuc}
use goinception_plus.Strings.{Text, txt}
use goinception_plus.Strings.Dict.{lookup}
use goinception_plus.Model.{Severity}
use goinception_plus.Audit.Catalog.{RuleDefinition, definitions, rule_by_code}

pub record Policy : Type 0 where
  pub check_primary_key : Bool
  pub check_table_comment : Bool
  pub check_column_comment : Bool
  pub max_column_count : ℕ
  pub require_dml_where : Bool
  pub require_backup_key : Bool
  pub max_affected_rows : ℕ
  pub max_insert_rows : ℕ
  pub check_dml_limit : Bool
  pub check_dml_order_by : Bool
  pub check_insert_field : Bool
  pub allow_select_star : Bool
  pub allow_foreign_key : Bool
  pub allow_partition : Bool
  pub allow_drop_table : Bool
  pub allow_drop_database : Bool
  pub allow_truncate : Bool
  pub required_engine : Text
  pub rule_levels : List (Text × Severity)
  pub legacy : List (Text × Text)

-- The default level of every rule of the catalog.
default_levels : List RuleDefinition → List (Text × Severity)
default_levels rules = map (λ (d : RuleDefinition). (d.code, d.default_level)) rules

unfoldable pub legacy_defaults : Policy
unfolding default_levels definitions
legacy_defaults = record {
  check_primary_key = false;
  check_table_comment = false;
  check_column_comment = false;
  max_column_count = 0;
  require_dml_where = true;
  require_backup_key = true;
  max_affected_rows = 0;
  max_insert_rows = 0;
  check_dml_limit = false;
  check_dml_order_by = false;
  check_insert_field = false;
  allow_select_star = true;
  allow_foreign_key = false;
  allow_partition = false;
  allow_drop_table = false;
  allow_drop_database = false;
  allow_truncate = false;
  required_engine = txt "innodb";
  rule_levels = default_levels definitions;
  legacy = [];
}

-- A missing key reads as the empty text.
unfoldable pub legacy_string : Policy → Text → Text
unfolding lookup
legacy_string p name = elim (lookup name p.legacy) [ none ↦ [] | some value ↦ value ]

unfoldable pub legacy_bool : Policy → Text → Bool
unfolding legacy_string
legacy_bool p name =
    let value = legacy_string p name in value == txt "1" || value == txt "true" || value == txt "on"

-- The digits of a decimal number, at least one.
digits_value : ℕ → Text → Option ℕ
digits_value acc [] = some acc
digits_value acc (c ∷ rest) =
    let more = digits_value (acc * 10 + (c - b'0')) rest in
    if leb b'0' c && leb c b'9' then more else none

unfoldable pub unsigned_value : Text → Option ℕ
unfolding digits_value
unsigned_value [] = none
unsigned_value (c ∷ rest) = digits_value 0 (c ∷ rest)

-- The value of `strconv.Atoi` without its error: 0 for what is no number, and the nearest 64-bit
-- integer for a number out of range.
unfoldable pub atoi_value : Text → ℤ
unfolding unsigned_value
atoi_value text =
    let positive : ℕ → ℤ = λ n. if ltb n (2 ^ 63) then pos n else pos (2 ^ 63 - 1) in
    let negative : ℕ → ℤ = λ n.
      if n == 0 then pos 0 else if leb n (2 ^ 63) then negsuc (n - 1) else negsuc (2 ^ 63 - 1) in
    let of : (ℕ → ℤ) → Option ℕ → ℤ = λ f v. elim v [ none ↦ pos 0 | some n ↦ f n ] in
    elim text [
      | [] ↦ pos 0
      | c ∷ rest ↦
          if c == b'-'
          then of negative (unsigned_value rest)
          else if c == b'+'
          then of positive (unsigned_value rest)
          else of positive (unsigned_value (c ∷ rest))
    ]

unfoldable pub legacy_int : Policy → Text → ℤ
unfolding legacy_string atoi_value
legacy_int p name = atoi_value (legacy_string p name)

unfoldable pub level : Policy → Text → Severity
unfolding lookup rule_by_code
level p rule_id = elim (lookup rule_id p.rule_levels) [
  | some set ↦ set
  | none ↦ elim (rule_by_code rule_id) [
    | some definition ↦ definition.default_level
    | none ↦ Severity.warning
  ]
]
