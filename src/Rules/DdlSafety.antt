-- ===== src/Rules/DdlSafety.antt =====
-- internal/audit/rules/ddl_safety.go: the structural checks of a DDL statement.
pub mod Laws
use goinception_plus.Prelude.{
  ℕ, ◌^◌, Bool, true, false, not, ◌&&◌, ◌||◌, Option, none, some, List, [], ◌∷◌, ◌++◌, map, any,
  is_empty, ltb, leb, if◌then◌else◌, ◌==◌, nat_eq, text_eq,
}
use goinception_plus.Strings.{
  Text, txt, to_lower, trim_space, has_prefix, split, trim_left, trim_right,
}
use goinception_plus.Strings.Fold.{equal_fold}
use goinception_plus.Strings.Format.{sprintf}
use goinception_plus.Model.{
  AuditIssue, ColumnSpec, IndexSpec, AlterAction, AlterOperation, DdlAction, DdlSpec, Statement,
}
use goinception_plus.Audit.Codes.{
  rule_ddl_drop_database, rule_ddl_drop_table, rule_ddl_truncate, rule_ddl_foreign_key,
  rule_ddl_partition, rule_target_version, rule_ddl_engine, rule_ddl_duplicate_col,
  rule_ddl_duplicate_idx, rule_ddl_index_column,
}
use goinception_plus.Audit.Policy.{unsigned_value}
use goinception_plus.Audit.Engine.{Context}
use goinception_plus.Metadata.Cache.{MetadataProvider}
use goinception_plus.Rules.CreateTable.{issue}

unfoldable pub has_expression_index : DdlSpec → Bool
unfolding any
has_expression_index d =
    any (λ (i : IndexSpec). not (is_empty i.expressions)) d.indexes
    || any
        (λ (op : AlterOperation). elim op.index [
          | none ↦ false
          | some i ↦ not (is_empty i.expressions)
        ])
        d.alter_operations

is_no_digit : ℕ → Bool
is_no_digit r = ltb r b'0' || ltb b'9' r

-- The number of a part of a version; a part that is no 64-bit number counts as 0.
part_value : Text → ℕ
unfolding is_no_digit
part_value part = elim (unsigned_value (trim_right is_no_digit (trim_left is_no_digit part))) [
  | none ↦ 0
  | some n ↦ if ltb n (2 ^ 63) then n else 0
]

-- The parts against the wanted ones, a missing part as 0.
is_less : List ℕ → List Text → Bool
unfolding part_value
is_less [] parts = false
is_less (want ∷ wants) [] = if want == 0 then is_less wants [] else true
is_less (want ∷ wants) (part ∷ parts) =
    let n = part_value part in
    let rest = is_less wants parts in if n == want then rest else ltb n want

unfoldable pub version_less_than : Text → ℕ → ℕ → ℕ → Bool
unfolding is_less
version_less_than value major minor patch = elim (split b'.' value) [
  | [] ↦ false
  | part ∷ [] ↦ false
  | first ∷ second ∷ rest ↦ is_less (major ∷ minor ∷ patch ∷ []) (first ∷ second ∷ rest)
]

-- A Go set of keys.
unfoldable pub has_key : Text → List Text → Bool
unfolding any
has_key key keys = any (λ k. k == key) keys

abbrev pub column_key : ColumnSpec → Text
column_key c = to_lower c.name

unfoldable pub require : Bool → AuditIssue → List AuditIssue
require ok i = if ok then [] else i ∷ []

module _ (source : MetadataProvider) (c : Context source) (s : Statement) where
  abbrev pub found : Text → Text → AuditIssue
  found = issue source c s

  unfoldable pub action_issues : DdlSpec → List AuditIssue
  action_issues d = elim d.action [
    | DdlAction.drop_database ↦
        require c.policy.allow_drop_database
          (found rule_ddl_drop_database (txt "DROP DATABASE is disabled"))
    | DdlAction.drop_table ↦
        require c.policy.allow_drop_table (found rule_ddl_drop_table (txt "DROP TABLE is disabled"))
    | DdlAction.truncate_table ↦
        require c.policy.allow_truncate (found rule_ddl_truncate (txt "TRUNCATE TABLE is disabled"))
    | _ ↦ []
  ]

  rename_issues : List AlterOperation → List AuditIssue
  rename_issues [] = []
  rename_issues (op ∷ rest) =
      let others = rename_issues rest in
      elim op.action [
        | AlterAction.rename_column ↦
            found rule_target_version (txt "ALTER TABLE RENAME COLUMN requires MySQL 8.0") ∷ others
        | _ ↦ others
      ]

  unfoldable pub feature_issues : DdlSpec → List AuditIssue
  unfolding rename_issues has_expression_index version_less_than
  feature_issues d =
      let old = version_less_than c.server.version 8 0 0 in
      let collation = has_prefix (to_lower d.collation) (txt "utf8mb4_0900_") in
      require (not d.has_foreign_key || c.policy.allow_foreign_key)
        (found rule_ddl_foreign_key (txt "foreign keys are disabled"))
      ++ (require (not d.partitioned || c.policy.allow_partition)
            (found rule_ddl_partition (txt "partition tables are disabled"))
          ++ (require (not (old && collation))
                (found rule_target_version (txt "utf8mb4_0900 collations require MySQL 8.0"))
              ++ ((if old then rename_issues d.alter_operations else [])
                  ++ require
                      (not (has_expression_index d && version_less_than c.server.version 8 0 13))
                      (found rule_target_version
                        (txt "functional indexes require MySQL 8.0.13 or newer")))))

  unfoldable pub engine_issues : DdlSpec → List AuditIssue
  engine_issues d =
      let required = trim_space c.policy.required_engine in
      require (required == [] || d.engine == [] || equal_fold required d.engine) (
        found rule_ddl_engine
          (sprintf "table engine must be %s, got %s" (required ∷ d.engine ∷ [])))

  -- `seen` has the keys of the columns before.
  unfoldable pub column_issues : List Text → List ColumnSpec → List AuditIssue
  column_issues seen [] = []
  column_issues seen (x ∷ rest) =
      require (not (has_key (column_key x) seen))
        (found rule_ddl_duplicate_col (sprintf "duplicate column %s" (x.name ∷ [])))
      ++ column_issues (column_key x ∷ seen) rest

  unfoldable pub missing_issues : List Text → Text → List Text → List AuditIssue
  missing_issues columns index [] = []
  missing_issues columns index (name ∷ rest) =
      require (has_key (to_lower name) columns) (
        found rule_ddl_index_column
          (sprintf "index %s references missing column %s" (index ∷ name ∷ [])))
      ++ missing_issues columns index rest

  unfoldable pub index_issues : List Text → List Text → List IndexSpec → List AuditIssue
  unfolding missing_issues
  index_issues columns seen [] = []
  index_issues columns seen (i ∷ rest) =
      require (not (has_key (to_lower i.name) seen))
        (found rule_ddl_duplicate_idx (sprintf "duplicate index %s" (i.name ∷ [])))
      ++ (missing_issues columns i.name i.columns
          ++ index_issues columns (to_lower i.name ∷ seen) rest)

  unfoldable pub create_issues : DdlSpec → List AuditIssue
  create_issues d =
      engine_issues d
      ++ (column_issues [] d.columns ++ index_issues (map column_key d.columns) [] d.indexes)

  unfoldable pub ddl_safety : List AuditIssue
  ddl_safety = elim s.ddl [
    | none ↦ []
    | some d ↦
        action_issues d
        ++ (feature_issues d
            ++ (elim d.action [ DdlAction.create_table ↦ create_issues d | _ ↦ [] ]))
  ]
