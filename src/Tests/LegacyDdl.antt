-- ===== src/Tests/LegacyDdl.antt =====
-- Examples of the theorems on the legacy DDL rules.
use goinception_plus.Prelude.{true, false, some, List, [], ◌∷◌, ◌++◌, ◌≡◌, refl, none, inl, Memᴰ}
use goinception_plus.Strings.{Text, txt}
use goinception_plus.Model.{DdlAction, DdlSpec, StatementKind, Statement}
use goinception_plus.Audit.Codes.{rule_ddl_alter_once}
use goinception_plus.Audit.Policy.{legacy_defaults}
use goinception_plus.Audit.Engine.{Context}
use goinception_plus.Rules.LegacyDdl.{legacy_ddl, existing_table, count_alter}
use goinception_plus.Rules.LegacyDdl.Redundancy.{IsIrredundant, IsRedundant}
use goinception_plus.Rules.LegacyDdl.Laws.{legacy_ddl-IsIrredundant}
use goinception_plus.Rules.LegacyDdl.AlterOnce.{Reports, legacy_ddl-Reports_merge}
use goinception_plus.Rules.LegacyDdl.Types.{unsafe_column_type_change}
use goinception_plus.Rules.LegacyDdl.Temporal.{invalid_temporal_default}
use goinception_plus.Tests.Data.{users, index, index_spec, ddl, statement, source}
use goinception_plus.Tests.Session.{context}

abbrev strict : Context source
strict = record context {
  policy = record legacy_defaults { legacy = (txt "check_index_column_repeat", txt "1") ∷ [] };
}

-- An index on the users of the schema that does not repeat the one that is there.
abbrev note_index : DdlSpec
note_index = record (ddl DdlAction.create_index (txt "users")) {
  columns = [];
  indexes = index_spec (txt "note_index") (txt "note" ∷ txt "id" ∷ []) ∷ [];
}

abbrev create_note_index : Statement
create_note_index = statement 1 StatementKind.create_index (some note_index)

no_issues : (legacy_ddl source strict create_note_index).0 ≡ []
unfolding legacy_ddl goinception_plus.Audit.Policy.legacy_bool goinception_plus.Prelude.text_beq
    goinception_plus.Rules.LegacyDdl.Types.exceeds goinception_plus.Audit.Policy.legacy_int
    goinception_plus.Metadata.Cache.table_of goinception_plus.Strings.to_lower
    goinception_plus.Prelude.keep goinception_plus.Prelude.any
    goinception_plus.Rules.LegacyDdl.Types.leading_columns_overlap
    goinception_plus.Strings.Fold.equal_fold goinception_plus.Strings.trim_space
no_issues = refl

legacy_ddl-IsIrredundant_example :
    (¬ IsRedundant (txt "note" ∷ txt "id" ∷ []) (txt "ID" ∷ [])) × IsIrredundant note_index.indexes
unfolding goinception_plus.Audit.Policy.legacy_bool goinception_plus.Prelude.text_beq
    goinception_plus.Metadata.Cache.table_of goinception_plus.Strings.to_lower
legacy_ddl-IsIrredundant_example =
    legacy_ddl-IsIrredundant source strict create_note_index note_index users
      (index_spec (txt "note_index") (txt "note" ∷ txt "id" ∷ []))
      (index (txt "PRIMARY") (txt "ID" ∷ [])) refl (inl refl) refl no_issues refl
      (inl (Memᴰ.head refl)) (Memᴰ.head refl) tt

abbrev alter_users : DdlSpec
alter_users = ddl DdlAction.alter_table (txt "users")

abbrev alter_upper : DdlSpec
alter_upper = ddl DdlAction.alter_table (txt "USERS")

abbrev first_alter : Statement
first_alter = statement 1 StatementKind.alter_table (some alter_users)

abbrev second_alter : Statement
second_alter = statement 2 StatementKind.alter_table (some alter_upper)

legacy_ddl-Reports_merge_example :
    Reports rule_ddl_alter_once
      (legacy_ddl source (legacy_ddl source strict first_alter).1 second_alter).0
unfolding goinception_plus.Strings.to_lower
legacy_ddl-Reports_merge_example =
    legacy_ddl-Reports_merge source strict (legacy_ddl source strict first_alter).1 first_alter
      second_alter alter_users alter_upper refl refl refl refl refl refl

-- Integer types are compared by their base alone, and other types of one base are not compared.
unsigned_loss :
    (unsafe_column_type_change (txt "int unsigned") (txt "int") ≡ false)
    × (unsafe_column_type_change (txt "decimal(10,2)") (txt "decimal(5,2)") ≡ false)
unfolding unsafe_column_type_change goinception_plus.Strings.Fold.equal_fold
    goinception_plus.Prelude.text_beq goinception_plus.Strings.to_lower
    goinception_plus.Strings.join goinception_plus.Strings.fields
    goinception_plus.Strings.Dict.lookup goinception_plus.Rules.Dml.Conversion.base_type
    goinception_plus.Strings.trim_space
unsigned_loss = (refl, refl)

leap_days :
    (invalid_temporal_default (txt "'2024-02-29 7:05:00.5'") [] ≡ false)
    × (invalid_temporal_default (txt "'2023-02-29'") [] ≡ true)
unfolding invalid_temporal_default goinception_plus.Prelude.text_beq
    goinception_plus.Strings.trim_space goinception_plus.Strings.to_lower
    goinception_plus.Strings.contains goinception_plus.Strings.trim
leap_days = (refl, refl)
