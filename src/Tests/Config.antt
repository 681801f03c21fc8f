-- ===== src/Tests/Config.antt =====
-- Examples of the theorems on the levels of the rules and the checks of the configuration.
use goinception_plus.Prelude.{ℕ, true, [], ◌∷◌, ◌≡◌, refl}
use goinception_plus.Prelude.Int.{pos, negsuc}
use goinception_plus.Config.Validation.{Configuration}
use goinception_plus.Strings.{Text, txt}
use goinception_plus.Model.{Severity}
use goinception_plus.Audit.Policy.{legacy_defaults, level}
use goinception_plus.Audit.Codes.{rule_ddl_foreign_key}
use goinception_plus.Config.Levels.{LevelSettings, with_rule, set_level, policy_of}
use goinception_plus.Config.Levels.Laws.{rule_of, set_level-level}

-- The rule on foreign keys is set by its code, and a field of the levels by its name.
abbrev settings : LevelSettings
settings = record {
  inc_level = (txt "er_use_enum", 2) ∷ [];
  rules = (rule_ddl_foreign_key, 2) ∷ [];
}

-- The name `er_foreign_key` sets the rule whose code is set.
set_level-level_example :
    level
      (policy_of legacy_defaults (with_rule settings rule_ddl_foreign_key 1))
      rule_ddl_foreign_key
    ≡ Severity.warning
unfolding rule_of goinception_plus.Strings.has_prefix goinception_plus.Strings.to_upper
    goinception_plus.Strings.trim_space goinception_plus.Strings.Dict.lookup
    goinception_plus.Config.Levels.legacy_level_rule goinception_plus.Prelude.text_beq
    goinception_plus.Config.Levels.canonical_level_alias goinception_plus.Strings.to_lower set_level
    goinception_plus.Prelude.any goinception_plus.Config.Levels.level_names
    goinception_plus.Config.Levels.severity
set_level-level_example =
    set_level-level legacy_defaults (txt " ER_foreign_key") rule_ddl_foreign_key
      rule_ddl_foreign_key 1 settings (with_rule settings rule_ddl_foreign_key 1) refl refl

-- A configuration that is accepted, though its limit on the number of indexes is negative.
abbrev accepted : Configuration
accepted = record {
  server = record {
    host = txt "0.0.0.0";
    port = pos 4000;
    max_connections = pos 100;
    max_allowed_packet = pos 4096;
    read_timeout = pos 30;
    write_timeout = pos 30;
    idle_timeout = pos 60;
    shutdown_timeout = pos 10;
    audit_timeout = pos 60;
  };
  auth = record { username = txt "root"; password = txt "secret"; password_env = [] };
  log = record { level = txt "info"; format = txt "json" };
  inc = record {
    max_column_count = pos 0;
    max_update_rows = pos 0;
    max_insert_rows = pos 0;
    max_key_parts = pos 16;
    max_primary_key_parts = pos 16;
    max_keys = negsuc 0;
    explain_rule = txt "first";
    sql_safe_updates = negsuc 0;
    lock_wait_timeout = negsuc 0;
  };
  inc_level = (txt "er_use_enum", pos 2) ∷ [];
  er_max_column_count = pos 1;
  rules = (rule_ddl_foreign_key, pos 1) ∷ [];
  backup = record { host = []; port = pos 0; user = []; password = []; password_env = [] };
  observability = record { enabled = true; host = txt "0.0.0.0"; port = pos 4001 };
}
