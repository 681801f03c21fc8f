-- ===== src/Config/Validation.antt =====
-- internal/config/config.go, internal/config/runtime.go: the checks of a configuration when it is loaded
-- (`Validate`) and of its [inc] section after a change (`validateIncRuntime`). A record has the fields
-- that the checks read, a duration is in nanoseconds, and the entries of a map are in the order of its list.
pub mod Laws
use goinception_plus.Prelude.{
  ℕ, Bool, true, false, not, ◌&&◌, ◌||◌, Option, none, some, List, [], ◌∷◌, ◌++◌, if◌then◌else◌,
  ◌==◌, text_eq, ltb,
}
use goinception_plus.Prelude.Int.{ℤ, pos, negsuc}
use goinception_plus.Strings.{Text, txt, trim_space, join}
use goinception_plus.Audit.Types.{Error, failure}
use goinception_plus.Audit.Catalog.{rule_by_code}

pub record Server : Type 0 where
  pub host : Text
  pub port : ℤ
  pub max_connections : ℤ
  pub max_allowed_packet : ℤ
  pub read_timeout : ℤ
  pub write_timeout : ℤ
  pub idle_timeout : ℤ
  pub shutdown_timeout : ℤ
  pub audit_timeout : ℤ

pub record Observability : Type 0 where
  pub enabled : Bool
  pub host : Text
  pub port : ℤ

pub record Auth : Type 0 where
  pub username : Text
  pub password : Text
  pub password_env : Text

pub record Log : Type 0 where
  pub level : Text
  pub format : Text

pub record Inc : Type 0 where
  pub max_column_count : ℤ
  pub max_update_rows : ℤ
  pub max_insert_rows : ℤ
  pub max_key_parts : ℤ
  pub max_primary_key_parts : ℤ
  pub max_keys : ℤ
  pub explain_rule : Text
  pub sql_safe_updates : ℤ
  pub lock_wait_timeout : ℤ

pub record BackupSection : Type 0 where
  pub host : Text
  pub port : ℤ
  pub user : Text
  pub password : Text
  pub password_env : Text

-- `inc_level` has the levels of `levelBindings`; the level er_max_column_count of the section is not among
-- them, and no check reads it. The aliases of two levels are merged into them before the check.
pub record Configuration : Type 0 where
  pub server : Server
  pub auth : Auth
  pub log : Log
  pub inc : Inc
  pub inc_level : List (Text × ℤ)
  pub er_max_column_count : ℤ
  pub rules : List (Text × ℤ)
  pub backup : BackupSection
  pub observability : Observability

-- `a < b`
unfoldable pub below : ℤ → ℤ → Bool
below (pos a) (pos b) = ltb a b
below (pos a) (negsuc b) = false
below (negsuc a) (pos b) = true
below (negsuc a) (negsuc b) = ltb b a

abbrev pub outside : ℤ → ℤ → ℤ → Bool
outside low high n = below n low || below high n

abbrev pub is_empty : Text → Bool
is_empty t = t == []

-- A text of the list of problems, where the test holds.
unfoldable pub problem : Bool → Text → List Text
problem holds text = if holds then text ∷ [] else []

abbrev same_bool : Bool → Bool → Bool
same_bool a b = if a then b else not b

unfoldable pub server_problems : Server → List Text
unfolding problem below
server_problems s =
    problem (is_empty (trim_space s.host)) (txt "server.host is required")
    ++ (problem (outside (pos 1) (pos 65535) s.port) (txt "server.port must be 1..65535")
        ++ (problem (below s.max_connections (pos 1))
              (txt "server.max_connections must be positive")
            ++ (problem (outside (pos 1024) (pos 1073741824) s.max_allowed_packet)
                  (txt "server.max_allowed_packet must be 1KiB..1GiB")
                ++ (problem
                      (below s.read_timeout (pos 1)
                        || (below s.write_timeout (pos 1)
                            || (below s.idle_timeout (pos 1) || below s.shutdown_timeout (pos 1))))
                      (txt "all server timeouts must be positive")
                    ++ problem (below s.audit_timeout (pos 1))
                        (txt "server.audit_timeout must be positive")))))

unfoldable pub log_problems : Log → List Text
unfolding problem
log_problems l =
    problem
      (not (l.level == txt "debug")
        && (not (l.level == txt "info")
            && (not (l.level == txt "warn") && not (l.level == txt "error"))))
      (txt "log.level must be debug, info, warn, or error")
    ++ problem (not (l.format == txt "text") && not (l.format == txt "json"))
        (txt "log.format must be text or json")

abbrev same_int : ℤ → ℤ → Bool
same_int a b = not (below a b) && not (below b a)

unfoldable pub observability_problems : Observability → Server → List Text
unfolding problem below
observability_problems o s =
    if o.enabled
    then problem (is_empty (trim_space o.host) || outside (pos 1) (pos 65535) o.port)
        (txt "observability requires host and port 1..65535")
      ++ problem (same_int o.port s.port && o.host == s.host)
          (txt "observability and MySQL protocol addresses must differ")
    else []

unfoldable pub auth_problems : Auth → List Text
unfolding problem
auth_problems a =
    problem (is_empty (trim_space a.username)) (txt "auth.username is required")
    ++ problem (same_bool (is_empty a.password) (is_empty a.password_env))
        (txt "exactly one of auth.password or auth.password_env is required")

unfoldable pub level_problems : List (Text × ℤ) → List Text
unfolding problem below
level_problems [] = []
level_problems ((name, value) ∷ levels) =
    problem (outside (pos 0) (pos 2) value)
      (txt "inc_level." ++ (name ++ txt " must be 0, 1, or 2"))
    ++ level_problems levels

unfoldable pub rule_problems : List (Text × ℤ) → List Text
unfolding problem below
rule_problems [] = []
rule_problems ((code, value) ∷ rules) =
    let others = rule_problems rules in
    elim (rule_by_code code) [
      | none ↦ (txt "rules." ++ (code ++ txt " is not a registered GIP RuleID")) ∷ others
      | some definition ↦
          problem (outside (pos 0) (pos 2) value)
            (txt "rules." ++ (code ++ txt " must be 0, 1, or 2"))
          ++ others
    ]

abbrev pub bad_explain_rule : Inc → Bool
bad_explain_rule inc = not (inc.explain_rule == txt "first") && not (inc.explain_rule == txt "max")

abbrev pub bad_safe_updates : Inc → Bool
bad_safe_updates inc = outside (negsuc 0) (pos 1) inc.sql_safe_updates

abbrev pub bad_lock_wait : Inc → Bool
bad_lock_wait inc = below inc.lock_wait_timeout (negsuc 0)

abbrev explain_rule_text : Text
explain_rule_text = txt "inc.explain_rule must be first or max"

abbrev safe_updates_text : Text
safe_updates_text = txt "inc.sql_safe_updates must be -1, 0, or 1"

abbrev lock_wait_text : Text
lock_wait_text = txt "inc.lock_wait_timeout must be -1 or non-negative"

unfoldable pub inc_problems : Inc → List Text
unfolding problem below
inc_problems inc =
    problem (bad_explain_rule inc) explain_rule_text
    ++ (problem (bad_safe_updates inc) safe_updates_text
        ++ problem (bad_lock_wait inc) lock_wait_text)

unfoldable pub backup_problems : BackupSection → List Text
unfolding problem below
backup_problems b =
    if is_empty b.host
    then []
    else problem (outside (pos 1) (pos 65535) b.port || is_empty b.user)
        (txt "backup host requires valid port and user")
      ++ problem (same_bool (is_empty b.password) (is_empty b.password_env))
          (txt "backup requires exactly one password source")

unfoldable pub problems : Configuration → List Text
unfolding server_problems log_problems observability_problems auth_problems level_problems
    rule_problems inc_problems backup_problems
problems c =
    server_problems c.server
    ++ (log_problems c.log
        ++ (observability_problems c.observability c.server
            ++ (auth_problems c.auth
                ++ (level_problems c.inc_level
                    ++ (rule_problems c.rules
                        ++ (inc_problems c.inc ++ backup_problems c.backup))))))

unfoldable pub validation_error : List Text → Option Error
validation_error [] = none
validation_error (first ∷ rest) =
    some (failure (txt "configuration validation failed: " ++ join (first ∷ rest) (txt "; ")))

unfoldable pub validate : Configuration → Option Error
unfolding problems validation_error
validate c = validation_error (problems c)

unfoldable pub has_negative_limit : Inc → Bool
unfolding below
has_negative_limit inc =
    below inc.max_column_count (pos 0)
    || (below inc.max_update_rows (pos 0)
        || (below inc.max_insert_rows (pos 0)
            || (below inc.max_key_parts (pos 0)
                || (below inc.max_primary_key_parts (pos 0) || below inc.max_keys (pos 0)))))

unfoldable pub validate_inc_runtime : Inc → Option Error
unfolding below has_negative_limit
validate_inc_runtime inc =
    if bad_explain_rule inc
    then some (failure explain_rule_text)
    else if bad_safe_updates inc
    then some (failure safe_updates_text)
    else if bad_lock_wait inc
    then some (failure lock_wait_text)
    else if has_negative_limit inc
    then some (failure (txt "numeric audit limits must be non-negative"))
    else none
