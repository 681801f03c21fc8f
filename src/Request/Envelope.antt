-- ===== src/Request/Envelope.antt =====
-- internal/request/legacy.go: `ParseLegacyEnvelope`. The tables of `unicode.IsLetter` and
-- `unicode.IsDigit` are parameters.
pub mod Bounds
use goinception_plus.Prelude.{
  ℕ, ◌*◌, ◌^◌, ◌-◌, Bool, true, false, not, ◌&&◌, ◌||◌, Option, none, some, List, [], ◌∷◌, ◌++◌,
  if◌then◌else◌, ◌==◌, nat_eq, text_eq, ltb, any, is_empty, length, append_nothing,
}
use goinception_plus.Prelude.Int.{pos}
use goinception_plus.Strings.{Text, txt, trim_space, join}
use goinception_plus.Strings.Format.{sprintf, itoa, quoted}
use goinception_plus.Strings.Utf8.{encode, decode}
use goinception_plus.Model.{TargetOptions, RequestOptions}
use goinception_plus.Audit.Types.{Error, failure, Result, ok, err, ◌>>=◌}
use goinception_plus.Request.Encoding.{normalize_console_encoding}
use goinception_plus.Request.Split.{split_sql}
use goinception_plus.Request.Directives.{
  fails, split_leading_directives, parse_directives, value_of, parse_non_negative_int, parse_port,
  parse_bool, marker_equals,
}

unfoldable pub max_request_bytes : ℕ
max_request_bytes = 16 * 2 ^ 20

unfoldable pub max_statement_bytes : ℕ
max_statement_bytes = 2 ^ 20

unfoldable pub max_statements : ℕ
max_statements = 10000

pub record LegacyEnvelope : Type 0 where
  pub options : RequestOptions
  pub sql : Text

-- `len(s)` of a string made of runes.
abbrev pub byte_length : Text → ℕ
byte_length s = length (encode s)

-- An error unless the test holds.
abbrev pub demand : Bool → Text → Result {0} Unit
demand test message = if test then ok tt else fails message

unfoldable pub is_marker : Text → Bool
is_marker part =
    marker_equals part (txt "inception_magic_start")
    || (marker_equals part (txt "inception_magic_commit")
        || marker_equals part (txt "inception_magic_end"))

unfoldable pub is_end_marker : Text → Bool
is_end_marker part =
    marker_equals part (txt "inception_magic_commit")
    || marker_equals part (txt "inception_magic_end")

-- The list without its last element, and the last; `x` is the first.
unfoldable pub split_last : Text → List Text → List Text × Text
split_last x [] = ([], x)
split_last x (y ∷ rest) = let (front, last) = split_last y rest in (x ∷ front, last)

abbrev pub is_long : Text → Bool
is_long part = ltb max_statement_bytes (byte_length part)

-- The text of the directives and the statements between the markers.
unfoldable pub check_body : Text → List Text → Text → Result (Text × List Text)
unfolding is_marker is_end_marker max_statement_bytes max_statements
check_body first body last = do
  leading ← split_leading_directives first
  starts ←
      demand (marker_equals leading.1 (txt "inception_magic_start"))
        (txt "first statement must be inception_magic_start")
  ends ← demand (is_end_marker last) (txt "request must end with inception_magic_commit")
  unmarked ←
      demand (not (any is_marker body)) (txt "duplicate or misplaced inception control marker")
  few ←
      demand (not (ltb max_statements (length body)))
        (sprintf "statement count exceeds %d" (itoa max_statements ∷ []))
  short ←
      demand (not (any is_long body))
        (sprintf "SQL statement exceeds %d bytes" (itoa max_statement_bytes ∷ []))
  ok (leading.0, body)

unfoldable pub check_parts : List Text → Result (Text × List Text)
unfolding split_last check_body
check_parts parts = elim parts [
  | first ∷ second ∷ third ∷ rest ↦
      let (body, last) = split_last second (third ∷ rest) in check_body first body last
  | few ↦ fails (txt "request must contain inception_magic_start, SQL, and inception_magic_commit")
]

module _ (is_letter is_digit : ℕ → Bool) where
  unfoldable pub is_trace_rune : ℕ → Bool
  is_trace_rune r = is_letter r || (is_digit r || any (λ d. r == d) (txt "._:-"))

  unfoldable pub check_trace : Text → Result {0} Unit
  unfolding is_trace_rune
  check_trace [] = ok tt
  check_trace (r ∷ rest) =
      let later = check_trace rest in
      if is_trace_rune r
      then later
      else fails (sprintf "trace-id contains invalid character %q" ((b'\'' ∷ r ∷ b'\'' ∷ []) ∷ []))

  unfoldable pub trace_id : List (Text × Text) → Result Text
  unfolding check_trace
  trace_id values =
      let under = value_of values (txt "trace_id") in
      let trace = if is_empty under then value_of values (txt "trace-id") else under in
      demand (not (ltb 128 (byte_length trace))) (txt "trace-id exceeds 128 characters") >>= λ u.
      check_trace trace >>= λ u. ok trace

  -- `sleepRows` after its defaults.
  unfoldable pub effective_sleep_rows : ℕ → ℕ → ℕ
  effective_sleep_rows millis rows = if millis == 0 then 0 else if rows == 0 then 1 else rows

  unfoldable pub target_of : List (Text × Text) → ℕ → TargetOptions
  target_of values port = record {
    host = value_of values (txt "host");
    port = port;
    user = value_of values (txt "user");
    password = value_of values (txt "password");
    database = value_of values (txt "db");
    sql_mode = value_of values (txt "sql_mode");
    version = value_of values (txt "mysql_version");
    sql_safe_updates = pos 0;
    lock_wait_timeout = pos 0;
    default_charset = [];
  }

  unfoldable pub parse_options : List (Text × Text) → Result RequestOptions
  unfolding trace_id effective_sleep_rows target_of
  parse_options values = do
    port ← parse_port (value_of values (txt "port"))
    check ← parse_bool values (txt "check") true
    execute ← parse_bool values (txt "execute") false
    backup ← parse_bool values (txt "backup") false
    has_host ←
        demand (not (is_empty (trim_space (value_of values (txt "host")))))
          (txt "target host is required")
    has_user ←
        demand (not (is_empty (trim_space (value_of values (txt "user")))))
          (txt "target user is required")
    executes ← demand (not (backup && not execute)) (txt "backup requires execute=1")
    ignore_warnings ← parse_bool values (txt "ignore_warnings") false
    millis ← parse_non_negative_int (value_of values (txt "sleep")) (txt "sleep") 100000
    rows ←
        parse_non_negative_int (value_of values (txt "sleep_rows")) (txt "sleep_rows") (2 ^ 63 - 1)
    trace ← trace_id values
    ok (record {
      target = target_of values port;
      check = check;
      execute = execute;
      backup = backup;
      ignore_warnings = ignore_warnings;
      sleep_millis = millis;
      sleep_rows = effective_sleep_rows millis rows;
      trace_id = trace;
    })

  -- From the bytes of the request.
  unfoldable pub parse_legacy_envelope : List ℕ → Result LegacyEnvelope
  unfolding check_parts parse_options max_request_bytes
  parse_legacy_envelope bytes = do
    let input = normalize_console_encoding bytes
    fits ←
        demand (not (ltb max_request_bytes (length input)))
          (sprintf "inception request exceeds %d bytes" (itoa max_request_bytes ∷ []))
    parts ← split_sql (decode input)
    checked ← check_parts parts
    values ← parse_directives checked.0
    options ← parse_options values
    ok (record { options = options; sql = join checked.1 (txt ";\n") ++ txt ";" })
