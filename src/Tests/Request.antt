-- ===== src/Tests/Request.antt =====
-- Examples of the theorems on the requests.
use goinception_plus.Prelude.{
  ℕ, ◌<◌, Bool, true, false, List, [], ◌∷◌, ◌++◌, ◌≡◌, refl, arith, inl, inr, All, leb, ◌&&◌,
  if◌then◌else◌, ap,
}
use goinception_plus.Prelude.Int.{pos}
use goinception_plus.Strings.{Text, txt, join}
use goinception_plus.Strings.Utf8.{encode, decode}
use goinception_plus.Audit.Types.{ok}
use goinception_plus.Request.Encoding.{normalize_console_encoding}
use goinception_plus.Request.Encoding.Utf16.{utf16, normalize-utf16}
use goinception_plus.Request.Split.{split_sql}
use goinception_plus.Request.Split.Joined.{IsWhole, split_sql-join}
use goinception_plus.Request.Split.Grammar.{
  in_statement, IsPlain, Reads, done, character, block, in_comment, end_block, hash,
  in_comment_line, end_line, open_quotes, in_string, close_quotes,
}
use goinception_plus.Request.Envelope.{LegacyEnvelope, parse_legacy_envelope}
use goinception_plus.Request.Envelope.Bounds.{
  IsAccepted, parse_legacy_envelope-IsAccepted, parse_legacy_envelope-IsBatch, IsBatch,
}

abbrev greek : Text
greek = b'a' ∷ 0x3B1 ∷ 0x1F600 ∷ []

normalize-utf16_example :
    (normalize_console_encoding (utf16 true greek) ≡ encode greek)
    × (decode (normalize_console_encoding (utf16 true greek)) ≡ greek)
normalize-utf16_example =
    normalize-utf16 true greek
      (inl (omega arith), (inl (omega arith), (inr (omega arith, omega arith), tt)))

abbrev statements : List Text
statements = txt "a';'" ∷ txt "b#;\nb" ∷ txt "c/*;*/" ∷ []

abbrev semicolon_joined : Text
semicolon_joined = join statements (txt ";\n") ++ txt ";"

letter-IsPlain : (c : ℕ) → 96 < c → IsPlain c
letter-IsPlain c h = record {
  no_semicolon = λ e. omega (arith, e, h);
  no_apostrophe = λ e. omega (arith, e, h);
  no_quote = λ e. omega (arith, e, h);
  no_backtick = λ e. omega (arith, e, h);
  no_hash = λ e. omega (arith, e, h);
  no_slash = λ e. omega (arith, e, h);
  no_dash = λ e. omega (arith, e, h);
}

string_read : Reads in_statement (txt "a';'")
string_read = character (letter-IsPlain b'a' (omega arith)) (
    open_quotes (inl refl) (
      in_string (λ e. omega (arith, e)) (inl (λ e. omega (arith, e)))
        (close_quotes (λ e. omega (arith, e)) (λ (rest, e). cc e) done)))

line_read : Reads in_statement (txt "b#;\nb")
line_read = character (letter-IsPlain b'b' (omega arith)) (
    hash (
      in_comment_line (λ e. omega (arith, e))
        (end_line (character (letter-IsPlain b'b' (omega arith)) done))))

block_read : Reads in_statement (txt "c/*;*/")
block_read =
    character (letter-IsPlain b'c' (omega arith))
      (block (in_comment (inl (λ e. omega (arith, e))) (end_block done)))

statements-IsWhole : All IsWhole statements
unfolding goinception_plus.Strings.trim_space
statements-IsWhole = (
  record { reads = string_read; trimmed = refl; nonempty = refl },
  (
    record { reads = line_read; trimmed = refl; nonempty = refl },
    (record { reads = block_read; trimmed = refl; nonempty = refl }, tt),
  ),
)

split_sql-join_example : split_sql semicolon_joined ≡ ok statements
split_sql-join_example = split_sql-join statements statements-IsWhole

-- A comment to the end of the line loses the end of the line, and then hides the semicolon.
commented :
    split_sql (txt "select 1 -- c\n;select 2;") ≡ ok (txt "select 1 -- c" ∷ txt "select 2" ∷ [])
unfolding split_sql goinception_plus.Strings.trim_space
commented = refl

rejoined :
    split_sql (join (txt "select 1 -- c" ∷ txt "select 2" ∷ []) (txt ";\n") ++ txt ";")
    ≡ ok (txt "select 1 -- c;\nselect 2" ∷ [])
unfolding split_sql join goinception_plus.Strings.trim_space
rejoined = refl

abbrev letter : ℕ → Bool
letter c = leb b'a' c && leb c b'z'

abbrev digit : ℕ → Bool
digit c = leb b'0' c && leb c b'9'

abbrev request : Text
request =
    txt
      "/*--host=db;--port=3307;--user=u;--execute=1;--backup=on;--sleep=5;*/inception_magic_start;DELETE FROM t;inception_magic_commit;"

abbrev sent : LegacyEnvelope
sent = record {
  options = record {
    target = record {
      host = txt "db";
      port = 3307;
      user = txt "u";
      password = [];
      database = [];
      sql_mode = [];
      version = [];
      sql_safe_updates = pos 0;
      lock_wait_timeout = pos 0;
      default_charset = [];
    };
    check = true;
    execute = true;
    backup = true;
    ignore_warnings = false;
    sleep_millis = 5;
    sleep_rows = 1;
    trace_id = [];
  };
  sql = txt "DELETE FROM t;";
}

sent_parsed : parse_legacy_envelope letter digit request ≡ ok sent
unfolding parse_legacy_envelope normalize_console_encoding split_sql decode encode join
    goinception_plus.Strings.trim_space goinception_plus.Request.Directives.split_leading_directives
    goinception_plus.Request.Directives.marker_equals goinception_plus.Strings.Fold.equal_fold
    goinception_plus.Prelude.text_beq goinception_plus.Strings.to_lower goinception_plus.Prelude.any
    goinception_plus.Request.Directives.parse_directives goinception_plus.Strings.split
    goinception_plus.Strings.replace_all goinception_plus.Request.Directives.parse_port
    goinception_plus.Request.Directives.value_of goinception_plus.Request.Directives.parse_bool
    goinception_plus.Request.Directives.parse_non_negative_int
    goinception_plus.Request.Envelope.check_parts goinception_plus.Request.Envelope.parse_options
    goinception_plus.Strings.Dict.lookup goinception_plus.Strings.trim
sent_parsed = refl

parse_legacy_envelope-IsAccepted_example : IsAccepted letter digit sent.options
parse_legacy_envelope-IsAccepted_example =
    parse_legacy_envelope-IsAccepted letter digit request sent sent_parsed

parse_legacy_envelope-IsBatch_example :
    (first : Text) × (body : List Text) × (last : Text) × (split_sql
        (decode (normalize_console_encoding request))
      ≡ ok (first ∷ (body ++ (last ∷ []))))
    × IsBatch body
    × (sent.sql ≡ join body (txt ";\n") ++ txt ";")
parse_legacy_envelope-IsBatch_example =
    parse_legacy_envelope-IsBatch letter digit request sent sent_parsed
