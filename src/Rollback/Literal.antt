-- ===== src/Rollback/Literal.antt =====
-- internal/rollback/generator.go: identifiers and values as SQL text.
use goinception_plus.Prelude.{
  ℕ, ◌+◌, ◌-◌, ◌/◌, ◌%◌, Bool, true, false, ◌||◌, List, [], ◌∷◌, ◌++◌, if◌then◌else◌, ltb, suc,
}
use goinception_plus.Prelude.Int.{ℤ, pos, negsuc}
use goinception_plus.Strings.{Text, txt, to_lower, contains, has_prefix, replace_all}
use goinception_plus.Strings.Format.{itoa}
use goinception_plus.Audit.Types.{Column}

-- A value of a row image. Strings and bytes are lists of bytes. Times and floats carry the texts that the standard library gives for
-- them: the one of the explicit format and the one of `fmt.Sprint`.
pub data Value : Type 0 where
  nil : Value
  bytes : List ℕ → Value
  string : Text → Value
  time : Text → Text → Value
  boolean : Bool → Value
  integer : ℤ → Value
  unsigned : ℕ → Value
  float : Text → Text → Value
  other : Text → Value

abbrev pub is_nil : Value → Bool
is_nil nil = true
is_nil _ = false

unfoldable pub quote_ident : Text → Text
unfolding replace_all
quote_ident v = b'`' ∷ (replace_all v b'`' (b'`' ∷ b'`' ∷ []) ++ (b'`' ∷ []))

hex_digit : ℕ → ℕ
hex_digit n = if ltb n 10 then b'0' + n else b'A' + (n - 10)

hex : List ℕ → Text
unfolding hex_digit
hex [] = []
hex (b ∷ rest) = hex_digit (b / 16) ∷ hex_digit (b % 16) ∷ hex rest

unfoldable pub hex_literal : List ℕ → Text
unfolding hex
hex_literal b = txt "X'" ++ (hex b ++ txt "'")

-- Backslashes first, then quotes, are doubled.
unfoldable pub string_literal : Text → Text
unfolding replace_all
string_literal s =
    39 ∷ (replace_all (replace_all s 92 (92 ∷ 92 ∷ [])) 39 (39 ∷ 39 ∷ []) ++ (39 ∷ []))

decimal : ℤ → Text
decimal (pos n) = itoa n
decimal (negsuc n) = b'-' ∷ itoa (suc n)

unfoldable pub literal : Value → Text
unfolding hex_literal string_literal decimal replace_all
literal nil = txt "NULL"
literal (bytes b) = hex_literal b
literal (string s) = string_literal s
literal (time formatted plain) = 39 ∷ (formatted ++ txt "'")
literal (boolean b) = if b then txt "1" else txt "0"
literal (integer n) = decimal n
literal (unsigned n) = itoa n
literal (float formatted plain) = formatted
literal (other plain) = 39 ∷ (replace_all plain 39 (39 ∷ 39 ∷ []) ++ txt "'")

-- `fmt.Sprint` of a value that is neither nil nor bytes.
unfoldable pub sprint : Value → Text
unfolding decimal
sprint nil = txt "<nil>"
sprint (bytes b) = []
sprint (string s) = s
sprint (time formatted plain) = plain
sprint (boolean b) = if b then txt "true" else txt "false"
sprint (integer n) = decimal n
sprint (unsigned n) = itoa n
sprint (float formatted plain) = plain
sprint (other plain) = plain

is_binary : Text → Bool
is_binary kind =
    contains kind (txt "binary") || contains kind (txt "blob") || has_prefix kind (txt "bit")

is_decimal : Text → Bool
is_decimal kind = contains kind (txt "decimal") || contains kind (txt "numeric")

is_number : Text → Bool
unfolding is_decimal
is_number kind = is_decimal kind || contains kind (txt "float") || contains kind (txt "double")

literal_of_kind : Text → Value → Text
unfolding is_binary is_decimal is_number literal sprint
literal_of_kind kind nil = txt "NULL"
literal_of_kind kind (bytes b) =
    if is_binary kind then hex_literal b else if is_number kind then b else string_literal b
literal_of_kind kind (string s) =
    if is_binary kind then hex_literal s else if is_decimal kind then s else string_literal s
literal_of_kind kind v = if is_decimal kind then sprint v else literal v

unfoldable pub literal_column : Column → Value → Text
unfolding literal_of_kind
literal_column c v = literal_of_kind (to_lower c.column_type) v
