-- ===== src/Tests/Rollback.antt =====
-- Examples of the theorems on the rollback SQL.
use goinception_plus.Prelude.{true, List, [], ◌∷◌, ◌++◌, some, ◌≡◌, refl, arith, inl}
use goinception_plus.Prelude.Int.{pos}
use goinception_plus.Strings.{txt, to_lower, lower_rune}
use goinception_plus.Rules.ReliableKey.{has_reliable_key}
use goinception_plus.Rollback.{ChangeType, RowChange, key_where}
use goinception_plus.Rollback.Literal.{Value, nil, integer, string, quote_ident, string_literal}
use goinception_plus.Rollback.Quoting.{
  read_ident, read_string, read_ident-quote_ident, read_string-string_literal,
}
use goinception_plus.Rollback.Keys.{Succeeds, key_where-Succeeds}
use goinception_plus.Tests.Data.{users}

abbrev row : List Value
row = integer (pos 7) ∷ string (txt "O'Brien") ∷ []

users-has_reliable_key : has_reliable_key users ≡ true
unfolding has_reliable_key
users-has_reliable_key = refl

key_where-Succeeds_example : Succeeds (key_where users row)
unfolding to_lower lower_rune
key_where-Succeeds_example =
    key_where-Succeeds users row ((inl refl, tt), tt) ((λ e. refl), tt) users-has_reliable_key refl

abbrev change : RowChange
change = record {
  sequence = 1;
  type = ChangeType.update;
  table = users;
  before = row;
  after = integer (pos 8) ∷ nil ∷ [];
}

read_ident-quote_ident_example :
    read_ident (quote_ident (txt "a`b") ++ txt ".c") ≡ some (txt "a`b", txt ".c")
read_ident-quote_ident_example =
    read_ident-quote_ident (txt "a`b") (txt ".c") (λ e. absurd (omega arith))

read_string-string_literal_example :
    read_string (string_literal (txt "O'Brien") ++ txt ";") ≡ some (txt "O'Brien", txt ";")
read_string-string_literal_example =
    read_string-string_literal (txt "O'Brien") (txt ";") (λ e. absurd (omega arith))
