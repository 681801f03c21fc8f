-- ===== src/Strings/Format.antt =====
-- `fmt.Sprintf` over arguments that are texts already, and decimal numbers.
use goinception_plus.Prelude.{
  ℕ, zero, suc, ◌+◌, ◌/◌, ◌%◌, String, ◌||◌, List, [], ◌∷◌, ◌++◌, ltb, if◌then◌else◌, ◌==◌, nat_eq,
}
use goinception_plus.Strings.{Text, txt}

-- Each verb, a `%` and one letter, takes the next argument.
fill : Text → List Text → Text
fill [] args = []
fill (c ∷ []) args = c ∷ []
fill (c ∷ verb ∷ rest) [] = c ∷ verb ∷ rest
fill (c ∷ verb ∷ rest) (arg ∷ args) =
    let verbed = arg ++ fill rest args in
    let plain = c ∷ fill (verb ∷ rest) (arg ∷ args) in if c == b'%' then verbed else plain

unfoldable pub sprintf : String → List Text → Text
unfolding fill
sprintf template args = fill (txt template) args

digits_onto : ℕ → ℕ → Text → Text
digits_onto zero n out = out
digits_onto (suc fuel) n out =
    let more = digits_onto fuel (n / 10) ((b'0' + n % 10) ∷ out) in
    if ltb n 10 then (b'0' + n) ∷ out else more

-- `strconv.Itoa`. A number has fewer digits than its value plus one.
unfoldable pub itoa : ℕ → Text
unfolding digits_onto
itoa n = digits_onto (suc n) n []

escape_rune : ℕ → Text
escape_rune c =
    if c == b'"' || c == 92
    then 92 ∷ c ∷ []
    else if c == 9
    then 92 ∷ b't' ∷ []
    else if c == 10
    then 92 ∷ b'n' ∷ []
    else if c == 13
    then 92 ∷ b'r' ∷ []
    else c ∷ []

escape_runes : Text → Text
unfolding escape_rune
escape_runes [] = []
escape_runes (c ∷ s) = escape_rune c ++ escape_runes s

-- The verb `%q` of printable text, tabs and line ends.
unfoldable pub quoted : Text → Text
unfolding escape_runes
quoted s = b'"' ∷ (escape_runes s ++ (b'"' ∷ []))
