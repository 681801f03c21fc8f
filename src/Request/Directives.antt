-- ===== src/Request/Directives.antt =====
-- internal/request/legacy.go: the directives of a request and the values they hold.
use goinception_plus.Prelude.{
  ℕ, ◌+◌, ◌-◌, ◌*◌, ◌^◌, Bool, true, false, not, ◌&&◌, ◌||◌, Option, none, some, List, [], ◌∷◌,
  if◌then◌else◌, ◌==◌, nat_eq, text_eq, ltb, leb, drop, any, is_empty,
}
use goinception_plus.Strings.{
  Text, txt, to_lower, trim_left, trim_space, trim, has_prefix, split, replace_all,
}
use goinception_plus.Strings.Fold.{equal_fold}
use goinception_plus.Strings.Format.{sprintf, quoted}
use goinception_plus.Strings.Dict.{lookup, insert}
use goinception_plus.Audit.Types.{failure, Result, ok, err, ◌>>=◌}

abbrev pub fails {ℓ} : {A : Type ℓ} → Text → Result A
fails message = err (failure message)

unfoldable pub allowed_directives : List Text
allowed_directives =
    txt "host"
    ∷ txt "port"
    ∷ txt "user"
    ∷ txt "password"
    ∷ txt "db"
    ∷ txt "check"
    ∷ txt "execute"
    ∷ txt "backup"
    ∷ txt "sql_mode"
    ∷ txt "mysql_version"
    ∷ txt "ignore_warnings"
    ∷ txt "sleep"
    ∷ txt "sleep_rows"
    ∷ txt "trace_id"
    ∷ txt "trace-id"
    ∷ []

-- What stands before the first `*/` and what stands after it; none without it.
unfoldable pub cut_comment : Text → Option (Text × Text)
unfolding has_prefix
cut_comment [] = none
cut_comment (c ∷ s) =
    let later = cut_comment s in
    if has_prefix (c ∷ s) (txt "*/")
    then some ([], drop 2 (c ∷ s))
    else elim later [ none ↦ none | some (inner, rest) ↦ some (c ∷ inner, rest) ]

-- The text of the leading comment, and the rest.
unfoldable pub split_leading_directives : Text → Result (Text × Text)
unfolding cut_comment
split_leading_directives input =
    let trimmed = trim_space input in
    if not (has_prefix trimmed (txt "/*"))
    then ok ([], trimmed)
    else elim (cut_comment (drop 2 trimmed)) [
      | none ↦ fails (txt "unterminated inception directive comment")
      | some (inner, rest) ↦ ok (inner, trim_space rest)
    ]

unfoldable pub canonical_directive : Text → Text
canonical_directive key = replace_all (to_lower (trim_space key)) b'-' (txt "_")

-- `strings.SplitN(field, "=", 2)`: the two parts, if there are two.
unfoldable pub cut_equals : Text → Option (Text × Text)
cut_equals [] = none
cut_equals (c ∷ s) =
    let later = cut_equals s in
    if c == b'='
    then some ([], s)
    else elim later [ none ↦ none | some (key, value) ↦ some (c ∷ key, value) ]

unfoldable pub trim_dashes : Text → Text
trim_dashes field = trim_space (trim_left (λ c. c == b'-') (trim_space field))

-- One directive, not blank, is added to those before it.
unfoldable pub add_directive : Text → List (Text × Text) → Result (List (Text × Text))
unfolding cut_equals canonical_directive allowed_directives lookup
add_directive field result = elim (cut_equals field) [
  | none ↦ fails (sprintf "directive %q must use key=value" (quoted field ∷ []))
  | some (name, value) ↦
      let key = canonical_directive name in
      if not (any (λ k. k == key) allowed_directives)
      then fails (sprintf "unknown inception directive %q" (quoted key ∷ []))
      else elim (lookup key result) [
        | some v ↦ fails (sprintf "duplicate inception directive %q" (quoted key ∷ []))
        | none ↦ ok (insert key (trim (trim_space value) (txt "'\"")) result)
      ]
]

unfoldable pub add_directives : List Text → List (Text × Text) → Result (List (Text × Text))
unfolding trim_dashes add_directive
add_directives [] result = ok result
add_directives (raw ∷ rest) result =
    let field = trim_dashes raw in
    (if is_empty field then ok result else add_directive field result) >>= add_directives rest

unfoldable pub parse_directives : Text → Result (List (Text × Text))
unfolding add_directives
parse_directives input = add_directives (split b';' input) []

-- `values[key]`, which is empty for a missing key.
unfoldable pub value_of : List (Text × Text) → Text → Text
unfolding lookup
value_of values key = elim (lookup key values) [ none ↦ [] | some v ↦ v ]

-- The number of a text of decimal digits, after `n`.
unfoldable pub digits_from : ℕ → Text → Option ℕ
digits_from n [] = some n
digits_from n (c ∷ s) =
    let later = digits_from (n * 10 + (c - b'0')) s in
    if leb b'0' c && leb c b'9' then later else none

unfoldable pub digits : Text → Option ℕ
unfolding digits_from
digits [] = none
digits (c ∷ s) = digits_from 0 (c ∷ s)

-- `strconv.Atoi` where it is not negative, on 64 bits.
unfoldable pub atoi_nonneg : Text → Option ℕ
unfolding digits
atoi_nonneg [] = none
atoi_nonneg (c ∷ s) =
    let unsigned = digits (c ∷ s) in
    let signed = digits s in
    if c == b'-'
    then elim signed [ none ↦ none | some n ↦ if n == 0 then some 0 else none ]
    else if c == b'+'
    then signed
    else unsigned

unfoldable pub parse_non_negative_int : Text → Text → ℕ → Result ℕ
unfolding atoi_nonneg
parse_non_negative_int value key max =
    let invalid : Result ℕ = fails (sprintf "invalid %s value %q" (key ∷ quoted value ∷ [])) in
    if is_empty value then ok 0 else elim (atoi_nonneg value) [
      | none ↦ invalid
      | some v ↦ if ltb v (2 ^ 63) && leb v max then ok v else invalid
    ]

-- `strconv.ParseUint` in 16 bits.
unfoldable pub parse_port : Text → Result ℕ
unfolding digits
parse_port value =
    let invalid : Result ℕ = fails (sprintf "invalid target port %q" (quoted value ∷ [])) in
    if is_empty value then ok 3306 else elim (digits value) [
      | none ↦ invalid
      | some port ↦ if leb (2 ^ 16) port || port == 0 then invalid else ok port
    ]

abbrev one_of : Text → List Text → Bool
one_of v = any (λ w. v == w)

unfoldable pub parse_bool : List (Text × Text) → Text → Bool → Result Bool
unfolding lookup
parse_bool values key fallback = elim (lookup key values) [
  | none ↦ ok fallback
  | some value ↦
      let v = to_lower value in
      if one_of v (txt "1" ∷ txt "true" ∷ txt "on" ∷ [])
      then ok true
      else if one_of v (txt "0" ∷ txt "false" ∷ txt "off" ∷ [])
      then ok false
      else fails (sprintf "invalid boolean value %q for %s" (quoted value ∷ key ∷ []))
]

-- `strings.TrimSuffix(s, ";")`
unfoldable pub trim_semicolon : Text → Text
trim_semicolon [] = []
trim_semicolon (c ∷ []) = if c == b';' then [] else c ∷ []
trim_semicolon (c ∷ d ∷ s) = c ∷ trim_semicolon (d ∷ s)

unfoldable pub marker_equals : Text → Text → Bool
unfolding trim_semicolon
marker_equals value marker = equal_fold (trim_space (trim_semicolon (trim_space value))) marker
