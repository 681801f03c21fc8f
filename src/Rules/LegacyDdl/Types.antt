-- ===== src/Rules/LegacyDdl/Types.antt =====
-- internal/audit/rules/legacy_ddl.go: the helpers on types, names and lists of settings.
use goinception_plus.Prelude.{
  ℕ, suc, ◌-◌, Bool, true, false, not, ◌&&◌, ◌||◌, Option, none, some, List, [], ◌∷◌, any, take,
  drop, if◌then◌else◌, ◌==◌, nat_eq, text_eq, ltb, leb, is_empty,
}
use goinception_plus.Prelude.Int.{ℤ, pos, negsuc}
use goinception_plus.Strings.{Text, txt, to_lower, trim_space, has_prefix, split, fields, join}
use goinception_plus.Strings.Dict.{lookup}
use goinception_plus.Strings.Fold.{equal_fold}
use goinception_plus.Strings.Format.{itoa}
use goinception_plus.Audit.Policy.{atoi_value}
use goinception_plus.Rules.Dml.Conversion.{base_type}

-- `a < b`
unfoldable pub int_less : ℤ → ℤ → Bool
int_less (pos m) (pos n) = ltb m n
int_less (pos m) (negsuc n) = false
int_less (negsuc m) (pos n) = true
int_less (negsuc m) (negsuc n) = ltb n m

-- `max > 0 && n > max`
unfoldable pub exceeds : ℤ → ℕ → Bool
exceeds (pos max) n = ltb 0 max && ltb max n
exceeds (negsuc max) n = false

-- The verb `%d`.
unfoldable pub int_text : ℤ → Text
int_text (pos n) = itoa n
int_text (negsuc n) = b'-' ∷ itoa (suc n)

unfoldable pub same_column_type : Text → Text → Bool
same_column_type a b = equal_fold (join (fields a) (txt " ")) (join (fields b) (txt " "))

unfoldable pub ranks : List (Text × ℕ)
ranks =
    (txt "tinyint", 1)
    ∷ (txt "smallint", 2)
    ∷ (txt "mediumint", 3)
    ∷ (txt "int", 4)
    ∷ (txt "integer", 4)
    ∷ (txt "bigint", 5)
    ∷ []

-- `strings.Index(s, c)` for one character.
unfoldable pub index_of : ℕ → Text → Option ℕ
index_of c [] = none
index_of c (d ∷ s) =
    let later = index_of c s in
    if d == c then some 0 else elim later [ none ↦ none | some i ↦ some (suc i) ]

unfoldable pub first_part : List Text → Text
first_part [] = []
first_part (part ∷ parts) = part

-- `typeLength` between the positions of the parentheses.
unfoldable pub argument_between : Text → ℕ → ℕ → ℤ
unfolding first_part
argument_between value open_at close_at =
    if leb close_at open_at
    then pos 0
    else atoi_value (
        trim_space
          (first_part (split b',' (take (close_at - suc open_at) (drop (suc open_at) value)))))

unfoldable pub type_length : Text → ℤ
unfolding index_of argument_between
type_length value = elim (index_of b'(' value) [
  | none ↦ pos 0
  | some open_at ↦ elim (index_of b')' value) [
    | none ↦ pos 0
    | some close_at ↦ argument_between value open_at close_at
  ]
]

abbrev is_char : Text → Bool
is_char base = base == txt "char" || base == txt "varchar"

-- The change of a type that is no change between integer types.
unfoldable pub unsafe_other_change : Text → Text → Bool
unfolding type_length int_less
unsafe_other_change old_type new_type =
    let old_base = base_type old_type in
    let new_base = base_type new_type in
    if old_base == txt "float" && new_base == txt "double"
    then false
    else if is_char old_base && is_char new_base
    then int_less (type_length new_type) (type_length old_type)
      || (old_base == txt "varchar" && new_base == txt "char")
    else if old_base == new_base
    then false
    else true

unfoldable pub unsafe_column_type_change : Text → Text → Bool
unfolding same_column_type ranks unsafe_other_change
unsafe_column_type_change old_type new_type =
    let other = unsafe_other_change old_type new_type in
    if same_column_type old_type new_type then false else elim (lookup (base_type old_type) ranks) [
      | none ↦ other
      | some old_rank ↦ elim (lookup (base_type new_type) ranks) [
        | none ↦ other
        | some new_rank ↦ ltb new_rank old_rank
      ]
    ]

unfoldable pub allowed_csv : Text → Text → Bool
allowed_csv value allowed =
    if value == [] then true else any (λ v. equal_fold (trim_space v) value) (split b',' allowed)

-- One prefix of the list.
unfoldable pub has_some_prefix : Text → Text → Bool
has_some_prefix value p =
    let p = trim_space p in not (is_empty p) && has_prefix (to_lower value) (to_lower p)

unfoldable pub has_any_prefix : Text → Text → Bool
unfolding has_some_prefix
has_any_prefix value prefixes = any (has_some_prefix value) (split b',' prefixes)

-- The loop of `leadingColumnsOverlap`, up to the end of the shorter list.
unfoldable pub agree : List Text → List Text → Bool
agree [] b = true
agree (x ∷ a) [] = true
agree (x ∷ a) (y ∷ b) = equal_fold x y && agree a b

unfoldable pub leading_columns_overlap : List Text → List Text → Bool
unfolding agree
leading_columns_overlap a b = if is_empty a || is_empty b then false else agree a b

unfoldable pub mysql_keywords : List Text
mysql_keywords =
    txt "add"
    ∷ txt "alter"
    ∷ txt "and"
    ∷ txt "as"
    ∷ txt "by"
    ∷ txt "create"
    ∷ txt "delete"
    ∷ txt "desc"
    ∷ txt "drop"
    ∷ txt "from"
    ∷ txt "group"
    ∷ txt "index"
    ∷ txt "insert"
    ∷ txt "join"
    ∷ txt "key"
    ∷ txt "limit"
    ∷ txt "order"
    ∷ txt "primary"
    ∷ txt "select"
    ∷ txt "table"
    ∷ txt "tables"
    ∷ txt "update"
    ∷ txt "use"
    ∷ txt "where"
    ∷ []

unfoldable pub is_keyword : Text → Text → Bool
unfolding mysql_keywords
is_keyword name custom =
    let n = to_lower name in
    any (λ k. k == n) mysql_keywords
    || any (λ v. equal_fold (trim_space v) name) (split b',' custom)

-- The characters of `validIdentifier`.
abbrev is_identifier_rune : ℕ → Bool
is_identifier_rune c =
    (leb b'A' c && leb c b'Z')
    || (leb b'a' c && leb c b'z')
    || (leb b'0' c && leb c b'9')
    || c == b'_'

unfoldable pub is_identifier : Text → Bool
is_identifier s = not (is_empty s) && not (any (λ c. not (is_identifier_rune c)) s)

-- The order of `sort.Strings`.
unfoldable pub text_leb : Text → Text → Bool
text_leb [] t = true
text_leb (c ∷ s) [] = false
text_leb (c ∷ s) (d ∷ t) = if c == d then text_leb s t else ltb c d

unfoldable pub insert_sorted : Text → List Text → List Text
unfolding text_leb
insert_sorted s [] = s ∷ []
insert_sorted s (t ∷ rest) =
    let later = insert_sorted s rest in if text_leb s t then s ∷ t ∷ rest else t ∷ later

unfoldable pub sort_strings : List Text → List Text
unfolding insert_sorted
sort_strings [] = []
sort_strings (s ∷ rest) = insert_sorted s (sort_strings rest)
