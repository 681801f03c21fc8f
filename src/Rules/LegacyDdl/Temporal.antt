-- ===== src/Rules/LegacyDdl/Temporal.antt =====
-- internal/audit/rules/legacy_ddl.go: `invalidTemporalDefault`, with `time.Parse` for its two layouts.
use goinception_plus.Prelude.{
  ℕ, ◌+◌, ◌-◌, ◌*◌, ◌%◌, Bool, true, false, not, ◌&&◌, ◌||◌, Option, none, some, [], ◌∷◌,
  if◌then◌else◌, ◌==◌, nat_eq, text_eq, ltb, leb, is_empty,
}
use goinception_plus.Strings.{
  Text, txt, to_lower, to_upper, trim_left, trim_space, trim, has_prefix, contains,
}

abbrev pub is_digit : ℕ → Bool
is_digit c = leb b'0' c && leb c b'9'

-- Two digits.
abbrev pub pair : ℕ → ℕ → ℕ
pair a b = (a - b'0') * 10 + (b - b'0')

abbrev pub is_leap : ℕ → Bool
is_leap year = year % 4 == 0 && (not (year % 100 == 0) || year % 400 == 0)

unfoldable pub days_in : ℕ → ℕ → ℕ
days_in month year =
    if month == 2
    then if is_leap year then 29 else 28
    else if month == 4 || month == 6 || month == 9 || month == 11
    then 30
    else 31

unfoldable pub is_date : ℕ → ℕ → ℕ → Bool
unfolding days_in
is_date year month day = leb 1 month && leb month 12 && leb 1 day && leb day (days_in month year)

-- What follows a date of the layout 2006-01-02.
unfoldable pub after_date : Text → Option Text
unfolding is_date
after_date (a ∷ b ∷ c ∷ d ∷ e ∷ f ∷ g ∷ h ∷ i ∷ j ∷ rest) =
    if is_digit a
      && is_digit b
      && is_digit c
      && is_digit d
      && e == b'-'
      && is_digit f
      && is_digit g
      && h == b'-'
      && is_digit i
      && is_digit j
      && is_date (pair a b * 100 + pair c d) (pair f g) (pair i j)
    then some rest
    else none
after_date few = none

unfoldable pub all_digits : Text → Bool
all_digits [] = true
all_digits (c ∷ s) = is_digit c && all_digits s

-- Nothing, or a fraction of a second.
unfoldable pub is_fraction : Text → Bool
unfolding all_digits
is_fraction [] = true
is_fraction (p ∷ s) = (p == b'.' || p == b',') && not (is_empty s) && all_digits s

-- The minutes and the seconds, and what follows them.
unfoldable pub is_minutes : Text → Bool
unfolding is_fraction
is_minutes (u ∷ a ∷ b ∷ v ∷ c ∷ d ∷ rest) =
    u == b':'
    && is_digit a
    && is_digit b
    && ltb (pair a b) 60
    && v == b':'
    && is_digit c
    && is_digit d
    && ltb (pair c d) 60
    && is_fraction rest
is_minutes few = false

-- An hour of one or two digits.
unfoldable pub is_clock : Text → Bool
unfolding is_minutes
is_clock [] = false
is_clock (a ∷ []) = false
is_clock (a ∷ b ∷ s) =
    is_digit a && (if is_digit b then ltb (pair a b) 24 && is_minutes s else is_minutes (b ∷ s))

-- The space of the layout stands for any spaces.
unfoldable pub parses : Text → Bool
unfolding after_date is_clock trim_left
parses v = elim (after_date v) [
  | none ↦ false
  | some [] ↦ true
  | some (c ∷ rest) ↦ c == b' ' && is_clock (trim_left (λ d. d == b' ') rest)
]

abbrev pub is_temporal_type : Text → Bool
is_temporal_type v = v == txt "date" || v == txt "datetime" || v == txt "timestamp"

-- The text from the first quote on.
unfoldable pub from_quote : Text → Option Text
from_quote [] = none
from_quote (c ∷ s) = let later = from_quote s in if c == b'\'' then some (c ∷ s) else later

unfoldable pub is_strict : Text → Bool
is_strict sql_mode =
    let mode = to_upper sql_mode in
    contains mode (txt "TRADITIONAL")
    || contains mode (txt "NO_ZERO_DATE")
    || contains mode (txt "STRICT")

unfoldable pub invalid_temporal_default : Text → Text → Bool
unfolding parses from_quote is_strict
invalid_temporal_default expression sql_mode =
    let lowered = trim_space (to_lower expression) in
    let v : Text = elim (from_quote lowered) [ none ↦ lowered | some q ↦ trim q (txt "'") ] in
    if lowered == [] || lowered == txt "null" || contains lowered (txt "current_timestamp")
    then false
    else if has_prefix v (txt "0000-00-00")
    then is_strict sql_mode
    else not (parses v)
