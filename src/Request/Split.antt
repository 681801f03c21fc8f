-- ===== src/Request/Split.antt =====
-- internal/request/legacy.go: `splitSQL`, the split of a request at the semicolons that stand in no
-- quotes and no comment.
pub mod Grammar
pub mod Joined
use goinception_plus.Prelude.{
  ℕ, Bool, true, false, not, ◌&&◌, ◌||◌, Option, none, some, List, [], ◌∷◌, ◌++◌, if◌then◌else◌,
  ◌==◌, nat_eq, is_empty,
}
use goinception_plus.Strings.{Text, txt, is_space, trim_space}
use goinception_plus.Audit.Types.{Error, failure, Result, ok, err, ◌>>=◌}

-- Where the scanner is: in a string whose last character is a backslash it is `escaped`; `skipping` takes
-- one character as it is, where the loop's counter has an extra step.
pub data Mode : Type 0 where
  plain line_comment block_comment : Mode
  quoted escaped : ℕ → Mode
  skipping : Mode → Mode

-- `next == c`
unfoldable pub next_is : ℕ → Text → Bool
next_is c [] = false
next_is c (d ∷ rest) = d == c

-- What must follow two dashes that begin a comment.
unfoldable pub ends_or_space : Text → Bool
unfolding is_space
ends_or_space [] = true
ends_or_space (d ∷ []) = true
ends_or_space (d ∷ c ∷ rest) = is_space c

unfoldable pub plain_step : ℕ → Text → Mode
unfolding next_is ends_or_space
plain_step r rest =
    if r == b'/' && next_is b'*' rest
    then skipping block_comment
    else if r == b'#'
    then line_comment
    else if r == b'-' && (next_is b'-' rest && ends_or_space rest)
    then skipping line_comment
    else if r == b'\'' || (r == b'"' || r == b'`')
    then quoted r
    else plain

-- The mode after a character, from the characters that follow it.
unfoldable pub step : Mode → ℕ → Text → Mode
unfolding next_is plain_step
step line_comment r rest = if r == b'\n' then plain else line_comment
step block_comment r rest = if r == b'*' && next_is b'/' rest then skipping plain else block_comment
step (quoted q) r rest =
    if r == b'\\' && not (q == b'`')
    then escaped q
    else if r == q
    then if next_is q rest then skipping (quoted q) else plain
    else quoted q
step (escaped q) r rest = quoted q
step (skipping m) r rest = m
step plain r rest = plain_step r rest

unfoldable pub is_cut : Mode → ℕ → Bool
is_cut plain r = r == b';'
is_cut m r = false

unfoldable pub is_unterminated : Mode → Bool
is_unterminated block_comment = true
is_unterminated (quoted q) = true
is_unterminated (escaped q) = true
is_unterminated (skipping m) = is_unterminated m
is_unterminated m = false

-- The text up to a semicolon, unless it is blank.
unfoldable pub prepend_part : Text → List Text → List Text
prepend_part part parts =
    let trimmed = trim_space part in if is_empty trimmed then parts else trimmed ∷ parts

-- `part` are the characters since the last semicolon.
unfoldable pub split_from : Mode → Text → Text → Result (List Text)
unfolding step is_cut is_unterminated prepend_part
split_from m part [] =
    if is_unterminated m
    then err (failure (txt "unterminated quoted string or comment"))
    else ok (prepend_part part [])
split_from m part (r ∷ rest) =
    let cut = is_cut m r in
    let later =
      split_from (if cut then plain else step m r rest) (if cut then [] else part ++ (r ∷ []))
        rest in
    if cut then (later >>= λ parts. ok (prepend_part part parts)) else later

unfoldable pub split_sql : Text → Result (List Text)
unfolding split_from
split_sql input = split_from plain [] input
