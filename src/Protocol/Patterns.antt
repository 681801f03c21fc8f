-- ===== src/Protocol/Patterns.antt =====
-- internal/protocol/management.go: `like`, `unquote` and `cleanIdent`. Of package regexp, the model has what
-- the pattern of `like` uses: without the flag s, a dot matches no line end.
pub mod Laws
use goinception_plus.Prelude.{
  ℕ, Bool, true, false, not, ◌&&◌, ◌||◌, Option, none, some, List, [], ◌∷◌, ◌++◌, map,
  if◌then◌else◌, ◌==◌, nat_eq,
}
use goinception_plus.Strings.{Text, txt, lower_rune, trim, trim_space}

pub data Atom : Type 0 where
  any_many any_one : Atom
  literal : ℕ → Atom

unfoldable pub atom_of : ℕ → Atom
atom_of r = if r == b'%' then any_many else if r == b'_' then any_one else literal r

-- Some rest of the text passes, behind no line end.
unfoldable pub skips : (Text → Bool) → Text → Bool
skips k [] = k []
skips k (c ∷ s) = let later = skips k s in k (c ∷ s) || (not (c == 10) && later)

unfoldable pub atom_matches : Atom → (Text → Bool) → Text → Bool
unfolding skips
atom_matches any_many k s = skips k s
atom_matches any_one k [] = false
atom_matches any_one k (c ∷ s) = not (c == 10) && k s
atom_matches (literal d) k [] = false
atom_matches (literal d) k (c ∷ s) = lower_rune c == lower_rune d && k s

abbrev pub ends : Text → Bool
ends [] = true
ends (c ∷ s) = false

-- The match of `(?i)^…$`.
unfoldable pub matches : List Atom → Text → Bool
unfolding atom_matches
matches [] = ends
matches (a ∷ rest) = atom_matches a (matches rest)

unfoldable pub like : Text → Text → Bool
unfolding atom_of matches
like value pattern = matches (map atom_of pattern) value

-- `v[1 : len(v)-1]` if the last character is the quote; none otherwise.
unfoldable pub without_last : ℕ → Text → Option Text
without_last q [] = none
without_last q (c ∷ []) = if c == q then some [] else none
without_last q (c ∷ d ∷ s) = elim (without_last q (d ∷ s)) [ none ↦ none | some r ↦ some (c ∷ r) ]

-- `strings.ReplaceAll(v, "''", "'")`
unfoldable pub undouble : Text → Text
undouble [] = []
undouble (c ∷ []) = c ∷ []
undouble (c ∷ d ∷ s) =
    let both = undouble s in
    let one = undouble (d ∷ s) in if c == b'\'' && d == b'\'' then b'\'' ∷ both else c ∷ one

unfoldable pub strip_quotes : Text → Text
unfolding without_last
strip_quotes [] = []
strip_quotes (q ∷ s) = elim (without_last q s) [
  | none ↦ q ∷ s
  | some r ↦ if q == b'\'' || q == b'"' then r else q ∷ s
]

unfoldable pub unquote : Text → Text
unfolding strip_quotes undouble
unquote v = undouble (strip_quotes (trim_space v))

unfoldable pub clean_ident : Text → Text
clean_ident v = trim (trim_space v) (txt "`")
