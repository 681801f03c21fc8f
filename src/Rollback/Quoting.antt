-- ===== src/Rollback/Quoting.antt =====
-- Readers of identifiers and string literals by MySQL's rules, for the quoting of
-- internal/rollback/generator.go.
use goinception_plus.Prelude.{
  ℕ, [], ◌∷◌, ◌++◌, Option, none, some, if◌then◌else◌, ◌==◌, nat_eq, ◌≡◌, refl, ◌≢◌, arith, ◌∙◌, ap,
  sym, Bool-cases, inl, inr,
}
use mathlib.Core.List.{append_assoc}
use goinception_plus.Strings.{Text, replace_all}
use goinception_plus.Rollback.Literal.{quote_ident, string_literal}

abbrev prepend : ℕ → Option (Text × Text) → Option (Text × Text)
prepend c none = none
prepend c (some (s, rest)) = some (c ∷ s, rest)

-- The text up to the closing quote `q`, in which the quote is doubled, and what follows it.
read_quoted : ℕ → Text → Option (Text × Text)
read_quoted q [] = none
read_quoted q (c ∷ []) = if c == q then some ([], []) else none
read_quoted q (c ∷ d ∷ rest) =
    let closed = some ([], d ∷ rest) in
    let doubled = prepend q (read_quoted q rest) in
    let plain = prepend c (read_quoted q (d ∷ rest)) in
    if c == q then if d == q then doubled else closed else plain

-- Reads an identifier in backticks.
unfoldable pub read_ident : Text → Option (Text × Text)
unfolding read_quoted
read_ident [] = none
read_ident (c ∷ rest) = if c == b'`' then read_quoted b'`' rest else none

-- What follows does not begin with the quote.
abbrev pub StartsOther : ℕ → Text → Type 0
StartsOther q [] = Unit
StartsOther q (c ∷ rest) = c ≢ q

read_quoted_end :
    (q : ℕ) (rest : Text) → StartsOther q rest → read_quoted q (q ∷ rest) ≡ some ([], rest)
unfolding read_quoted
read_quoted_end q [] h = ground arith
read_quoted_end q (c ∷ rest) h = ground arith

read_quoted_plain :
    (q c d : ℕ) (rest : Text)
    → c ≢ q
    → read_quoted q (c ∷ d ∷ rest) ≡ prepend c (read_quoted q (d ∷ rest))
unfolding read_quoted
read_quoted_plain q c d rest h = ground arith

-- A text with its quotes doubled, the closing quote and a rest is not empty.
nonempty :
    (q : ℕ) (s rest : Text)
    → (d : ℕ) × (r : Text) × (replace_all s q (q ∷ q ∷ []) ++ (q ∷ rest) ≡ d ∷ r)
unfolding replace_all
nonempty q [] rest = (q, rest, refl)
nonempty q (c ∷ s) rest = elim (Bool-cases (c == q)) [
  | inl e ↦ (q, q ∷ (replace_all s q (q ∷ q ∷ []) ++ (q ∷ rest)), rw e refl)
  | inr e ↦ (c, replace_all s q (q ∷ q ∷ []) ++ (q ∷ rest), rw e refl)
]

read_quoted-replace_all :
    (q : ℕ) (s rest : Text)
    → StartsOther q rest
    → read_quoted q (replace_all s q (q ∷ q ∷ []) ++ (q ∷ rest)) ≡ some (s, rest)
unfolding read_quoted replace_all
read_quoted-replace_all q [] rest h = read_quoted_end q rest h
read_quoted-replace_all q (c ∷ s) rest h = elim (Bool-cases (c == q)) [
  | inl e ↦ rw (e, read_quoted-replace_all q s rest h) (ground arith)
  | inr e ↦
      let (d, r, shape) = nonempty q s rest in
      rw
        (
          e,
          shape,
          read_quoted_plain q c d r (ground arith),
          ← shape,
          read_quoted-replace_all q s rest h,
        )
        refl
]

-- A quoted name is read back as the name, whatever characters it has.
pub read_ident-quote_ident :
    (v rest : Text) → StartsOther b'`' rest → read_ident (quote_ident v ++ rest) ≡ some (v, rest)
unfolding read_ident quote_ident
read_ident-quote_ident v rest h =
    rw (append_assoc (replace_all v b'`' (b'`' ∷ b'`' ∷ [])) (b'`' ∷ []) rest)
      (read_quoted-replace_all b'`' v rest h)

-- The character that a backslash and `d` stand for in a MySQL string.
escape_meaning : ℕ → ℕ
escape_meaning d =
    if d == b'0'
    then 0
    else if d == b'b'
    then 8
    else if d == b't'
    then 9
    else if d == b'n'
    then 10
    else if d == b'r'
    then 13
    else if d == b'Z'
    then 26
    else d

read_escaped : Text → Option (Text × Text)
unfolding escape_meaning
read_escaped [] = none
read_escaped (c ∷ []) = if c == 39 then some ([], []) else none
read_escaped (c ∷ d ∷ rest) =
    let closed = some ([], d ∷ rest) in
    let doubled = prepend 39 (read_escaped rest) in
    let escaped = prepend (escape_meaning d) (read_escaped rest) in
    let plain = prepend c (read_escaped (d ∷ rest)) in
    if c == 39 then (if d == 39 then doubled else closed) else if c == 92 then escaped else plain

-- Reads a string literal in single quotes, with backslash escapes.
unfoldable pub read_string : Text → Option (Text × Text)
unfolding read_escaped
read_string [] = none
read_string (c ∷ rest) = if c == 39 then read_escaped rest else none

escaped_runes : Text → Text
escaped_runes s = replace_all (replace_all s 92 (92 ∷ 92 ∷ [])) 39 (39 ∷ 39 ∷ [])

read_escaped_end : (rest : Text) → StartsOther 39 rest → read_escaped (39 ∷ rest) ≡ some ([], rest)
unfolding read_escaped
read_escaped_end [] h = refl
read_escaped_end (c ∷ rest) h = ground arith

read_escaped_plain :
    (c d : ℕ) (rest : Text)
    → c ≢ 39
    → c ≢ 92
    → read_escaped (c ∷ d ∷ rest) ≡ prepend c (read_escaped (d ∷ rest))
unfolding read_escaped
read_escaped_plain c d rest h k = ground arith

nonempty_escaped : (s rest : Text) → (d : ℕ) × (r : Text) × (escaped_runes s ++ (39 ∷ rest) ≡ d ∷ r)
unfolding escaped_runes replace_all
nonempty_escaped [] rest = (39, rest, refl)
nonempty_escaped (c ∷ s) rest = elim (Bool-cases (c == 92)) [
  | inl e ↦ (92, 92 ∷ (escaped_runes s ++ (39 ∷ rest)), rw e refl)
  | inr e ↦ elim (Bool-cases (c == 39)) [
    | inl f ↦ (39, 39 ∷ (escaped_runes s ++ (39 ∷ rest)), rw (e, f) refl)
    | inr f ↦ (c, escaped_runes s ++ (39 ∷ rest), rw (e, f) refl)
  ]
]

read_escaped-runes :
    (s rest : Text)
    → StartsOther 39 rest
    → read_escaped (escaped_runes s ++ (39 ∷ rest)) ≡ some (s, rest)
unfolding read_escaped escaped_runes replace_all
read_escaped-runes [] rest h = read_escaped_end rest h
read_escaped-runes (c ∷ s) rest h = elim (Bool-cases (c == 92)) [
  | inl e ↦ rw (e, read_escaped-runes s rest h) (ground arith)
  | inr e ↦ elim (Bool-cases (c == 39)) [
    | inl f ↦ rw (e, f, read_escaped-runes s rest h) (ground arith)
    | inr f ↦
        let (d, r, shape) = nonempty_escaped s rest in
        rw (e, f)
          ((ap (λ x. read_escaped (c ∷ x)) shape
              ∙ read_escaped_plain c d r (ground arith) (ground arith))
            ∙ ap (prepend c) (ap read_escaped (sym shape) ∙ read_escaped-runes s rest h))
  ]
]

-- A string literal is read back as the string, whatever characters it has.
pub read_string-string_literal :
    (s rest : Text) → StartsOther 39 rest → read_string (string_literal s ++ rest) ≡ some (s, rest)
unfolding read_string string_literal escaped_runes
read_string-string_literal s rest h =
    rw (append_assoc (escaped_runes s) (39 ∷ []) rest) (read_escaped-runes s rest h)
