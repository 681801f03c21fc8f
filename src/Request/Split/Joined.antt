-- ===== src/Request/Split/Joined.antt =====
-- internal/request/legacy.go: the split of statements that were joined again.
use goinception_plus.Prelude.{
  ℕ, true, false, ◌≢◌, ◌==◌, sym, arith, nat_beq_iff, Option, none, some, List, [], ◌∷◌, ◌++◌, ◌≡◌,
  refl, ap, ◌∙◌, if◌then◌else◌, nat_eq, is_empty, inl, inr, Bool-cases, All, append_assoc,
  append-nil,
}
use goinception_plus.Strings.{Text, txt, is_space, trim_left, trim_space, join}
use goinception_plus.Audit.Types.{ok}
use goinception_plus.Request.Split.Grammar.{
  Place, in_statement, in_line, in_block, in_quotes, IsPlain, IsQuote, BeginsWith, Reads, done,
  character, slash, block, in_comment, end_block, hash, dashes, in_comment_line, end_line, dash,
  dash_dash, open_quotes, in_string, escape, doubled, close_quotes,
}
use goinception_plus.Request.Split.{
  Mode, plain, line_comment, block_comment, quoted, escaped, skipping, next_is, ends_or_space,
  plain_step, step, is_cut, prepend_part, split_from, split_sql,
}

-- The mode after a text that `after` follows; none if a semicolon of it is a cut.
unfoldable pub through : Mode → Text → Text → Option Mode
unfolding step is_cut
through m [] after = some m
through m (r ∷ s) after =
    let later = through (step m r (s ++ after)) s after in if is_cut m r then none else later

-- The mode of the scanner at a place of the grammar.
abbrev mode_of : Place → Mode
mode_of in_statement = plain
mode_of in_line = line_comment
mode_of in_block = block_comment
mode_of (in_quotes q) = quoted q

-- Quotes are no semicolons, so that what follows a statement closes none.
abbrev IsMode : Place → Type 0
IsMode (in_quotes q) = IsQuote q
IsMode place = Unit

differs : (c d : ℕ) → c ≢ d → (c == d) ≡ false
differs c d h = elim (Bool-cases (c == d)) [
  | inl e ↦ absurd (h ((nat_beq_iff c d).0 e))
  | inr n ↦ n
]

next_is-BeginsWith :
    (c : ℕ) (s : Text) → c ≢ b';' → ¬ BeginsWith c s → next_is c (s ++ (b';' ∷ [])) ≡ false
unfolding next_is
next_is-BeginsWith c [] h none_here = differs b';' c (λ e. h (sym e))
next_is-BeginsWith c (d ∷ s) h none_here = differs d c (λ e. none_here (s, ap (λ x. x ∷ s) e))

quote_no_semicolon : (q : ℕ) → IsQuote q → q ≢ b';'
quote_no_semicolon q (inl e) = λ h. omega (arith, e, h)
quote_no_semicolon q (inr (inl e)) = λ h. omega (arith, e, h)
quote_no_semicolon q (inr (inr e)) = λ h. omega (arith, e, h)

plain_step-IsPlain : (c : ℕ) (rest : Text) → IsPlain c → plain_step c rest ≡ plain
unfolding plain_step
plain_step-IsPlain c rest p =
    rw
      (
        plain_step,
        differs c b'/' p.no_slash,
        differs c b'#' p.no_hash,
        differs c b'-' p.no_dash,
        differs c b'\'' p.no_apostrophe,
        differs c b'"' p.no_quote,
        differs c b'`' p.no_backtick,
      )
      refl

plain_step-IsQuote : (q : ℕ) (rest : Text) → IsQuote q → plain_step q rest ≡ quoted q
unfolding plain_step
plain_step-IsQuote q rest (inl e) = rw e refl
plain_step-IsQuote q rest (inr (inl e)) = rw e refl
plain_step-IsQuote q rest (inr (inr e)) = rw e refl

same : (q : ℕ) → (q == q) ≡ true
same q = (nat_beq_iff q q).1 refl

through-Reads :
    (place : Place) (s : Text)
    → IsMode place
    → Reads place s
    → through (mode_of place) s (b';' ∷ []) ≡ some plain
unfolding through step is_cut plain_step next_is ends_or_space
through-Reads _ _ valid done = refl
through-Reads _ _ valid (character {c} {s} p reads) =
    rw (differs c b';' p.no_semicolon, plain_step-IsPlain c (s ++ (b';' ∷ [])) p)
      (through-Reads in_statement s tt reads)
through-Reads _ _ valid (slash {s} single reads) =
    rw (next_is-BeginsWith b'*' s (λ e. omega (arith, e)) single)
      (through-Reads in_statement s tt reads)
through-Reads _ _ valid (block {s} reads) = through-Reads in_block s tt reads
through-Reads _ _ valid (in_comment {c} {s} (inl other) reads) =
    rw (differs c b'*' other) (through-Reads in_block s tt reads)
through-Reads _ _ valid (in_comment {c} {s} (inr single) reads) = elim (Bool-cases (c == b'*')) [
  | inl star ↦
      rw (star, next_is-BeginsWith b'/' s (λ e. omega (arith, e)) single)
        (through-Reads in_block s tt reads)
  | inr other ↦ rw other (through-Reads in_block s tt reads)
]
through-Reads _ _ valid (end_block {s} reads) = through-Reads in_statement s tt reads
through-Reads _ _ valid (hash {s} reads) = through-Reads in_line s tt reads
through-Reads _ _ valid (dashes {c} {s} space reads) =
    rw space (through-Reads in_line (c ∷ s) tt reads)
through-Reads _ _ valid (in_comment_line {c} {s} other reads) =
    rw (differs c b'\n' other) (through-Reads in_line s tt reads)
through-Reads _ _ valid (end_line {s} reads) = through-Reads in_statement s tt reads
through-Reads _ _ valid (dash {s} single reads) =
    rw (next_is-BeginsWith b'-' s (λ e. omega (arith, e)) single)
      (through-Reads in_statement s tt reads)
through-Reads _ _ valid (dash_dash {c} {s} no_space reads) =
    rw no_space (through-Reads in_statement (b'-' ∷ c ∷ s) tt reads)
through-Reads _ _ valid (open_quotes {q} {s} quote reads) =
    rw (differs q b';' (quote_no_semicolon q quote), plain_step-IsQuote q (s ++ (b';' ∷ [])) quote)
      (through-Reads (in_quotes q) s quote reads)
through-Reads _ _ valid (in_string {q} {c} {s} other (inl no_escape) reads) =
    rw (differs c b'\\' no_escape, differs c q other) (through-Reads (in_quotes q) s valid reads)
through-Reads _ _ valid (in_string {q} {c} {s} other (inr name) reads) =
    elim (Bool-cases (c == b'\\')) [
      | inl backslash ↦
          rw (backslash, (nat_beq_iff q b'`').1 name, differs c q other)
            (through-Reads (in_quotes q) s valid reads)
      | inr no_escape ↦
          rw (no_escape, differs c q other) (through-Reads (in_quotes q) s valid reads)
    ]
through-Reads _ _ valid (escape {q} {c} {s} string reads) =
    rw (differs q b'`' string) (through-Reads (in_quotes q) s valid reads)
through-Reads _ _ valid (doubled {q} {s} no_escape reads) =
    rw (differs q b'\\' no_escape, same q) (through-Reads (in_quotes q) s valid reads)
through-Reads _ _ valid (close_quotes {q} {s} no_escape single reads) =
    rw
      (
        differs q b'\\' no_escape,
        same q,
        next_is-BeginsWith q s (quote_no_semicolon q valid) single,
      )
      (through-Reads in_statement s tt reads)

-- A statement of the grammar that trimming keeps and that is not empty.
pub record IsWhole (s : Text) : Type 0 where
  pub reads : Reads in_statement s
  pub trimmed : trim_space s ≡ s
  pub nonempty : is_empty s ≡ false

-- A step reads at most two characters ahead, and a semicolon decides what follows it.
plain_step_local :
    (r : ℕ) (s x y : Text) → plain_step r (s ++ (b';' ∷ x)) ≡ plain_step r (s ++ (b';' ∷ y))
unfolding plain_step next_is ends_or_space
plain_step_local r [] x y = refl
plain_step_local r (c ∷ []) x y = refl
plain_step_local r (c ∷ d ∷ s) x y = refl

next_is_local : (c : ℕ) (s x y : Text) → next_is c (s ++ (b';' ∷ x)) ≡ next_is c (s ++ (b';' ∷ y))
unfolding next_is
next_is_local c [] x y = refl
next_is_local c (d ∷ s) x y = refl

step_local :
    (m : Mode) (r : ℕ) (s x y : Text) → step m r (s ++ (b';' ∷ x)) ≡ step m r (s ++ (b';' ∷ y))
unfolding step
step_local plain r s x y = plain_step_local r s x y
step_local line_comment r s x y = refl
step_local block_comment r s x y = rw (next_is_local b'/' s x y) refl
step_local (quoted q) r s x y = rw (next_is_local q s x y) refl
step_local (escaped q) r s x y = refl
step_local (skipping m) r s x y = refl

through_local : (m : Mode) (s x y : Text) → through m s (b';' ∷ x) ≡ through m s (b';' ∷ y)
unfolding through
through_local m [] x y = refl
through_local m (r ∷ s) x y =
    rw (step_local m r s x y, through_local (step m r (s ++ (b';' ∷ y))) s x y) refl

some_value : {m m' : Mode} → some m ≡ some m' → m ≡ m'
some_value e = cc e

-- The scanner goes through a text in which no semicolon is a cut.
split_from-through :
    (m m' : Mode) (part s after : Text)
    → through m s after ≡ some m'
    → split_from m part (s ++ after) ≡ split_from m' (part ++ s) after
unfolding through split_from
split_from-through m m' part [] after h =
    rw (append-nil part) (ap (λ n. split_from n part after) (some_value h))
split_from-through m m' part (r ∷ s) after h = elim (Bool-cases (is_cut m r)) [
  | inl cut ↦ absurd (cc (rw (through, cut) at h))
  | inr uncut ↦
      rw (split_from, uncut)
        (split_from-through (step m r (s ++ after)) m' (part ++ (r ∷ [])) s after
            (rw (through, uncut) at h)
          ∙ ap (λ p. split_from m' p after) (append_assoc part (r ∷ []) s))
]

trim_space-newline : (s : Text) → trim_space ((b'\n' ∷ []) ++ s) ≡ trim_space s
unfolding trim_space trim_left is_space
trim_space-newline s = refl

nothing_left : prepend_part [] [] ≡ []
unfolding prepend_part trim_space
nothing_left = refl

-- What a joined list of statements reads as after blanks that trimming drops.
split_from_joined :
    (pre p : Text) (ps : List Text)
    → ((s : Text) → trim_space (pre ++ s) ≡ trim_space s)
    → All IsWhole (p ∷ ps)
    → split_from plain pre (join (p ∷ ps) (txt ";\n") ++ txt ";") ≡ ok (p ∷ ps)
unfolding join split_from step is_cut
split_from_joined pre p [] blank (whole, others) =
    split_from-through plain plain pre p (txt ";") (through-Reads in_statement p tt whole.reads)
    ∙ rw (prepend_part, blank p, whole.trimmed, whole.nonempty, nothing_left) refl
split_from_joined pre p (q ∷ qs) blank (whole, others) =
    let more = join (q ∷ qs) (txt ";\n") ++ txt ";" in
    let rest : split_from plain (b'\n' ∷ []) more ≡ ok (q ∷ qs) =
      split_from_joined (b'\n' ∷ []) q qs (λ s. trim_space-newline s) others in
    let through_p : through plain p (b';' ∷ b'\n' ∷ more) ≡ some plain =
      through_local plain p (b'\n' ∷ more) [] ∙ through-Reads in_statement p tt whole.reads in
    ap (λ l. split_from plain pre l)
      (append_assoc p (b';' ∷ b'\n' ∷ join (q ∷ qs) (txt ";\n")) (txt ";"))
    ∙ split_from-through plain plain pre p (b';' ∷ b'\n' ∷ more) through_p
    ∙ rw (split_from, rest, prepend_part, blank p, whole.trimmed, whole.nonempty) refl

-- Statements of the grammar, trimmed and not empty, are split again into the same list, once they are joined
-- as `ParseLegacyEnvelope` joins them: no semicolon in their strings, quoted names and comments cuts them.
pub split_sql-join :
    (parts : List Text)
    → All IsWhole parts
    → split_sql (join parts (txt ";\n") ++ txt ";") ≡ ok parts
unfolding split_sql split_from step is_cut join
split_sql-join [] whole = rw (nothing_left, nothing_left) refl
split_sql-join (p ∷ ps) whole = split_from_joined [] p ps (λ s. refl) whole
