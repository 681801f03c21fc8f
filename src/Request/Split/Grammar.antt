-- ===== src/Request/Split/Grammar.antt =====
-- The texts of MySQL statements whose strings, quoted names and comments are closed, and in which no
-- semicolon stands outside of them, as a grammar: what `splitSQL` of internal/request/legacy.go has to keep in
-- one piece.
use goinception_plus.Prelude.{ℕ, true, false, [], ◌∷◌, ◌≡◌, ◌≢◌, ◌⊎◌}
use goinception_plus.Strings.{Text, is_space}

-- What the text stands in at its beginning.
pub data Place : Type 0 where
  in_statement in_line in_block : Place
  in_quotes : ℕ → Place

-- A character that begins neither a string nor a comment and ends no statement.
pub record IsPlain (c : ℕ) : Type 0 where
  pub no_semicolon : c ≢ b';'
  pub no_apostrophe : c ≢ b'\''
  pub no_quote : c ≢ b'"'
  pub no_backtick : c ≢ b'`'
  pub no_hash : c ≢ b'#'
  pub no_slash : c ≢ b'/'
  pub no_dash : c ≢ b'-'

abbrev pub IsQuote : ℕ → Type 0
IsQuote q = (q ≡ b'\'') ⊎ ((q ≡ b'"') ⊎ (q ≡ b'`'))

abbrev pub BeginsWith : ℕ → Text → Type 0
BeginsWith c s = (rest : Text) × (s ≡ c ∷ rest)

-- The text from a place to the end of its statement.
pub data Reads : Place → Text → Type 0 where
  done : Reads in_statement []
  character : {c : ℕ} {s : Text} → IsPlain c → Reads in_statement s → Reads in_statement (c ∷ s)
  -- A slash that begins no comment, and one that does.
  slash : {s : Text} → ¬ BeginsWith b'*' s → Reads in_statement s → Reads in_statement (b'/' ∷ s)
  block : {s : Text} → Reads in_block s → Reads in_statement (b'/' ∷ b'*' ∷ s)
  in_comment :
      {c : ℕ} {s : Text}
      → (c ≢ b'*') ⊎ (¬ BeginsWith b'/' s)
      → Reads in_block s
      → Reads in_block (c ∷ s)
  end_block : {s : Text} → Reads in_statement s → Reads in_block (b'*' ∷ b'/' ∷ s)
  -- A comment of a hash, or of two dashes and a space, up to the end of its line.
  hash : {s : Text} → Reads in_line s → Reads in_statement (b'#' ∷ s)
  dashes :
      {c : ℕ} {s : Text}
      → is_space c ≡ true
      → Reads in_line (c ∷ s)
      → Reads in_statement (b'-' ∷ b'-' ∷ c ∷ s)
  in_comment_line : {c : ℕ} {s : Text} → c ≢ b'\n' → Reads in_line s → Reads in_line (c ∷ s)
  end_line : {s : Text} → Reads in_statement s → Reads in_line (b'\n' ∷ s)
  -- Dashes that begin no comment.
  dash : {s : Text} → ¬ BeginsWith b'-' s → Reads in_statement s → Reads in_statement (b'-' ∷ s)
  dash_dash :
      {c : ℕ} {s : Text}
      → is_space c ≡ false
      → Reads in_statement (b'-' ∷ c ∷ s)
      → Reads in_statement (b'-' ∷ b'-' ∷ c ∷ s)
  -- A string or a quoted name; a backslash escapes in strings, and a doubled quote stands for itself.
  open_quotes : {q : ℕ} {s : Text} → IsQuote q → Reads (in_quotes q) s → Reads in_statement (q ∷ s)
  in_string :
      {q c : ℕ} {s : Text}
      → c ≢ q
      → (c ≢ b'\\') ⊎ (q ≡ b'`')
      → Reads (in_quotes q) s
      → Reads (in_quotes q) (c ∷ s)
  escape :
      {q c : ℕ} {s : Text} → q ≢ b'`' → Reads (in_quotes q) s → Reads (in_quotes q) (b'\\' ∷ c ∷ s)
  doubled : {q : ℕ} {s : Text} → q ≢ b'\\' → Reads (in_quotes q) s → Reads (in_quotes q) (q ∷ q ∷ s)
  close_quotes :
      {q : ℕ} {s : Text}
      → q ≢ b'\\'
      → ¬ BeginsWith q s
      → Reads in_statement s
      → Reads (in_quotes q) (q ∷ s)
