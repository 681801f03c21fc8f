-- ===== src/Strings/Utf8.antt =====
-- Go's conversions between strings, which are bytes, and runes: `[]rune(s)` and `string(runes)`.
use goinception_plus.Prelude.{
  ℕ, zero, suc, ◌+◌, ◌-◌, ◌*◌, ◌/◌, ◌%◌, ◌&&◌, Option, none, some, List, [], ◌∷◌, ◌++◌, ltb, leb,
  if◌then◌else◌, ◌==◌, nat_eq,
}
use goinception_plus.Strings.{Text}

unfoldable pub encode_rune : ℕ → List ℕ
encode_rune c =
    if ltb c 0x80
    then c ∷ []
    else if ltb c 0x800
    then (0xC0 + c / 64) ∷ (0x80 + c % 64) ∷ []
    else if ltb c 0x10000
    then (0xE0 + c / 4096) ∷ (0x80 + c / 64 % 64) ∷ (0x80 + c % 64) ∷ []
    else (0xF0 + c / 262144) ∷ (0x80 + c / 4096 % 64) ∷ (0x80 + c / 64 % 64) ∷ (0x80 + c % 64) ∷ []

-- `string(runes)` for runes that are code points other than surrogates.
unfoldable pub encode : Text → List ℕ
unfolding encode_rune
encode [] = []
encode (c ∷ s) = encode_rune c ++ encode s

-- A character of which `read` bytes are read, with `value` so far: `left` follow, the next from `low` to
-- `high`.
pub record Pending : Type 0 where
  pub read : ℕ
  pub left : ℕ
  pub value : ℕ
  pub low : ℕ
  pub high : ℕ

abbrev pub replacement : ℕ
replacement = 0xFFFD

unfoldable pub lead : ℕ → ℕ → ℕ → ℕ → Text × Option Pending
lead left value low high =
    ([], some (record { read = 1; left = left; value = value; low = low; high = high }))

unfoldable pub first_byte : ℕ → Text × Option Pending
unfolding lead
first_byte b =
    if ltb b 0x80
    then (b ∷ [], none)
    else if ltb b 0xC2
    then (replacement ∷ [], none)
    else if ltb b 0xE0
    then lead 1 (b - 0xC0) 0x80 0xBF
    else if b == 0xE0
    then lead 2 0 0xA0 0xBF
    else if b == 0xED
    then lead 2 13 0x80 0x9F
    else if ltb b 0xF0
    then lead 2 (b - 0xE0) 0x80 0xBF
    else if b == 0xF0
    then lead 3 0 0x90 0xBF
    else if ltb b 0xF4
    then lead 3 (b - 0xF0) 0x80 0xBF
    else if b == 0xF4
    then lead 3 4 0x80 0x8F
    else (replacement ∷ [], none)

-- Each byte of an invalid character is one replacement character.
unfoldable pub replacements : ℕ → Text
replacements zero = []
replacements (suc n) = replacement ∷ replacements n

unfoldable pub next_byte : Option Pending → ℕ → Text × Option Pending
unfolding first_byte replacements
next_byte none b = first_byte b
next_byte (some p) b =
    let value = p.value * 64 + (b - 0x80) in
    if leb p.low b && leb b p.high
    then if p.left == 1 then (value ∷ [], none) else (
      [],
      some
          (record { read = suc p.read; left = p.left - 1; value = value; low = 0x80; high = 0xBF }),
    )
    else (replacements p.read ++ (first_byte b).0, (first_byte b).1)

unfoldable pub decode_from : Option Pending → List ℕ → Text
unfolding next_byte
decode_from none [] = []
decode_from (some p) [] = replacements p.read
decode_from pending (b ∷ rest) =
    let (out, pending') = next_byte pending b in out ++ decode_from pending' rest

-- `[]rune(s)`
unfoldable pub decode : List ℕ → Text
unfolding decode_from
decode = decode_from none
