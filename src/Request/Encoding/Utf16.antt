-- ===== src/Request/Encoding/Utf16.antt =====
-- internal/request/legacy.go: input in UTF-16 is read like the same text in UTF-8.
use goinception_plus.Prelude.{
  ℕ, ◌+◌, ◌-◌, ◌*◌, ◌/◌, ◌%◌, ◌<◌, Bool, true, false, none, some, List, [], ◌∷◌, ◌++◌, ◌≡◌, refl,
  ap, ◌∙◌, inl, inr, arith, All, length, ltb, if◌then◌else◌, Bool-cases,
}
use goinception_plus.Strings.{Text}
use goinception_plus.Strings.Utf8.{encode, decode}
use goinception_plus.Strings.Utf8Laws.{IsScalar, decode-encode}
use goinception_plus.Request.Encoding.{
  is_high, is_low, strip_marks, detect, units, next_unit, decode_units, normalize_console_encoding,
}

unfoldable pub rune_units : ℕ → List ℕ
rune_units c =
    if ltb c 0x10000
    then c ∷ []
    else (0xD800 + (c - 0x10000) / 0x400) ∷ (0xDC00 + (c - 0x10000) % 0x400) ∷ []

unfoldable pub unit_bytes : Bool → List ℕ → List ℕ
unit_bytes big [] = []
unit_bytes big (u ∷ rest) =
    let later = unit_bytes big rest in
    if big then u / 256 ∷ u % 256 ∷ later else u % 256 ∷ u / 256 ∷ later

unfoldable pub text_units : Text → List ℕ
text_units [] = []
text_units (c ∷ s) = rune_units c ++ text_units s

-- UTF-16 with its byte order mark.
unfoldable pub utf16 : Bool → Text → List ℕ
unfolding unit_bytes text_units rune_units
utf16 big s =
    let body = unit_bytes big (text_units s) in
    if big then 0xFE ∷ 0xFF ∷ body else 0xFF ∷ 0xFE ∷ body

units-unit_bytes : (big : Bool) (l : List ℕ) → units big (unit_bytes big l) ≡ l
unfolding units unit_bytes
units-unit_bytes big [] = refl
units-unit_bytes true (u ∷ rest) =
    let e : u / 256 * 256 + u % 256 ≡ u = omega arith in rw (e, units-unit_bytes true rest) refl
units-unit_bytes false (u ∷ rest) =
    let e : u / 256 * 256 + u % 256 ≡ u = omega arith in rw (e, units-unit_bytes false rest) refl

even_bytes : (big : Bool) (l : List ℕ) → length (unit_bytes big l) % 2 ≡ 0
unfolding unit_bytes
even_bytes big [] = refl
even_bytes true (u ∷ rest) = omega (arith, even_bytes true rest)
even_bytes false (u ∷ rest) = omega (arith, even_bytes false rest)

decode_rune :
    (c : ℕ) (rest : List ℕ)
    → IsScalar c
    → decode_units none (rune_units c ++ rest) ≡ c ∷ decode_units none rest
unfolding decode_units rune_units next_unit
decode_rune c rest scalar = elim (Bool-cases (ltb c 0x10000)) [
  | inl small ↦
      let high : is_high c ≡ false = ground arith in
      let low : is_low c ≡ false = ground arith in rw (small, next_unit, high, low) refl
  | inr large ↦
      let d = c - 0x10000 in
      let bound : c < 0x110000 = ground arith in
      let high : is_high (0xD800 + d / 0x400) ≡ true = ground arith in
      let low : is_low (0xDC00 + d % 0x400) ≡ true = ground arith in
      let e : (0xD800 + d / 0x400 - 0xD800) * 0x400 + (0xDC00 + d % 0x400 - 0xDC00) + 0x10000 ≡ c =
        ground arith in
      rw (large, next_unit, high, low, e) refl
]

decode-text_units : (s : Text) → All IsScalar s → decode_units none (text_units s) ≡ s
unfolding text_units decode_units
decode-text_units [] scalars = refl
decode-text_units (c ∷ s) (scalar, scalars) =
    decode_rune c (text_units s) scalar ∙ ap (λ l. c ∷ l) (decode-text_units s scalars)

unmarked :
    (big : Bool) (body : List ℕ)
    → strip_marks (if big then 0xFE ∷ 0xFF ∷ body else 0xFF ∷ 0xFE ∷ body)
      ≡ (if big then 0xFE ∷ 0xFF ∷ body else 0xFF ∷ 0xFE ∷ body)
unfolding strip_marks
unmarked true [] = refl
unmarked false [] = refl
unmarked true (b ∷ body) = refl
unmarked false (b ∷ body) = refl

strip_marks-utf16 : (big : Bool) (s : Text) → strip_marks (utf16 big s) ≡ utf16 big s
unfolding utf16
strip_marks-utf16 big s = unmarked big (unit_bytes big (text_units s))

detect-utf16 :
    (big : Bool) (s : Text) → detect (utf16 big s) ≡ some (big, unit_bytes big (text_units s))
unfolding utf16 detect
detect-utf16 true s = refl
detect-utf16 false s = refl

-- A text in UTF-16, of either byte order and with its byte order mark, is normalised to the same text in
-- UTF-8, of which the runes are the text.
pub normalize-utf16 :
    (big : Bool) (s : Text)
    → All IsScalar s
    → (normalize_console_encoding (utf16 big s) ≡ encode s)
      × (decode (normalize_console_encoding (utf16 big s)) ≡ s)
unfolding normalize_console_encoding
normalize-utf16 big s scalars =
    let same : normalize_console_encoding (utf16 big s) ≡ encode s =
      rw
        (
          normalize_console_encoding,
          strip_marks-utf16 big s,
          detect-utf16 big s,
          even_bytes big (text_units s),
          units-unit_bytes big (text_units s),
          decode-text_units s scalars,
        )
        refl in
    (same, ap decode same ∙ decode-encode s scalars)
