-- ===== src/Request/Encoding.antt =====
-- internal/request/legacy.go: `normalizeConsoleEncoding`, on the bytes of the input.
pub mod Utf16
use goinception_plus.Prelude.{
  ℕ, ◌+◌, ◌-◌, ◌*◌, ◌%◌, Bool, true, false, not, ◌&&◌, ◌||◌, Option, none, some, List, [], ◌∷◌,
  ◌++◌, length, ltb, leb, if◌then◌else◌, ◌==◌, nat_eq,
}
use goinception_plus.Strings.{Text}
use goinception_plus.Strings.Utf8.{encode, replacement}

-- The byte order marks of UTF-8.
unfoldable pub strip_marks : List ℕ → List ℕ
strip_marks (a ∷ b ∷ c ∷ rest) =
    let later = strip_marks rest in
    if a == 0xEF && b == 0xBB && c == 0xBF then later else a ∷ b ∷ c ∷ rest
strip_marks few = few

-- Whether the input is UTF-16 without a mark: with the order of the bytes, big endian or not.
unfoldable pub guess : List ℕ → Option (Bool × List ℕ)
guess (a ∷ b ∷ c ∷ d ∷ rest) =
    let big = a == 0 && c == 0 in
    if (b == 0 && d == 0) || big then some (big, a ∷ b ∷ c ∷ d ∷ rest) else none
guess few = none

unfoldable pub detect : List ℕ → Option (Bool × List ℕ)
unfolding guess
detect (a ∷ b ∷ rest) =
    if a == 0xFF && b == 0xFE
    then some (false, rest)
    else if a == 0xFE && b == 0xFF
    then some (true, rest)
    else guess (a ∷ b ∷ rest)
detect few = none

-- The code units of an even number of bytes.
unfoldable pub units : Bool → List ℕ → List ℕ
units big (a ∷ b ∷ rest) = (if big then a * 256 + b else b * 256 + a) ∷ units big rest
units big few = []

abbrev pub is_high : ℕ → Bool
is_high u = leb 0xD800 u && ltb u 0xDC00

abbrev pub is_low : ℕ → Bool
is_low u = leb 0xDC00 u && ltb u 0xE000

-- What a code unit adds, after a high surrogate or not: characters, and the surrogate that waits.
unfoldable pub next_unit : Option ℕ → ℕ → Text × Option ℕ
next_unit none u =
    if is_high u
    then ([], some u)
    else if is_low u
    then (replacement ∷ [], none)
    else (u ∷ [], none)
next_unit (some h) u =
    if is_low u
    then (((h - 0xD800) * 0x400 + (u - 0xDC00) + 0x10000) ∷ [], none)
    else if is_high u
    then (replacement ∷ [], some u)
    else (replacement ∷ u ∷ [], none)

-- `utf16.Decode`
unfoldable pub decode_units : Option ℕ → List ℕ → Text
unfolding next_unit
decode_units none [] = []
decode_units (some h) [] = replacement ∷ []
decode_units waiting (u ∷ rest) =
    let (out, waiting') = next_unit waiting u in out ++ decode_units waiting' rest

unfoldable pub normalize_console_encoding : List ℕ → List ℕ
unfolding strip_marks detect units decode_units
normalize_console_encoding input =
    let b = strip_marks input in
    elim (detect b) [
      | none ↦ b
      | some (big, body) ↦
          if not (length body % 2 == 0) then input else encode (decode_units none (units big body))
    ]
