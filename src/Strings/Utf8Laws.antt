-- ===== src/Strings/Utf8Laws.antt =====
-- The conversions between strings and runes are inverse on the Unicode scalar values.
use goinception_plus.Prelude.{
  ℕ, suc, ◌+◌, ◌-◌, ◌*◌, ◌/◌, ◌%◌, ◌<◌, ◌≤◌, true, false, none, some, List, [], ◌∷◌, ◌++◌, ◌≡◌,
  refl, ap, ◌∙◌, inl, inr, arith, ◌⊎◌, All, ltb, leb, ◌==◌, nat_eq, if◌then◌else◌, Bool-cases,
  le→leb,
}
use goinception_plus.Strings.{Text}
use goinception_plus.Strings.Utf8.{
  encode_rune, encode, lead, first_byte, next_byte, decode_from, decode,
}

-- The Unicode scalar values.
abbrev pub IsScalar : ℕ → Type 0
IsScalar c = (c < 0xD800) ⊎ ((0xE000 ≤ c) × (c < 0x110000))

decode-one :
    (c : ℕ) (rest : List ℕ)
    → ltb c 0x80 ≡ true
    → decode_from none (c ∷ rest) ≡ c ∷ decode_from none rest
unfolding decode_from next_byte first_byte
decode-one c rest low = rw low refl

decode-two :
    (c : ℕ) (rest : List ℕ)
    → ltb c 0x80 ≡ false
    → ltb c 0x800 ≡ true
    → decode_from none ((0xC0 + c / 64) ∷ (0x80 + c % 64) ∷ rest) ≡ c ∷ decode_from none rest
unfolding decode_from next_byte first_byte lead
decode-two c rest low high =
    let a = 0xC0 + c / 64 in
    let b = 0x80 + c % 64 in
    let h1 : ltb a 0x80 ≡ false = ground arith in
    let h2 : ltb a 0xC2 ≡ false = ground arith in
    let h3 : ltb a 0xE0 ≡ true = ground arith in
    let h4 : leb 0x80 b ≡ true = ground arith in
    let h5 : leb b 0xBF ≡ true = ground arith in
    let e : (a - 0xC0) * 64 + (b - 0x80) ≡ c = ground arith in rw (h1, h2, h3, h4, h5, e) refl

-- The last byte of a character, and one before it.
last_byte :
    (read value low high b : ℕ) (rest : List ℕ)
    → low ≤ b
    → b ≤ high
    → decode_from
        (some (record { read = read; left = 1; value = value; low = low; high = high }))
        (b ∷ rest)
      ≡ (value * 64 + (b - 0x80)) ∷ decode_from none rest
unfolding decode_from next_byte
last_byte read value low high b rest h h' = rw (le→leb low b h, le→leb b high h') refl

middle_byte :
    (read left value low high b : ℕ) (rest : List ℕ)
    → low ≤ b
    → b ≤ high
    → decode_from
        (some
          (record { read = read; left = suc (suc left); value = value; low = low; high = high }))
        (b ∷ rest)
      ≡ decode_from
          (some (record {
            read = suc read;
            left = suc left;
            value = value * 64 + (b - 0x80);
            low = 0x80;
            high = 0xBF;
          }))
          rest
unfolding decode_from next_byte
middle_byte read left value low high b rest h h' =
    let more : (suc (suc left) == 1) ≡ false = ground arith in
    let less : suc (suc left) - 1 ≡ suc left = omega arith in
    rw (le→leb low b h, le→leb b high h', more, less) refl

-- The lead byte of three, with the range of the second.
abbrev low_of : ℕ → ℕ
low_of a = if a == 0xE0 then 0xA0 else 0x80

abbrev high_of : ℕ → ℕ
high_of a = if a == 0xE0 then 0xBF else if a == 0xED then 0x9F else 0xBF

first_of_three :
    (a : ℕ) (rest : List ℕ)
    → 0xE0 ≤ a
    → a < 0xF0
    → decode_from none (a ∷ rest)
      ≡ decode_from
          (some (record { read = 1; left = 2; value = a - 0xE0; low = low_of a; high = high_of a }))
          rest
unfolding decode_from next_byte first_byte lead
first_of_three a rest h h' =
    let h1 : ltb a 0x80 ≡ false = ground arith in
    let h2 : ltb a 0xC2 ≡ false = ground arith in
    let h3 : ltb a 0xE0 ≡ false = ground arith in
    let h4 : ltb a 0xF0 ≡ true = ground arith in
    elim (Bool-cases (a == 0xE0)) [
      | inl e ↦ let v : a - 0xE0 ≡ 0 = ground (arith, e) in rw (h1, h2, h3, e, v) refl
      | inr n ↦ elim (Bool-cases (a == 0xED)) [
        | inl e ↦ let v : a - 0xE0 ≡ 13 = ground (arith, e) in rw (h1, h2, h3, n, e, v) refl
        | inr n' ↦ rw (h1, h2, h3, n, n', h4) refl
      ]
    ]

decode-three :
    (c : ℕ) (rest : List ℕ)
    → 0x800 ≤ c
    → c < 0x10000
    → IsScalar c
    → decode_from none ((0xE0 + c / 4096) ∷ (0x80 + c / 64 % 64) ∷ (0x80 + c % 64) ∷ rest)
      ≡ c ∷ decode_from none rest
decode-three c rest h h' scalar =
    let a = 0xE0 + c / 4096 in
    let b = 0x80 + c / 64 % 64 in
    let d = 0x80 + c % 64 in
    let e : ((a - 0xE0) * 64 + (b - 0x80)) * 64 + (d - 0x80) ≡ c = omega arith in
    first_of_three a (b ∷ d ∷ rest) (omega arith) (omega arith)
    ∙ middle_byte 1 0 (a - 0xE0) (low_of a) (high_of a) b (d ∷ rest) (ground arith) (ground arith)
    ∙ last_byte 2 ((a - 0xE0) * 64 + (b - 0x80)) 0x80 0xBF d rest (omega arith) (omega arith)
    ∙ ap (λ n. n ∷ decode_from none rest) e

abbrev low_of_four : ℕ → ℕ
low_of_four a = if a == 0xF0 then 0x90 else 0x80

abbrev high_of_four : ℕ → ℕ
high_of_four a = if a == 0xF4 then 0x8F else 0xBF

first_of_four :
    (a : ℕ) (rest : List ℕ)
    → 0xF0 ≤ a
    → a ≤ 0xF4
    → decode_from none (a ∷ rest)
      ≡ decode_from
          (some (record {
            read = 1;
            left = 3;
            value = a - 0xF0;
            low = low_of_four a;
            high = high_of_four a;
          }))
          rest
unfolding decode_from next_byte first_byte lead
first_of_four a rest h h' =
    let h1 : ltb a 0x80 ≡ false = ground arith in
    let h2 : ltb a 0xC2 ≡ false = ground arith in
    let h3 : ltb a 0xE0 ≡ false = ground arith in
    let h4 : (a == 0xE0) ≡ false = ground arith in
    let h5 : (a == 0xED) ≡ false = ground arith in
    let h6 : ltb a 0xF0 ≡ false = ground arith in
    elim (Bool-cases (a == 0xF0)) [
      | inl e ↦
          let v : a - 0xF0 ≡ 0 = ground (arith, e) in
          let n : (a == 0xF4) ≡ false = ground (arith, e) in
          rw (h1, h2, h3, h4, h5, h6, e, n, v) refl
      | inr n ↦ elim (Bool-cases (a == 0xF4)) [
        | inl e ↦
            let v : a - 0xF0 ≡ 4 = ground (arith, e) in
            let h7 : ltb a 0xF4 ≡ false = ground (arith, e) in
            rw (h1, h2, h3, h4, h5, h6, h7, n, e, v) refl
        | inr n' ↦
            let h7 : ltb a 0xF4 ≡ true = ground (arith, n') in
            rw (h1, h2, h3, h4, h5, h6, h7, n, n') refl
      ]
    ]

decode-four :
    (c : ℕ) (rest : List ℕ)
    → 0x10000 ≤ c
    → c < 0x110000
    → decode_from none (
        (0xF0 + c / 262144)
        ∷ (0x80 + c / 4096 % 64)
        ∷ (0x80 + c / 64 % 64)
        ∷ (0x80 + c % 64)
        ∷ rest)
      ≡ c ∷ decode_from none rest
decode-four c rest h h' =
    let a = 0xF0 + c / 262144 in
    let b = 0x80 + c / 4096 % 64 in
    let d = 0x80 + c / 64 % 64 in
    let f = 0x80 + c % 64 in
    let v = (a - 0xF0) * 64 + (b - 0x80) in
    let e : (v * 64 + (d - 0x80)) * 64 + (f - 0x80) ≡ c = omega arith in
    first_of_four a (b ∷ d ∷ f ∷ rest) (omega arith) (omega arith)
    ∙ middle_byte 1 1 (a - 0xF0) (low_of_four a) (high_of_four a) b (d ∷ f ∷ rest) (ground arith)
        (ground arith)
    ∙ middle_byte 2 0 v 0x80 0xBF d (f ∷ rest) (omega arith) (omega arith)
    ∙ last_byte 3 (v * 64 + (d - 0x80)) 0x80 0xBF f rest (omega arith) (omega arith)
    ∙ ap (λ n. n ∷ decode_from none rest) e

decode-encode_rune :
    (c : ℕ) (rest : List ℕ)
    → IsScalar c
    → decode_from none (encode_rune c ++ rest) ≡ c ∷ decode_from none rest
unfolding encode_rune
decode-encode_rune c rest scalar = elim (Bool-cases (ltb c 0x80)) [
  | inl h ↦ rw h (decode-one c rest h)
  | inr h ↦ elim (Bool-cases (ltb c 0x800)) [
    | inl h' ↦ rw (h, h') (decode-two c rest h h')
    | inr h' ↦ elim (Bool-cases (ltb c 0x10000)) [
      | inl h'' ↦ rw (h, h', h'') (decode-three c rest (ground arith) (ground arith) scalar)
      | inr h'' ↦ rw (h, h', h'') (decode-four c rest (ground arith) (ground arith))
    ]
  ]
]

-- `[]rune(string(runes))` gives the runes back.
pub decode-encode : (s : Text) → All IsScalar s → decode (encode s) ≡ s
unfolding decode encode
decode-encode [] scalars = refl
decode-encode (c ∷ s) (scalar, scalars) =
    decode-encode_rune c (encode s) scalar ∙ ap (λ l. c ∷ l) (decode-encode s scalars)
