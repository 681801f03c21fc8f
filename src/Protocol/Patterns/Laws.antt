-- ===== src/Protocol/Patterns/Laws.antt =====
-- internal/protocol/management.go: `like` against the meaning of a LIKE pattern.
use goinception_plus.Prelude.{
  ℕ, ◌<◌, ◌⊎◌, Bool, true, false, not, ◌&&◌, [], ◌∷◌, ◌++◌, map, ◌≡◌, ◌≢◌, ◌↔◌, refl, ap, ◌∙◌, inl,
  inr, All, Bool-cases, ◌==◌, nat_eq, nat_beq_iff, arith,
}
use goinception_plus.Strings.{Text, lower_rune}
use goinception_plus.Protocol.Patterns.{
  Atom, any_many, any_one, literal, atom_of, skips, atom_matches, matches, like,
}

-- What a character of the pattern stands for, before a text that `Rest` is about.
abbrev pub Stands : Atom → (Text → Type 0) → Text → Type 0
Stands any_many Rest s = (t : Text) × (u : Text) × (s ≡ t ++ u) × All (λ c. c ≢ 10) t × Rest u
Stands any_one Rest s = (c : ℕ) × (u : Text) × (s ≡ c ∷ u) × (c ≢ 10) × Rest u
Stands (literal d) Rest s =
    (c : ℕ) × (u : Text) × (s ≡ c ∷ u) × (lower_rune c ≡ lower_rune d) × Rest u

-- What a character of a LIKE pattern stands for: a percent sign for any text without line ends, an underscore
-- for any character but a line end, and another character for itself up to its case.
abbrev pub Meaning : ℕ → (Text → Type 0) → Text → Type 0
Meaning d Rest s =
    ((d ≡ b'%') × ((t : Text) × (u : Text) × (s ≡ t ++ u) × All (λ c. c ≢ 10) t × Rest u))
    ⊎ (((d ≡ b'_') × ((c : ℕ) × (u : Text) × (s ≡ c ∷ u) × (c ≢ 10) × Rest u))
        ⊎ ((d ≢ b'%')
            × (d ≢ b'_')
            × ((c : ℕ) × (u : Text) × (s ≡ c ∷ u) × (lower_rune c ≡ lower_rune d) × Rest u)))

abbrev pub IsLike : Text → Text → Type 0
IsLike value [] = value ≡ []
IsLike value (d ∷ pattern) = Meaning d (λ u. IsLike u pattern) value

abbrev pub IsAscii : Text → Type 0
IsAscii s = All (λ c. c < 128) s

and_parts : (a b : Bool) → (a && b) ≡ true → (a ≡ true) × (b ≡ true)
and_parts true b h = (refl, h)
and_parts false b h = absurd (cc h)

module _ (k : Text → Bool) (Rest : Text → Type 0) (test : (u : Text) → (k u ≡ true) ↔ Rest u) where
  skips-Stands : (s : Text) → skips k s ≡ true → Stands any_many Rest s
  unfolding skips
  skips-Stands [] h = ([], [], refl, tt, (test []).0 h)
  skips-Stands (c ∷ s) h = elim (Bool-cases (k (c ∷ s))) [
    | inl here ↦ ([], c ∷ s, refl, tt, (test (c ∷ s)).0 here)
    | inr later ↦ elim (Bool-cases (c == 10)) [
      | inl newline ↦ absurd (cc (rw (skips, later, newline) at h))
      | inr other ↦
          let (t, u, e, plain, rest) = skips-Stands s (rw (skips, later, other) at h) in
          (c ∷ t, u, ap (λ l. c ∷ l) e, ((λ n. ground (arith, other, n)), plain), rest)
    ]
  ]

  Stands-skips : (t u : Text) → All (λ c. c ≢ 10) t → Rest u → skips k (t ++ u) ≡ true
  unfolding skips
  Stands-skips [] [] plain rest = (test []).1 rest
  Stands-skips [] (c ∷ u) plain rest = rw ((test (c ∷ u)).1 rest) refl
  Stands-skips (c ∷ t) u (other, plain) rest = ground (arith, other, Stands-skips t u plain rest)

  atom_matches_iff : (a : Atom) (s : Text) → (atom_matches a k s ≡ true) ↔ Stands a Rest s
  unfolding atom_matches
  atom_matches_iff any_many s =
      (skips-Stands s, λ (t, u, e, plain, rest). rw e (Stands-skips t u plain rest))
  atom_matches_iff any_one [] = (λ h. absurd (cc h), λ (c, u, e, other, rest). absurd (cc e))
  atom_matches_iff any_one (c ∷ s) = (
    λ h.
        let (other, rest) = and_parts (not (c == 10)) (k s) h in
        (c, s, refl, (λ n. ground (arith, other, n)), (test s).0 rest),
    λ (d, u, e, other, rest).
        let same : c ≡ d = cc e in
        let tail : s ≡ u = cc e in
        let here : not (c == 10) ≡ true = ground (arith, same, other) in
        rw (here, tail) ((test u).1 rest),
  )
  atom_matches_iff (literal d) [] = (λ h. absurd (cc h), λ (c, u, e, other, rest). absurd (cc e))
  atom_matches_iff (literal d) (c ∷ s) = (
    λ h.
        let (same, rest) = and_parts (lower_rune c == lower_rune d) (k s) h in
        (c, s, refl, (nat_beq_iff (lower_rune c) (lower_rune d)).0 same, (test s).0 rest),
    λ (x, u, e, folded, rest).
        let same : c ≡ x = cc e in
        let tail : s ≡ u = cc e in
        let here : (lower_rune c == lower_rune d) ≡ true =
          (nat_beq_iff (lower_rune c) (lower_rune d)).1 (ap lower_rune same ∙ folded) in
        rw (here, tail) ((test u).1 rest),
  )

Stands-Meaning :
    (d : ℕ) (Rest : Text → Type 0) (s : Text) → Stands (atom_of d) Rest s ↔ Meaning d Rest s
unfolding atom_of
Stands-Meaning d Rest s = elim (Bool-cases (d == b'%')) [
  | inl many ↦
      let e : d ≡ b'%' = (nat_beq_iff d b'%').0 many in
      (
        λ h. inl (e, rw (atom_of, many) at h),
        λ h. elim h [
          | inl (same, stands) ↦ rw (atom_of, many) stands
          | inr (inl (one, stands)) ↦ absurd (omega (arith, e, one))
          | inr (inr (other, another, stands)) ↦ absurd (other e)
        ],
      )
  | inr not_many ↦
      let f : d ≢ b'%' = λ e. cc (not_many, (nat_beq_iff d b'%').1 e) in
      elim (Bool-cases (d == b'_')) [
        | inl one ↦
            let e : d ≡ b'_' = (nat_beq_iff d b'_').0 one in
            (
              λ h. inr (inl (e, rw (atom_of, not_many, one) at h)),
              λ h. elim h [
                | inl (many, stands) ↦ absurd (f many)
                | inr (inl (same, stands)) ↦ rw (atom_of, not_many, one) stands
                | inr (inr (other, another, stands)) ↦ absurd (another e)
              ],
            )
        | inr not_one ↦
            let g : d ≢ b'_' = λ e. cc (not_one, (nat_beq_iff d b'_').1 e) in
            (
              λ h. inr (inr (f, g, rw (atom_of, not_many, not_one) at h)),
              λ h. elim h [
                | inl (many, stands) ↦ absurd (f many)
                | inr (inl (one, stands)) ↦ absurd (g one)
                | inr (inr (other, another, stands)) ↦ rw (atom_of, not_many, not_one) stands
              ],
            )
      ]
]

like-Meaning : (value pattern : Text) → (like value pattern ≡ true) ↔ IsLike value pattern
unfolding like matches
like-Meaning [] [] = (λ h. refl, λ h. refl)
like-Meaning (c ∷ value) [] = (λ h. absurd (cc h), λ h. absurd (cc h))
like-Meaning value (d ∷ pattern) =
    let test =
      atom_matches_iff (matches (map atom_of pattern)) (λ u. IsLike u pattern)
        (λ u. like-Meaning u pattern) (atom_of d) value in
    let meant = Stands-Meaning d (λ u. IsLike u pattern) value in
    (λ h. meant.0 (test.0 h), λ h. test.1 (meant.1 h))

-- On ASCII texts, `like` decides whether the value is like the pattern: whether the pattern, read from left to
-- right, covers the value, where a percent sign covers any text without line ends, an underscore any character
-- but a line end, and every other character itself in either case.
pub like_iff :
    (value pattern : Text)
    → IsAscii value
    → IsAscii pattern
    → (like value pattern ≡ true) ↔ IsLike value pattern
like_iff value pattern ascii_value ascii_pattern = like-Meaning value pattern
