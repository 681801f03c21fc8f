-- ===== src/Config/Levels/Laws.antt =====
-- internal/config/runtime.go: what setting a level makes of the policy of the audit.
use goinception_plus.Prelude.{
  ℕ, Bool, true, false, not, ◌&&◌, ◌||◌, Option, none, some, List, [], ◌∷◌, ◌++◌, ◌≡◌, refl, ap,
  sym, ◌∙◌, inl, inr, arith, Bool-cases, Option-cases, if◌then◌else◌, ◌==◌, text_eq, text_beq_iff,
  any, ltb, beq_refl,
}
use goinception_plus.Prelude.Int.{pos}
use goinception_plus.Strings.{Text}
use goinception_plus.Strings.Dict.{lookup}
use goinception_plus.Model.{Severity}
use goinception_plus.Audit.Types.{ok}
use goinception_plus.Audit.Catalog.{rule_by_code}
use goinception_plus.Audit.Policy.{Policy, level}
use goinception_plus.Config.Levels.{
  level_names, legacy_level_rule, LevelSettings, code_name, level_name, is_code, with_rule,
  with_level, set_named, set_level, severity, level_of, legacy_levels, rule_overrides, policy_of,
}

-- No name and no code stands twice in the table.
unfoldable is_table : List (Text × Text) → Bool
unfolding any
is_table [] = true
is_table ((name, code) ∷ rest) =
    not (any (λ (e : Text × Text). e.0 == name) rest)
    && (not (any (λ (e : Text × Text). e.1 == code) rest) && is_table rest)

legacy_level_rule-is_table : is_table legacy_level_rule ≡ true
unfolding is_table legacy_level_rule goinception_plus.Prelude.text_beq
legacy_level_rule-is_table = refl

abbrev or_else {ℓ} : {A : Type ℓ} → Option A → Option A → Option A
or_else none b = b
or_else (some a) b = some a

lookup-append {ℓ} :
    {A : Type ℓ} (k : Text) (l more : List (Text × A))
    → lookup k (l ++ more) ≡ or_else (lookup k l) (lookup k more)
unfolding lookup
lookup-append k [] more = refl
lookup-append k ((n, v) ∷ l) more = elim (Bool-cases (n == k)) [
  | inl e ↦ rw e refl
  | inr e ↦ rw e (lookup-append k l more)
]

beq_comm : (s t : Text) → (s == t) ≡ (t == s)
beq_comm s t = elim (Bool-cases (s == t)) [
  | inl e ↦ e ∙ sym ((text_beq_iff t s).1 (sym ((text_beq_iff s t).0 e)))
  | inr n ↦ elim (Bool-cases (t == s)) [
    | inl e ↦ absurd (cc (n, (text_beq_iff s t).1 (sym ((text_beq_iff t s).0 e))))
    | inr n' ↦ n ∙ sym n'
  ]
]

or_parts : (a b : Bool) → (a || b) ≡ false → (a ≡ false) × (b ≡ false)
or_parts true b h = absurd (cc h)
or_parts false b h = (refl, h)

and_not_parts : (a b : Bool) → (not a && b) ≡ true → (a ≡ false) × (b ≡ true)
and_not_parts true b h = absurd (cc h)
and_not_parts false b h = (refl, h)

-- The code of a name in the table is that of no other entry.
lookup_code :
    (name c d : Text) (table : List (Text × Text))
    → lookup name table ≡ some c
    → any (λ (e : Text × Text). e.1 == d) table ≡ false
    → (d == c) ≡ false
unfolding lookup any
lookup_code name c d [] found fresh = absurd (cc found)
lookup_code name c d ((m, e) ∷ table) found fresh =
    let (other, later) = or_parts (e == d) (any (λ (x : Text × Text). x.1 == d) table) fresh in
    elim (Bool-cases (m == name)) [
      | inl here ↦
          let same : e ≡ c = cc (rw (lookup, here) at found) in
          beq_comm d c ∙ ap (λ x. x == d) (sym same) ∙ other
      | inr there ↦ lookup_code name c d table (rw (lookup, there) at found) later
    ]

level_of_same :
    (name m : Text) (v : ℕ) (inc : List (Text × ℕ))
    → (m == name) ≡ true
    → level_of ((name, v) ∷ inc) m ≡ v
unfolding level_of lookup
level_of_same name m v inc e = rw (level_of, lookup, beq_comm name m, e) refl

level_of_other :
    (name m : Text) (v : ℕ) (inc : List (Text × ℕ))
    → (m == name) ≡ false
    → level_of ((name, v) ∷ inc) m ≡ level_of inc m
unfolding level_of lookup
level_of_other name m v inc e = rw (level_of, lookup, beq_comm name m, e) refl

-- A name that is not in the table changes none of its levels.
legacy_levels_other :
    (name : Text) (v : ℕ) (inc : List (Text × ℕ)) (table : List (Text × Text))
    → any (λ (e : Text × Text). e.0 == name) table ≡ false
    → legacy_levels ((name, v) ∷ inc) table ≡ legacy_levels inc table
unfolding legacy_levels any lookup
legacy_levels_other name v inc [] fresh = refl
legacy_levels_other name v inc ((m, d) ∷ table) fresh =
    let (other, later) =
      or_parts (m == name) (any (λ (x : Text × Text). x.0 == name) table) fresh in
    rw (level_of_other name m v inc other, legacy_levels_other name v inc table later) refl

lookup-legacy_levels :
    (name c code : Text) (v : ℕ) (inc : List (Text × ℕ)) (table : List (Text × Text))
    → is_table table ≡ true
    → lookup name table ≡ some c
    → lookup code (legacy_levels ((name, v) ∷ inc) table)
      ≡ (if c == code then some (severity v) else lookup code (legacy_levels inc table))
unfolding is_table lookup legacy_levels
lookup-legacy_levels name c code v inc [] ok_table found = absurd (cc found)
lookup-legacy_levels name c code v inc ((m, d) ∷ table) ok_table found =
    let (new_name, later) =
      and_not_parts (any (λ (x : Text × Text). x.0 == m) table)
        (not (any (λ (x : Text × Text). x.1 == d) table) && is_table table) ok_table in
    let (new_code, valid) =
      and_not_parts (any (λ (x : Text × Text). x.1 == d) table) (is_table table) later in
    elim (Bool-cases (m == name)) [
      | inl here ↦
          let same : d ≡ c = cc (rw (lookup, here) at found) in
          let e : m ≡ name = (text_beq_iff m name).0 here in
          let absent : any (λ (x : Text × Text). x.0 == name) table ≡ false =
            ap (λ n. any (λ (x : Text × Text). x.0 == n) table) (sym e) ∙ new_name in
          elim (Bool-cases (d == code)) [
            | inl match ↦ rw (level_of_same name m v inc here, match, ← same, match) refl
            | inr other ↦
                rw
                  (
                    level_of_same name m v inc here,
                    ← same,
                    other,
                    legacy_levels_other name v inc table absent,
                  )
                  refl
          ]
      | inr there ↦
          let found' : lookup name table ≡ some c = rw (lookup, there) at found in
          elim (Bool-cases (d == code)) [
            | inl match ↦
                let apart : (c == code) ≡ false =
                  ap (λ x. c == x) (sym ((text_beq_iff d code).0 match))
                  ∙ beq_comm c d
                  ∙ lookup_code name c d table found' new_code in
                rw (level_of_other name m v inc there, match, apart) refl
            | inr other ↦
                rw
                  (
                    level_of_other name m v inc there,
                    other,
                    lookup-legacy_levels name c code v inc table valid found',
                  )
                  refl
          ]
    ]

-- The level that a list of levels gives to a code before the defaults of the catalog.
abbrev found_level : Policy → Option Severity → Text → Severity
found_level p none code = level (record p { rule_levels = [] }) code
found_level p (some set) code = set

level_found :
    (p : Policy) (s : LevelSettings) (code : Text)
    → level (policy_of p s) code ≡ found_level p (lookup code (policy_of p s).rule_levels) code
unfolding level lookup
level_found p s code = elim (Option-cases (lookup code (policy_of p s).rule_levels)) [
  | inl e ↦ rw (level, e) refl
  | inr (set, e) ↦ rw (level, e) refl
]

level-with_rule :
    (p : Policy) (s : LevelSettings) (c code : Text) (v : ℕ)
    → level (policy_of p (with_rule s c v)) code
      ≡ (if c == code then severity v else level (policy_of p s) code)
unfolding policy_of rule_overrides lookup
level-with_rule p s c code v = elim (Bool-cases (c == code)) [
  | inl e ↦ level_found p (with_rule s c v) code ∙ rw (e) refl
  | inr n ↦ level_found p (with_rule s c v) code ∙ rw (n) (sym (level_found p s code))
]

rule_overrides-absent :
    (c : Text) (rules : List (Text × ℕ))
    → lookup c rules ≡ none
    → lookup c (rule_overrides rules) ≡ none
unfolding rule_overrides lookup
rule_overrides-absent c [] h = refl
rule_overrides-absent c ((d, v) ∷ rules) h = elim (Bool-cases (d == c)) [
  | inl e ↦ absurd (cc (rw (lookup, e) at h))
  | inr n ↦ rw (n) (rule_overrides-absent c rules (rw (lookup, n) at h))
]

lookup-with_level :
    (p : Policy) (s : LevelSettings) (name c code : Text) (v : ℕ)
    → lookup name legacy_level_rule ≡ some c
    → lookup c s.rules ≡ none
    → lookup code (policy_of p (with_level s name v)).rule_levels
      ≡ (if c == code then some (severity v) else lookup code (policy_of p s).rule_levels)
unfolding policy_of
lookup-with_level p s name c code v found absent =
    let tail = p.rule_levels in
    let old = legacy_levels s.inc_level legacy_level_rule in
    let new = legacy_levels ((name, v) ∷ s.inc_level) legacy_level_rule in
    let set =
      lookup-legacy_levels name c code v s.inc_level legacy_level_rule legacy_level_rule-is_table
        found in
    elim (Bool-cases (c == code)) [
      | inl e ↦
          let none_over : lookup code (rule_overrides s.rules) ≡ none =
            ap (λ x. lookup x (rule_overrides s.rules)) (sym ((text_beq_iff c code).0 e))
            ∙ rule_overrides-absent c s.rules absent in
          lookup-append code (rule_overrides s.rules) (new ++ tail)
          ∙ rw (none_over, lookup-append code new tail, set, e) refl
      | inr n ↦
          lookup-append code (rule_overrides s.rules) (new ++ tail)
          ∙ rw
              (
                lookup-append code new tail,
                set,
                n,
                lookup-append code (rule_overrides s.rules) (old ++ tail),
                lookup-append code old tail,
              )
              refl
    ]

level-with_level :
    (p : Policy) (s : LevelSettings) (name c code : Text) (v : ℕ)
    → lookup name legacy_level_rule ≡ some c
    → lookup c s.rules ≡ none
    → level (policy_of p (with_level s name v)) code
      ≡ (if c == code then severity v else level (policy_of p s) code)
level-with_level p s name c code v found absent =
    let set = lookup-with_level p s name c code v found absent in
    level_found p (with_level s name v) code
    ∙ ap (λ l. found_level p l code) set
    ∙ elim (Bool-cases (c == code)) [
      | inl e ↦ rw (e) refl
      | inr n ↦ rw (n) (sym (level_found p s code))
    ]

level-set_named :
    (p : Policy) (s : LevelSettings) (name c code : Text) (v : ℕ)
    → lookup name legacy_level_rule ≡ some c
    → level (policy_of p (set_named name v s)) code
      ≡ (if c == code then severity v else level (policy_of p s) code)
unfolding set_named
level-set_named p s name c code v found = elim (Option-cases (lookup c s.rules)) [
  | inl absent ↦ rw (set_named, found, absent) (level-with_level p s name c code v found absent)
  | inr (old, e) ↦ rw (set_named, found, e) (level-with_rule p s c code v)
]

-- The rule that `name` sets: the code itself, or that of a legacy name.
unfoldable pub rule_of : Text → Option Text
rule_of name =
    if is_code name then some (code_name name) else lookup (level_name name) legacy_level_rule

-- Where setting a level succeeds, by a code or by a legacy name, the policy gives that severity to the
-- rule of the name and keeps the severity of every other rule. An older setting of the same rule in the
-- other form does not hide it.
pub set_level-level :
    (p : Policy) (name code rule : Text) (value : ℕ) (s s' : LevelSettings)
    → rule_of name ≡ some rule
    → set_level name (pos value) s ≡ ok s'
    → level (policy_of p s') code
      ≡ (if rule == code then severity value else level (policy_of p s) code)
unfolding set_level rule_of
set_level-level p name code rule value s s' named done = elim (Bool-cases (ltb 2 value)) [
  | inl big ↦ absurd (cc (rw (set_level, big) at done))
  | inr small ↦ elim (Bool-cases (is_code name)) [
    | inl coded ↦ elim (Option-cases (rule_by_code (code_name name))) [
      | inl unknown ↦ absurd (cc (rw (set_level, small, coded, unknown) at done))
      | inr (found, known) ↦
          let same : code_name name ≡ rule = cc (rw (rule_of, coded) at named) in
          let set : with_rule s (code_name name) value ≡ s' =
            cc (rw (set_level, small, coded, known) at done) in
          rw (← set, ← same) (level-with_rule p s (code_name name) code value)
    ]
    | inr legacy ↦ elim (Bool-cases (any (λ n. n == level_name name) level_names)) [
      | inr unknown ↦ absurd (cc (rw (set_level, small, legacy, unknown) at done))
      | inl known ↦
          let found : lookup (level_name name) legacy_level_rule ≡ some rule =
            rw (rule_of, legacy) at named in
          let set : set_named (level_name name) value s ≡ s' =
            cc (rw (set_level, small, legacy, known) at done) in
          rw (← set) (level-set_named p s (level_name name) rule code value found)
    ]
  ]
]
