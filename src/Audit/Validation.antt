-- ===== src/Audit/Validation.antt =====
-- internal/audit/catalog.go: `ValidateRuleCatalog`, over any list of definitions.
use goinception_plus.Prelude.{
  ℕ, Bool, true, false, not, ◌&&◌, Option, none, some, List, [], ◌∷◌, any, All, ◌≡◌, refl, ◌⊎◌,
  arith, inl, inr, leb, if◌then◌else◌, ◌==◌, nat_eq, text_eq, beq_refl,
}
use goinception_plus.Strings.{Text, txt}
use goinception_plus.Strings.Dict.{lookup, insert}
use goinception_plus.Strings.Format.{sprintf, quoted}
use goinception_plus.Audit.Types.{Error, failure}
use goinception_plus.Audit.Catalog.{RuleDefinition, definitions, find_rule}

is_upper : ℕ → Bool
is_upper c = leb b'A' c && leb c b'Z'

is_digit : ℕ → Bool
is_digit c = leb b'0' c && leb c b'9'

-- The rest of a code after its area: two letters and three digits.
is_numbered : Text → Bool
unfolding is_upper is_digit
is_numbered (d ∷ a ∷ c ∷ e ∷ x ∷ y ∷ z ∷ []) =
    d == b'-' && is_upper a && is_upper c && e == b'-' && is_digit x && is_digit y && is_digit z
is_numbered _ = false

-- What follows a prefix meets the test.
after : (Text → Bool) → Text → Text → Bool
after test [] s = test s
after test (c ∷ prefix) [] = false
after test (c ∷ prefix) (d ∷ s) = let rest = after test prefix s in c == d && rest

-- The pattern of the codes.
unfoldable pub is_rule_code : Text → Bool
unfolding after is_numbered any
is_rule_code code =
    any (λ area. after (after is_numbered area) (txt "GIP-") code)
      (txt "COR" ∷ txt "DDL" ∷ txt "DML" ∷ txt "META" ∷ txt "EXE" ∷ txt "BAK" ∷ txt "PRO" ∷ [])

unfoldable pub is_seen : Text → List Text → Bool
unfolding any
is_seen code codes = any (λ c. c == code) codes

unfoldable pub validate_rules : List Text → List (Text × Text) → List RuleDefinition → Option Error
unfolding is_rule_code is_seen lookup
validate_rules codes keys [] = none
validate_rules codes keys (d ∷ rest) =
    let unkeyed = validate_rules (d.code ∷ codes) keys rest in
    let keyed = validate_rules (d.code ∷ codes) (insert d.legacy_key d.code keys) rest in
    if not (is_rule_code d.code)
    then some (failure (sprintf "invalid rule code %s" (quoted d.code ∷ [])))
    else if is_seen d.code codes
    then some (failure (sprintf "duplicate rule code %s" (quoted d.code ∷ [])))
    else if d.legacy_key == []
    then unkeyed
    else elim (lookup d.legacy_key keys) [
      | none ↦ keyed
      | some previous ↦ some (
          failure (
            sprintf "legacy key %s is used by %s and %s"
              (quoted d.legacy_key ∷ previous ∷ d.code ∷ [])))
    ]

unfoldable pub validate_rule_catalog : Option Error
unfolding validate_rules definitions
validate_rule_catalog = validate_rules [] [] definitions

-- The tests of a definition, in their order.
passed :
    (good seen unkeyed : Bool) (previous : Option Text) (with_key without_key : Option Error)
    (bad_code twice : Error) (shared_key : Text → Error)
    → (if not good
        then some bad_code
        else if seen
        then some twice
        else if unkeyed
        then without_key
        else elim previous [ none ↦ with_key | some code ↦ some (shared_key code) ])
      ≡ none
    → (seen ≡ false) × ((without_key ≡ none) ⊎ (with_key ≡ none))
passed false seen unkeyed previous with_key without_key bad_code twice shared_key e = absurd (cc e)
passed true true unkeyed previous with_key without_key bad_code twice shared_key e = absurd (cc e)
passed true false true previous with_key without_key bad_code twice shared_key e = (refl, inl e)
passed true false false none with_key without_key bad_code twice shared_key e = (refl, inr e)
passed true false false (some code) with_key without_key bad_code twice shared_key e = absurd (cc e)

-- What an accepted first definition leaves to the rest.
validate_rules-cons :
    (codes : List Text) (keys : List (Text × Text)) (d : RuleDefinition)
    (rest : List RuleDefinition)
    → validate_rules codes keys (d ∷ rest) ≡ none
    → (is_seen d.code codes ≡ false)
      × (keys' : List (Text × Text)) × (validate_rules (d.code ∷ codes) keys' rest ≡ none)
unfolding validate_rules
validate_rules-cons codes keys d rest e =
    let keyed = insert d.legacy_key d.code keys in
    let (new, left) =
      passed (is_rule_code d.code) (is_seen d.code codes) (d.legacy_key == [])
        (lookup d.legacy_key keys) (validate_rules (d.code ∷ codes) keyed rest)
        (validate_rules (d.code ∷ codes) keys rest) _ _ _ e in
    elim left [ inl f ↦ (new, keys, f) | inr f ↦ (new, keyed, f) ]

abbrev AreNew : List Text → List RuleDefinition → Type 0
AreNew codes l = All (λ x. is_seen x.code codes ≡ false) l

abbrev pub AreFound : List RuleDefinition → List RuleDefinition → Type 0
AreFound rules l = All (λ x. find_rule x.code rules ≡ some x) l

found_later :
    (d : RuleDefinition) (codes : List Text) (rules l : List RuleDefinition)
    → AreNew (d.code ∷ codes) l
    → AreFound rules l
    → AreFound (d ∷ rules) l
unfolding find_rule is_seen any
found_later d codes rules [] new found = tt
found_later d codes rules (x ∷ l) new found =
    (ground (arith, new.0, found.0), found_later d codes rules l new.1 found.1)

still_new :
    (code : Text) (codes : List Text) (l : List RuleDefinition)
    → AreNew (code ∷ codes) l
    → AreNew codes l
unfolding is_seen any
still_new code codes [] new = tt
still_new code codes (x ∷ l) new = (ground (arith, new.0), still_new code codes l new.1)

find_rule_first :
    (d : RuleDefinition) (rest : List RuleDefinition) → find_rule d.code (d ∷ rest) ≡ some d
unfolding find_rule
find_rule_first d rest = rw (beq_refl d.code) refl

validate_rules-new :
    (codes : List Text) (keys : List (Text × Text)) (l : List RuleDefinition)
    → validate_rules codes keys l ≡ none
    → AreNew codes l × AreFound l l
validate_rules-new codes keys [] e = (tt, tt)
validate_rules-new codes keys (d ∷ rest) e =
    let (here, keys', there) = validate_rules-cons codes keys d rest e in
    let (new, found) = validate_rules-new (d.code ∷ codes) keys' rest there in
    (
      (here, still_new d.code codes rest new),
      (find_rule_first d rest, found_later d codes rest rest new found),
    )

-- In a list of definitions that the validation accepts, every definition is the one that the lookup
-- of its code returns.
pub validate_rules-AreFound :
    (rules : List RuleDefinition) → validate_rules [] [] rules ≡ none → AreFound rules rules
validate_rules-AreFound rules e = (validate_rules-new [] [] rules e).1
