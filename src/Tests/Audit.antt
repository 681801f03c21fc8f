-- ===== src/Tests/Audit.antt =====
-- Examples of the theorems on the catalog.
use goinception_plus.Prelude.{none, [], ◌≡◌, refl, text_beq}
use goinception_plus.Audit.Catalog.{definitions}
use goinception_plus.Audit.Validation.{AreFound, validate_rules, validate_rules-AreFound}

catalog_is_valid : validate_rules [] [] definitions ≡ none
unfolding validate_rules definitions text_beq
catalog_is_valid = refl

validate_rules-AreFound_example : AreFound definitions definitions
validate_rules-AreFound_example = validate_rules-AreFound definitions catalog_is_valid
