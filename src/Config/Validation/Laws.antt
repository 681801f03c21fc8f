-- ===== src/Config/Validation/Laws.antt =====
-- internal/config: how the check of a loaded configuration and the check of a changed one agree.
use goinception_plus.Prelude.{Bool, true, false, none, some, ◌≡◌}
use goinception_plus.Prelude.Int.{ℤ, pos}
use goinception_plus.Strings.{Text}
use goinception_plus.Audit.Catalog.{rule_by_code}
use goinception_plus.Config.Validation.{outside}

-- A level that the settings may have.
unfoldable pub IsLevel : Text × ℤ → Type 0
IsLevel e = outside (pos 0) (pos 2) e.1 ≡ false

unfoldable pub is_registered : Text → Bool
is_registered code = elim (rule_by_code code) [ none ↦ false | some definition ↦ true ]

-- A level of a rule of the catalog.
unfoldable pub IsRuleLevel : Text × ℤ → Type 0
IsRuleLevel e = (is_registered e.0 ≡ true) × (outside (pos 0) (pos 2) e.1 ≡ false)
