-- ===== src/Strings/Dict.antt =====
-- Go maps with text keys as association lists: the newest entry of a key stands first.
use goinception_plus.Prelude.{Option, none, some, List, [], ◌∷◌, if◌then◌else◌, ◌==◌, text_eq}
use goinception_plus.Strings.{Text}

unfoldable pub lookup {ℓ} : {V : Type ℓ} → Text → List (Text × V) → Option V
lookup key [] = none
lookup key ((k, v) ∷ rest) = if k == key then some v else lookup key rest

abbrev pub insert {ℓ} : {V : Type ℓ} → Text → V → List (Text × V) → List (Text × V)
insert key v m = (key, v) ∷ m
