-- ===== src/Rules/LegacyDdl/Redundancy.antt =====
-- When one index makes another redundant, and `leadingColumnsOverlap` of internal/audit/rules/legacy_ddl.go.
use goinception_plus.Prelude.{
  true, false, List, [], ◌∷◌, ◌≡◌, ◌↔◌, refl, sym, ◌⊎◌, inl, inr, All, Bool-cases, is_empty,
  text_eq,
}
use goinception_plus.Strings.{Text, to_lower}
use goinception_plus.Strings.Fold.{equal_fold, equal_fold_iff}
use goinception_plus.Model.{IndexSpec}
use goinception_plus.Rules.LegacyDdl.Types.{agree, leading_columns_overlap}

-- The first list begins the second, up to the case of the names.
abbrev pub IsPrefix : List Text → List Text → Type 0
IsPrefix [] b = Unit
IsPrefix (x ∷ a) [] = ⊥
IsPrefix (x ∷ a) (y ∷ b) = (to_lower x ≡ to_lower y) × IsPrefix a b

-- One of two lists of columns serves every search that the other serves.
abbrev pub IsRedundant : List Text → List Text → Type 0
IsRedundant a b = (is_empty a ≡ false) × (is_empty b ≡ false) × (IsPrefix a b ⊎ IsPrefix b a)

agree_of_prefix : (a b : List Text) → IsPrefix a b ⊎ IsPrefix b a → agree a b ≡ true
unfolding agree
agree_of_prefix [] b h = refl
agree_of_prefix (x ∷ a) [] h = refl
agree_of_prefix (x ∷ a) (y ∷ b) (inl (e, h)) =
    rw ((equal_fold_iff x y).1 e) (agree_of_prefix a b (inl h))
agree_of_prefix (x ∷ a) (y ∷ b) (inr (e, h)) =
    rw ((equal_fold_iff x y).1 (sym e)) (agree_of_prefix a b (inr h))

agree-IsPrefix : (a b : List Text) → agree a b ≡ true → IsPrefix a b ⊎ IsPrefix b a
unfolding agree
agree-IsPrefix [] b h = inl tt
agree-IsPrefix (x ∷ a) [] h = inr tt
agree-IsPrefix (x ∷ a) (y ∷ b) h = elim (Bool-cases (equal_fold x y)) [
  | inr differ ↦ absurd (cc (rw (agree, differ) at h))
  | inl same ↦
      let e = (equal_fold_iff x y).0 same in
      elim (agree-IsPrefix a b (rw (agree, same) at h)) [
        | inl p ↦ inl (e, p)
        | inr p ↦ inr (sym e, p)
      ]
]

-- `leadingColumnsOverlap` tells whether one of two indexes is redundant.
pub leading_columns_overlap_iff :
    (a b : List Text) → (leading_columns_overlap a b ≡ true) ↔ IsRedundant a b
unfolding leading_columns_overlap
leading_columns_overlap_iff [] b = (λ h. absurd (cc h), λ h. absurd (cc h.0))
leading_columns_overlap_iff (x ∷ a) [] = (λ h. absurd (cc h), λ h. absurd (cc h.1))
leading_columns_overlap_iff (x ∷ a) (y ∷ b) =
    (λ h. (refl, refl, agree-IsPrefix (x ∷ a) (y ∷ b) h), λ h. agree_of_prefix (x ∷ a) (y ∷ b) h.2)

-- No index of the list is redundant beside one after it.
abbrev pub IsIrredundant : List IndexSpec → Type 0
IsIrredundant [] = Unit
IsIrredundant (i ∷ rest) =
    All (λ (j : IndexSpec). ¬ IsRedundant i.columns j.columns) rest × IsIrredundant rest
