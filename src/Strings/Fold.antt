-- ===== src/Strings/Fold.antt =====
-- `strings.EqualFold`: texts that are equal once their case is dropped.
use goinception_plus.Prelude.{
  ℕ, ◌≡◌, refl, ◌↔◌, Bool, true, [], ◌∷◌, arith, ◌==◌, text_eq, text_beq_iff, beq_refl,
}
use goinception_plus.Strings.{Text, to_lower, lower_rune}

unfoldable pub equal_fold : Text → Text → Bool
equal_fold s t = to_lower s == to_lower t

pub equal_fold_iff : (s t : Text) → (equal_fold s t ≡ true) ↔ (to_lower s ≡ to_lower t)
unfolding equal_fold
equal_fold_iff s t = text_beq_iff (to_lower s) (to_lower t)

pub equal_fold_refl : (s : Text) → equal_fold s s ≡ true
unfolding equal_fold
equal_fold_refl s = beq_refl (to_lower s)

-- The test reads only the folded texts.
pub equal_fold_congr :
    (s t u v : Text)
    → to_lower s ≡ to_lower u
    → to_lower t ≡ to_lower v
    → equal_fold s t ≡ equal_fold u v
unfolding equal_fold
equal_fold_congr s t u v p q = rw (p, q)

lower_rune_idem : (c : ℕ) → lower_rune (lower_rune c) ≡ lower_rune c
unfolding lower_rune
lower_rune_idem c = ground arith

pub to_lower_idem : (s : Text) → to_lower (to_lower s) ≡ to_lower s
unfolding to_lower
to_lower_idem [] = refl
to_lower_idem (c ∷ s) = cc (lower_rune_idem c, to_lower_idem s)
