-- ===== src/Prelude/Equality.antt =====
-- Go's `==` as an interface: a Boolean test that decides the equation.
use Prim.Native.Nat.{ℕ}
use mathlib.Core.Path.{◌≡◌, refl}
use mathlib.Core.Logic.{◌↔◌}
use mathlib.Core.Bool.{Bool, true, false, ◌&&◌}
use mathlib.Core.List.{List, [], ◌∷◌}
use native.Mathlib.Omega.{arith}
use goinception_plus.Prelude.Tests.{nat_beq, nat_beq_iff}

pub record Comparable {ℓ} (V : Type ℓ) : Type ℓ where
  pub same : V → V → Bool
  pub decides : (v w : V) → (same v w ≡ true) ↔ (v ≡ w)

module _ {ℓ} {V : Type ℓ} ⦃comparable : Comparable V⦄ where
  infix 50 ◌==◌
  abbrev pub ◌==◌ : V → V → Bool
  v == w = comparable.same v w

instance abbrev pub nat_eq : Comparable ℕ
nat_eq = record { same = nat_beq; decides = nat_beq_iff }

unfoldable pub text_beq : List ℕ → List ℕ → Bool
text_beq [] [] = true
text_beq [] (d ∷ ds) = false
text_beq (c ∷ cs) [] = false
text_beq (c ∷ cs) (d ∷ ds) = nat_beq c d && text_beq cs ds

pub text_beq_iff : (s t : List ℕ) → (text_beq s t ≡ true) ↔ (s ≡ t)
unfolding text_beq
text_beq_iff [] [] = (λ _. refl, λ _. refl)
text_beq_iff [] (d ∷ ds) = (λ h. cc, λ h. cc)
text_beq_iff (c ∷ cs) [] = (λ h. cc, λ h. cc)
text_beq_iff (c ∷ cs) (d ∷ ds) =
    (λ h. ground (arith, text_beq_iff cs ds), λ h. ground (arith, text_beq_iff cs ds))

instance abbrev pub text_eq : Comparable (List ℕ)
text_eq = record { same = text_beq; decides = text_beq_iff }

pub beq_refl : (s : List ℕ) → text_beq s s ≡ true
beq_refl s = (text_beq_iff s s).1 refl
