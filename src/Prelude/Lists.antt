-- ===== src/Prelude/Lists.antt =====
-- Lists measured and indexed by the native numbers, and predicates on lists by recursion.
use Prim.Native.Nat.{ℕ, zero, suc, ◌+◌}
use mathlib.Core.Path.{◌≡◌, refl}
use mathlib.Core.Bool.{Bool, true, false, ◌||◌}
use mathlib.Core.List.{List, [], ◌∷◌, ◌++◌, Memᴰ}
use mathlib.Core.Option.{Option, none, some}
use native.Mathlib.Omega.{arith}
use goinception_plus.Prelude.Tests.{if◌then◌else◌}

module _ {ℓ} {A : Type ℓ} where
  abbrev pub length : List A → ℕ
  length [] = 0
  length (x ∷ xs) = suc (length xs)

  abbrev pub get_elem? : List A → ℕ → Option A
  get_elem? [] i = none
  get_elem? (x ∷ xs) zero = some x
  get_elem? (x ∷ xs) (suc i) = get_elem? xs i

  -- A write out of bounds changes nothing.
  abbrev pub set : List A → ℕ → A → List A
  set [] i v = []
  set (x ∷ xs) zero v = v ∷ xs
  set (x ∷ xs) (suc i) v = x ∷ set xs i v

  -- `append(xs[:i], xs[i+1:]...)`
  abbrev pub remove_at : List A → ℕ → List A
  remove_at [] i = []
  remove_at (x ∷ xs) zero = xs
  remove_at (x ∷ xs) (suc i) = x ∷ remove_at xs i

  abbrev pub is_empty : List A → Bool
  is_empty [] = true
  is_empty (x ∷ xs) = false

  abbrev pub take : ℕ → List A → List A
  take zero xs = []
  take (suc n) [] = []
  take (suc n) (x ∷ xs) = x ∷ take n xs

  abbrev pub drop : ℕ → List A → List A
  drop zero xs = xs
  drop (suc n) [] = []
  drop (suc n) (x ∷ xs) = drop n xs

  pub length-append : (xs ys : List A) → length (xs ++ ys) ≡ length xs + length ys
  length-append [] ys = omega arith
  length-append (x ∷ xs) ys = omega (arith, length-append xs ys)

module _ {ℓ} {A : Type ℓ} where
  -- The parts of an empty list are empty.
  pub append_nothing : (xs ys : List A) → xs ++ ys ≡ [] → (xs ≡ []) × (ys ≡ [])
  append_nothing [] ys e = (refl, e)
  append_nothing (x ∷ xs) ys e = absurd (cc e)

  -- Some element passes the test; every element does.
  unfoldable pub any : (A → Bool) → List A → Bool
  any p [] = false
  any p (x ∷ xs) = p x || any p xs

  unfoldable pub keep : (A → Bool) → List A → List A
  keep p [] = []
  keep p (x ∷ xs) = let rest = keep p xs in if p x then x ∷ rest else rest

module _ {ℓ κ} {A : Type ℓ} (P : A → Type κ) where
  abbrev pub All : List A → Type κ
  All [] = Unit
  All (first ∷ others) = P first × All others

  -- A predicate on every member holds of every element.
  pub All-Memᴰ : (l : List A) → ((x : A) → Memᴰ x l → P x) → All l
  All-Memᴰ [] h = tt
  All-Memᴰ (first ∷ others) h =
      (h first (Memᴰ.head refl), All-Memᴰ others (λ x m. h x (Memᴰ.tail m)))

  pub All-append : (l more : List A) → All l → All more → All (l ++ more)
  All-append [] more none_left all_more = all_more
  All-append (first ∷ others) more (here, there) all_more =
      (here, All-append others more there all_more)

  pub All-parts : (l more : List A) → All (l ++ more) → All l × All more
  All-parts [] more all = (tt, all)
  All-parts (first ∷ others) more (here, all) =
      let (left, right) = All-parts others more all in ((here, left), right)

pub Memᴰ-left {ℓ} : {A : Type ℓ} (x : A) (l more : List A) → Memᴰ x l → Memᴰ x (l ++ more)
Memᴰ-left x [] more m = elim m [ ]
Memᴰ-left x (y ∷ l) more (Memᴰ.head e) = Memᴰ.head e
Memᴰ-left x (y ∷ l) more (Memᴰ.tail m) = Memᴰ.tail (Memᴰ-left x l more m)

pub Memᴰ-right {ℓ} : {A : Type ℓ} (x : A) (l more : List A) → Memᴰ x more → Memᴰ x (l ++ more)
Memᴰ-right x [] more m = m
Memᴰ-right x (y ∷ l) more m = Memᴰ.tail (Memᴰ-right x l more m)
