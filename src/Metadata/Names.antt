-- ===== src/Metadata/Names.antt =====
-- Lists of named objects (columns, indexes) as the snapshot searches them: names are compared
-- without regard to case.
use goinception_plus.Prelude.{
  ℕ, zero, suc, ◌≡◌, refl, sym, ◌≢◌, ◌∙◌, true, false, Option, none, some, List, [], ◌∷◌, ◌++◌,
  arith, remove_at, length, ◌<◌,
}
use goinception_plus.Strings.{Text, to_lower}
use goinception_plus.Strings.Fold.{equal_fold, equal_fold_iff}

module _ {ℓ} {A : Type ℓ} where
  -- `v[i] = f(v[i])`
  unfoldable pub modify_at : (A → A) → ℕ → List A → List A
  modify_at f i [] = []
  modify_at f zero (v ∷ rest) = f v ∷ rest
  modify_at f (suc i) (v ∷ rest) = v ∷ modify_at f i rest

module _ {ℓ} {A : Type ℓ} (name_of : A → Text) where
  -- The loops of `findColumn` and `findIndex`; `none` is the result -1.
  unfoldable pub find_named : Text → List A → Option ℕ
  find_named n [] = none
  find_named n (v ∷ rest) = elim (equal_fold (name_of v) n) [
    | true ↦ some 0
    | false ↦ elim (find_named n rest) [ none ↦ none | some i ↦ some (suc i) ]
  ]

  -- The name at a position, the empty text past the end.
  unfoldable pub name_at : ℕ → List A → Text
  name_at i [] = []
  name_at zero (v ∷ rest) = name_of v
  name_at (suc i) (v ∷ rest) = name_at i rest

  -- No object has the name, up to case.
  abbrev pub IsFresh : Text → List A → Type 0
  IsFresh n [] = Unit
  IsFresh n (v ∷ rest) = (to_lower (name_of v) ≢ to_lower n) × IsFresh n rest

  -- No two objects have one name, up to case.
  abbrev pub IsDistinct : List A → Type 0
  IsDistinct [] = Unit
  IsDistinct (v ∷ rest) = IsFresh (name_of v) rest × IsDistinct rest

  pub find_named-eq-none : (n : Text) (l : List A) → find_named n l ≡ none → IsFresh n l
  unfolding find_named
  find_named-eq-none n [] h = tt
  find_named-eq-none n (v ∷ rest) h =
      ground (arith, equal_fold_iff (name_of v) n, find_named-eq-none n rest)

  pub IsFresh-find_named : (n : Text) (l : List A) → IsFresh n l → find_named n l ≡ none
  unfolding find_named
  IsFresh-find_named n [] h = refl
  IsFresh-find_named n (v ∷ rest) h =
      ground (arith, equal_fold_iff (name_of v) n, IsFresh-find_named n rest h.1)

  pub name_at-find_named :
      (n : Text) (l : List A) (i : ℕ)
      → find_named n l ≡ some i
      → (to_lower (name_at i l) ≡ to_lower n) × (i < length l)
  unfolding find_named name_at
  name_at-find_named n [] i h = cc
  name_at-find_named n (v ∷ rest) zero h = ground (arith, equal_fold_iff (name_of v) n)
  name_at-find_named n (v ∷ rest) (suc i) h = ground (arith, name_at-find_named n rest i)

  -- Freshness depends on the folded name only.
  pub IsFresh-congr :
      (m n : Text) (l : List A) → to_lower m ≡ to_lower n → IsFresh m l → IsFresh n l
  IsFresh-congr m n [] e h = tt
  IsFresh-congr m n (v ∷ rest) e h = (λ q. h.0 (q ∙ sym e), IsFresh-congr m n rest e h.1)

  pub IsFresh-append_one :
      (n : Text) (l : List A) (v : A)
      → IsFresh n l
      → to_lower (name_of v) ≢ to_lower n
      → IsFresh n (l ++ v ∷ [])
  IsFresh-append_one n [] v h ne = (ne, tt)
  IsFresh-append_one n (w ∷ rest) v h ne = (h.0, IsFresh-append_one n rest v h.1 ne)

  pub IsDistinct-append_one :
      (l : List A) (v : A) → IsDistinct l → IsFresh (name_of v) l → IsDistinct (l ++ v ∷ [])
  IsDistinct-append_one [] v d f = (tt, tt)
  IsDistinct-append_one (w ∷ rest) v d f = (
    IsFresh-append_one (name_of w) rest v d.0 (λ e. f.0 (sym e)),
    IsDistinct-append_one rest v d.1 f.1,
  )

  pub IsFresh-remove_at : (n : Text) (i : ℕ) (l : List A) → IsFresh n l → IsFresh n (remove_at l i)
  IsFresh-remove_at n i [] h = tt
  IsFresh-remove_at n zero (v ∷ rest) h = h.1
  IsFresh-remove_at n (suc i) (v ∷ rest) h = (h.0, IsFresh-remove_at n i rest h.1)

  pub IsDistinct-remove_at : (i : ℕ) (l : List A) → IsDistinct l → IsDistinct (remove_at l i)
  IsDistinct-remove_at i [] d = tt
  IsDistinct-remove_at zero (v ∷ rest) d = d.1
  IsDistinct-remove_at (suc i) (v ∷ rest) d =
      (IsFresh-remove_at (name_of v) i rest d.0, IsDistinct-remove_at i rest d.1)

  -- What was found and removed is gone.
  pub find_named-remove_at :
      (n : Text) (l : List A) (i : ℕ)
      → IsDistinct l
      → find_named n l ≡ some i
      → IsFresh n (remove_at l i)
  unfolding find_named
  find_named-remove_at n [] i d h = tt
  find_named-remove_at n (v ∷ rest) zero d h =
      IsFresh-congr (name_of v) n rest (ground (arith, equal_fold_iff (name_of v) n)) d.0
  find_named-remove_at n (v ∷ rest) (suc i) d h = (
    ground (arith, equal_fold_iff (name_of v) n),
    find_named-remove_at n rest i d.1 (ground arith),
  )

  module _ (f : A → A) where
    pub IsFresh-modify_at :
        (n : Text) (i : ℕ) (l : List A)
        → ((v : A) → to_lower (name_of (f v)) ≢ to_lower n)
        → IsFresh n l
        → IsFresh n (modify_at f i l)
    unfolding modify_at
    IsFresh-modify_at n i [] ne h = tt
    IsFresh-modify_at n zero (v ∷ rest) ne h = (ne v, h.1)
    IsFresh-modify_at n (suc i) (v ∷ rest) ne h = (h.0, IsFresh-modify_at n i rest ne h.1)

  -- Renaming one object to a fresh name keeps the names distinct.
  pub IsDistinct-modify_fresh :
      (f : A → A) (n : Text) (i : ℕ) (l : List A)
      → ((v : A) → name_of (f v) ≡ n)
      → IsFresh n l
      → IsDistinct l
      → IsDistinct (modify_at f i l)
  unfolding modify_at
  IsDistinct-modify_fresh f n i [] e h d = tt
  IsDistinct-modify_fresh f n zero (v ∷ rest) e h d = (rw (e v) h.1, d.1)
  IsDistinct-modify_fresh f n (suc i) (v ∷ rest) e h d = (
    IsFresh-modify_at f (name_of v) i rest (λ w. rw (e w) (λ q. h.0 (sym q))) d.0,
    IsDistinct-modify_fresh f n i rest e h.1 d.1,
  )

  IsFresh-modify_same :
      (f : A → A) (m n : Text) (i : ℕ) (l : List A)
      → to_lower (name_at i l) ≡ to_lower m
      → ((v : A) → to_lower (name_of (f v)) ≡ to_lower m)
      → IsFresh n l
      → IsFresh n (modify_at f i l)
  unfolding modify_at name_at
  IsFresh-modify_same f m n i [] e s h = tt
  IsFresh-modify_same f m n zero (v ∷ rest) e s h = (λ q. h.0 (e ∙ sym (s v) ∙ q), h.1)
  IsFresh-modify_same f m n (suc i) (v ∷ rest) e s h =
      (h.0, IsFresh-modify_same f m n i rest e s h.1)

  -- So does a change that keeps the name of the object, up to case.
  pub IsDistinct-modify_same :
      (f : A → A) (m : Text) (i : ℕ) (l : List A)
      → to_lower (name_at i l) ≡ to_lower m
      → ((v : A) → to_lower (name_of (f v)) ≡ to_lower m)
      → IsDistinct l
      → IsDistinct (modify_at f i l)
  unfolding modify_at name_at
  IsDistinct-modify_same f m i [] e s d = tt
  IsDistinct-modify_same f m zero (v ∷ rest) e s d =
      (IsFresh-congr (name_of v) (name_of (f v)) rest (e ∙ sym (s v)) d.0, d.1)
  IsDistinct-modify_same f m (suc i) (v ∷ rest) e s d = (
    IsFresh-modify_same f m (name_of v) i rest e s d.0,
    IsDistinct-modify_same f m i rest e s d.1,
  )
