-- ===== src/Metadata/Presence.antt =====
-- That a list of named objects has an object of a name, up to case, under the edits of
-- internal/metadata/snapshot.go.
use goinception_plus.Prelude.{
  ℕ, zero, suc, ◌≡◌, sym, ◌≢◌, ◌∙◌, ◌⊎◌, inl, inr, List, [], ◌∷◌, ◌++◌, arith, remove_at, length,
  ◌<◌,
}
use goinception_plus.Strings.{Text, to_lower}
use goinception_plus.Metadata.Names.{modify_at, name_at}

module _ {ℓ} {A : Type ℓ} (name_of : A → Text) where
  abbrev pub HasName : Text → List A → Type 0
  HasName n [] = ⊥
  HasName n (v ∷ rest) = (to_lower (name_of v) ≡ to_lower n) ⊎ HasName n rest

  pub HasName-congr :
      (m n : Text) (l : List A) → to_lower m ≡ to_lower n → HasName m l → HasName n l
  HasName-congr m n [] e h = h
  HasName-congr m n (v ∷ rest) e (inl h) = inl (h ∙ e)
  HasName-congr m n (v ∷ rest) e (inr h) = inr (HasName-congr m n rest e h)

  pub HasName-append : (n : Text) (l more : List A) → HasName n l → HasName n (l ++ more)
  HasName-append n [] more h = absurd h
  HasName-append n (v ∷ rest) more (inl h) = inl h
  HasName-append n (v ∷ rest) more (inr h) = inr (HasName-append n rest more h)

  pub HasName-remove_at :
      (m n : Text) (i : ℕ) (l : List A)
      → to_lower (name_at name_of i l) ≡ to_lower m
      → to_lower n ≢ to_lower m
      → HasName n l
      → HasName n (remove_at l i)
  unfolding name_at
  HasName-remove_at m n i [] e ne h = h
  HasName-remove_at m n zero (v ∷ rest) e ne (inl h) = absurd (ne (sym h ∙ e))
  HasName-remove_at m n zero (v ∷ rest) e ne (inr h) = h
  HasName-remove_at m n (suc i) (v ∷ rest) e ne (inl h) = inl h
  HasName-remove_at m n (suc i) (v ∷ rest) e ne (inr h) = inr (HasName-remove_at m n i rest e ne h)

  -- A change of the object named `m` keeps every other name.
  pub HasName-modify_other :
      (f : A → A) (m n : Text) (i : ℕ) (l : List A)
      → to_lower (name_at name_of i l) ≡ to_lower m
      → to_lower n ≢ to_lower m
      → HasName n l
      → HasName n (modify_at f i l)
  unfolding name_at modify_at
  HasName-modify_other f m n i [] e ne h = h
  HasName-modify_other f m n zero (v ∷ rest) e ne (inl h) = absurd (ne (sym h ∙ e))
  HasName-modify_other f m n zero (v ∷ rest) e ne (inr h) = inr h
  HasName-modify_other f m n (suc i) (v ∷ rest) e ne (inl h) = inl h
  HasName-modify_other f m n (suc i) (v ∷ rest) e ne (inr h) =
      inr (HasName-modify_other f m n i rest e ne h)

  -- The changed object has its new name.
  pub HasName-modify_new :
      (f : A → A) (n : Text) (i : ℕ) (l : List A)
      → i < length l
      → ((v : A) → to_lower (name_of (f v)) ≡ to_lower n)
      → HasName n (modify_at f i l)
  unfolding modify_at
  HasName-modify_new f n i [] lt e = absurd (omega arith)
  HasName-modify_new f n zero (v ∷ rest) lt e = inl (e v)
  HasName-modify_new f n (suc i) (v ∷ rest) lt e =
      inr (HasName-modify_new f n i rest (omega arith) e)
