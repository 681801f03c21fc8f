-- ===== src/Metadata/Alter/Invariant/Duplicates.antt =====
-- CHANGE COLUMN of internal/metadata/snapshot.go and the distinctness of columns.
use goinception_plus.Prelude.{
  ℕ, zero, suc, ◌≡◌, ◌≢◌, ◌<◌, refl, sym, ap, ◌∙◌, ◌⊎◌, inl, inr, some, List, [], ◌∷◌, arith,
  length,
}
use goinception_plus.Strings.{Text, to_lower}
use goinception_plus.Model.{ColumnSpec}
use goinception_plus.Audit.Types.{Table, ok}
use goinception_plus.Metadata.Names.{modify_at, name_at, IsFresh, IsDistinct, name_at-find_named}
use goinception_plus.Metadata.Table.{
  column_name, find_column, change_column, merge_column_spec, rename_column_in_indexes,
}

order : (i j : ℕ) → i ≢ j → (i < j) ⊎ (j < i)
order i j ne = omega arith

module _ {ℓ} {A : Type ℓ} (name_of : A → Text) where
  IsFresh-name_at :
      (n : Text) (i : ℕ) (l : List A)
      → i < length l
      → IsFresh name_of n l
      → to_lower (name_at name_of i l) ≢ to_lower n
  unfolding name_at
  IsFresh-name_at n i [] lt h = absurd (omega arith)
  IsFresh-name_at n zero (v ∷ rest) lt h = h.0
  IsFresh-name_at n (suc i) (v ∷ rest) lt h = IsFresh-name_at n i rest (omega arith) h.1

  -- One name at two positions is not distinct.
  clash :
      (i j : ℕ) (l : List A)
      → i < j
      → j < length l
      → to_lower (name_at name_of i l) ≡ to_lower (name_at name_of j l)
      → ¬ IsDistinct name_of l
  unfolding name_at
  clash i j [] lt bound e d = absurd (omega arith)
  clash i zero (v ∷ rest) lt bound e d = absurd (omega arith)
  clash zero (suc j) (v ∷ rest) lt bound e d =
      IsFresh-name_at (name_of v) j rest (omega arith) d.0 (sym e)
  clash (suc i) (suc j) (v ∷ rest) lt bound e d = clash i j rest (omega arith) (omega arith) e d.1

  name_at-modify_self :
      (f : A → A) (n : Text) (i : ℕ) (l : List A)
      → i < length l
      → ((v : A) → name_of (f v) ≡ n)
      → name_at name_of i (modify_at f i l) ≡ n
  unfolding name_at modify_at
  name_at-modify_self f n i [] lt e = absurd (omega arith)
  name_at-modify_self f n zero (v ∷ rest) lt e = e v
  name_at-modify_self f n (suc i) (v ∷ rest) lt e = name_at-modify_self f n i rest (omega arith) e

  name_at-modify_other :
      (f : A → A) (i j : ℕ) (l : List A)
      → i ≢ j
      → name_at name_of j (modify_at f i l) ≡ name_at name_of j l
  unfolding name_at modify_at
  name_at-modify_other f i j [] ne = refl
  name_at-modify_other f zero zero (v ∷ rest) ne = absurd (ne refl)
  name_at-modify_other f zero (suc j) (v ∷ rest) ne = refl
  name_at-modify_other f (suc i) zero (v ∷ rest) ne = refl
  name_at-modify_other f (suc i) (suc j) (v ∷ rest) ne =
      name_at-modify_other f i j rest (λ e. ne (ap suc e))

  length-modify_at : (f : A → A) (i : ℕ) (l : List A) → length (modify_at f i l) ≡ length l
  unfolding modify_at
  length-modify_at f i [] = refl
  length-modify_at f zero (v ∷ rest) = refl
  length-modify_at f (suc i) (v ∷ rest) = ap suc (length-modify_at f i rest)

  not-IsDistinct-modify_at :
      (f : A → A) (n : Text) (i j : ℕ) (l : List A)
      → i ≢ j
      → i < length l
      → j < length l
      → ((v : A) → name_of (f v) ≡ n)
      → to_lower (name_at name_of j l) ≡ to_lower n
      → ¬ IsDistinct name_of (modify_at f i l)
  not-IsDistinct-modify_at f n i j l ne hi hj named same d =
      let e = ap to_lower (name_at-modify_self f n i l hi named) in
      let g = ap to_lower (name_at-modify_other f i j l ne) in
      let size = length-modify_at f i l in
      elim (order i j ne) [
        | inl lt ↦ clash i j _ lt (omega arith) (e ∙ sym same ∙ sym g) d
        | inr gt ↦ clash j i _ gt (omega arith) (g ∙ same ∙ sym e) d
      ]

-- A CHANGE COLUMN from one column of a table to the name of another is accepted by the snapshot,
-- and its column names are no longer distinct.
pub change_column-duplicates :
    (name : Text) (spec : ColumnSpec) (t : Table) (i j : ℕ)
    → find_column t name ≡ some i
    → find_column t spec.name ≡ some j
    → i ≢ j
    → (t' : Table) × (change_column name (spec ∷ []) t ≡ ok t')
      × (¬ IsDistinct column_name t'.columns)
unfolding change_column rename_column_in_indexes
change_column-duplicates name spec t i j hi hj ne =
    let first = name_at-find_named column_name name t.columns i hi in
    let second = name_at-find_named column_name spec.name t.columns j hj in
    (
      rename_column_in_indexes (name_at column_name i t.columns) spec.name
          (record t { columns = modify_at (merge_column_spec spec) i t.columns }),
      rw (hi, change_column) refl,
      not-IsDistinct-modify_at column_name (merge_column_spec spec) spec.name i j t.columns ne
          first.1 second.1 (λ c. refl) second.0,
    )
