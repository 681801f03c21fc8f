-- ===== src/Metadata/Alter/Invariant/Columns.antt =====
-- The references of the indexes under the edits of the columns in internal/metadata/snapshot.go.
use goinception_plus.Prelude.{ℕ, ◌≢◌, inl, inr, List, [], ◌∷◌, map, arith, All, Bool-cases}
use goinception_plus.Strings.{Text, to_lower}
use goinception_plus.Strings.Fold.{equal_fold, equal_fold_iff}
use goinception_plus.Audit.Types.{Column, Index}
use goinception_plus.Metadata.Names.{IsFresh, IsDistinct}
use goinception_plus.Metadata.Presence.{HasName}
use goinception_plus.Metadata.Table.{
  column_name, index_name, rename_part, rename_in_index, drop_parts, drop_from_index, drop_from_all,
}
use goinception_plus.Metadata.Alter.Invariant.{RefersTo}

abbrev NamesIn : List Column → List Text → Type 0
NamesIn columns names = All (λ n. HasName column_name n columns) names

-- Any edit that keeps every name keeps the references.
NamesIn-mono :
    (c c' : List Column) (names : List Text)
    → ((n : Text) → HasName column_name n c → HasName column_name n c')
    → NamesIn c names
    → NamesIn c' names
NamesIn-mono c c' [] f h = tt
NamesIn-mono c c' (n ∷ names) f h = (f n h.0, NamesIn-mono c c' names f h.1)

pub references_mono :
    (c c' : List Column) (indexes : List Index)
    → ((n : Text) → HasName column_name n c → HasName column_name n c')
    → All (RefersTo c) indexes
    → All (RefersTo c') indexes
references_mono c c' [] f h = tt
references_mono c c' (i ∷ rest) f h =
    (NamesIn-mono c c' i.columns f h.0, references_mono c c' rest f h.1)

module _ (c c' : List Column) (old_name new_name : Text)
    (others : (n : Text)
      → to_lower n ≢ to_lower old_name
      → HasName column_name n c
      → HasName column_name n c') where
  NamesIn-rename_part :
      (names : List Text)
      → HasName column_name new_name c'
      → NamesIn c names
      → NamesIn c' (map (rename_part old_name new_name) names)
  unfolding rename_part
  NamesIn-rename_part [] new h = tt
  NamesIn-rename_part (n ∷ names) new h = elim (Bool-cases (equal_fold n old_name)) [
    | inl same ↦ rw same (new, NamesIn-rename_part names new h.1)
    | inr differs ↦ rw differs (
      others n (λ e. cc (differs, (equal_fold_iff n old_name).1 e)) h.0,
      NamesIn-rename_part names new h.1,
    )
  ]

  -- A rename of a column carries the references along.
  pub references-rename :
      (indexes : List Index)
      → HasName column_name new_name c'
      → All (RefersTo c) indexes
      → All (RefersTo c') (map (rename_in_index old_name new_name) indexes)
  unfolding rename_in_index
  references-rename [] new h = tt
  references-rename (i ∷ rest) new h =
      (NamesIn-rename_part i.columns new h.0, references-rename rest new h.1)

  NamesIn-drop_parts :
      (names : List Text) (lengths : List ℕ)
      → NamesIn c names
      → NamesIn c' (drop_parts old_name names lengths).0
  unfolding drop_parts
  NamesIn-drop_parts [] lengths h = tt
  NamesIn-drop_parts (n ∷ names) [] h = elim (Bool-cases (equal_fold n old_name)) [
    | inl same ↦ rw same (NamesIn-drop_parts names [] h.1)
    | inr differs ↦ rw differs (
      others n (λ e. cc (differs, (equal_fold_iff n old_name).1 e)) h.0,
      NamesIn-drop_parts names [] h.1,
    )
  ]
  NamesIn-drop_parts (n ∷ names) (k ∷ lengths) h = elim (Bool-cases (equal_fold n old_name)) [
    | inl same ↦ rw same (NamesIn-drop_parts names lengths h.1)
    | inr differs ↦ rw differs (
      others n (λ e. cc (differs, (equal_fold_iff n old_name).1 e)) h.0,
      NamesIn-drop_parts names lengths h.1,
    )
  ]

  -- Dropping a column drops it from the indexes.
  pub references-drop :
      (indexes : List Index)
      → All (RefersTo c) indexes
      → All (RefersTo c') (drop_from_all old_name indexes)
  unfolding drop_from_all drop_from_index
  references-drop [] h = tt
  references-drop (i ∷ rest) h =
      ground (arith, NamesIn-drop_parts i.columns i.prefix_lengths h.0, references-drop rest h.1)

-- The names of the indexes do not change by the rename of a column.
IsFresh-rename_in_index :
    (old_name new_name n : Text) (indexes : List Index)
    → IsFresh index_name n indexes
    → IsFresh index_name n (map (rename_in_index old_name new_name) indexes)
unfolding rename_in_index
IsFresh-rename_in_index o w n [] h = tt
IsFresh-rename_in_index o w n (i ∷ rest) h = (h.0, IsFresh-rename_in_index o w n rest h.1)

pub IsDistinct-rename_in_index :
    (old_name new_name : Text) (indexes : List Index)
    → IsDistinct index_name indexes
    → IsDistinct index_name (map (rename_in_index old_name new_name) indexes)
unfolding rename_in_index
IsDistinct-rename_in_index o w [] d = tt
IsDistinct-rename_in_index o w (i ∷ rest) d =
    (IsFresh-rename_in_index o w i.name rest d.0, IsDistinct-rename_in_index o w rest d.1)

IsFresh-drop_from_all :
    (column n : Text) (indexes : List Index)
    → IsFresh index_name n indexes
    → IsFresh index_name n (drop_from_all column indexes)
unfolding drop_from_all drop_from_index
IsFresh-drop_from_all column n [] h = tt
IsFresh-drop_from_all column n (i ∷ rest) h =
    ground (arith, IsFresh-drop_from_all column n rest h.1)

pub IsDistinct-drop_from_all :
    (column : Text) (indexes : List Index)
    → IsDistinct index_name indexes
    → IsDistinct index_name (drop_from_all column indexes)
unfolding drop_from_all drop_from_index
IsDistinct-drop_from_all column [] d = tt
IsDistinct-drop_from_all column (i ∷ rest) d =
    ground (
      arith,
      IsFresh-drop_from_all column i.name rest d.0,
      IsDistinct-drop_from_all column rest d.1,
    )
