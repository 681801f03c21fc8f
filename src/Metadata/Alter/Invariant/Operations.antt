-- ===== src/Metadata/Alter/Invariant/Operations.antt =====
-- The operations of an ALTER TABLE of internal/metadata/snapshot.go on well-formed tables.
use goinception_plus.Prelude.{
  ℕ, ◌≡◌, refl, sym, ap, ◌≢◌, ◌∙◌, ◌⊎◌, inl, inr, List, [], ◌∷◌, Bool-cases, some, Option-cases,
  remove_at, text_eq,
}
use goinception_plus.Strings.{Text, to_lower}
use goinception_plus.Strings.Fold.{equal_fold, equal_fold_iff}
use goinception_plus.Model.{ColumnSpec}
use goinception_plus.Audit.Types.{Column, Table, Result, ok, err}
use goinception_plus.Metadata.Names.{
  find_named, modify_at, name_at, IsFresh, find_named-eq-none, name_at-find_named,
  IsDistinct-append_one, IsDistinct-remove_at, IsDistinct-modify_fresh, IsDistinct-modify_same,
}
use goinception_plus.Metadata.Presence.{
  HasName, HasName-append, HasName-remove_at, HasName-modify_other, HasName-modify_new,
}
use goinception_plus.Metadata.Table.{
  column_name, column_from_spec, merge_column_spec, add_columns, drop_column, modify_column,
  change_column, rename_column, rename_column_in_indexes,
}
use goinception_plus.Metadata.Alter.Invariant.{IsWellFormed, ChangeIsSound}
use goinception_plus.Metadata.Alter.Invariant.Columns.{
  references_mono, references-rename, references-drop, IsDistinct-rename_in_index,
  IsDistinct-drop_from_all,
}

-- A table that differs in other fields only.
pub IsWellFormed-congr :
    (t u : Table) → t.columns ≡ u.columns → t.indexes ≡ u.indexes → IsWellFormed t → IsWellFormed u
IsWellFormed-congr t u p q w = record {
  columns_distinct = rw (← p) w.columns_distinct;
  indexes_distinct = rw (← q) w.indexes_distinct;
  references = rw (← p, ← q) w.references;
}

-- What holds of the result of a fallible operation.
abbrev pub Keeps : Result Table → Type 0
Keeps (ok t) = IsWellFormed t
Keeps (err e) = Unit

pub add_columns-IsWellFormed :
    (specs : List ColumnSpec) (t : Table) → IsWellFormed t → Keeps (add_columns specs t)
unfolding add_columns
add_columns-IsWellFormed [] t w = w
add_columns-IsWellFormed (c ∷ rest) t w =
    elim (Option-cases (find_named column_name c.name t.columns)) [
      | inr (n, found) ↦ rw (found, add_columns) tt
      | inl absent ↦
          rw (absent, add_columns)
            (add_columns-IsWellFormed rest _ (record {
              columns_distinct =
                  IsDistinct-append_one column_name t.columns (column_from_spec c)
                    w.columns_distinct (find_named-eq-none column_name c.name t.columns absent);
              indexes_distinct = w.indexes_distinct;
              references =
                  references_mono t.columns _ t.indexes
                    (λ n. HasName-append column_name n t.columns (column_from_spec c ∷ []))
                    w.references;
            }))
    ]

pub drop_column-IsWellFormed :
    (name : Text) (t : Table) → IsWellFormed t → Keeps (drop_column name t)
unfolding drop_column
drop_column-IsWellFormed name t w = elim (Option-cases (find_named column_name name t.columns)) [
  | inl absent ↦ rw (absent, drop_column) tt
  | inr (n, found) ↦
      rw (found, drop_column)
        (record {
          columns_distinct = IsDistinct-remove_at column_name n t.columns w.columns_distinct;
          indexes_distinct = IsDistinct-drop_from_all name t.indexes w.indexes_distinct;
          references =
              references-drop t.columns (remove_at t.columns n) name name
                (HasName-remove_at_found n found) t.indexes w.references;
        })
]
  where
    HasName-remove_at_found :
        (n : ℕ)
        → find_named column_name name t.columns ≡ some n
        → (m : Text) → to_lower m ≢ to_lower name
        → HasName column_name m t.columns
        → HasName column_name m (remove_at t.columns n)
    HasName-remove_at_found n found m =
        HasName-remove_at column_name name m n t.columns
          (name_at-find_named column_name name t.columns n found).0

module _ (t : Table) (f : Column → Column) (name : Text) (n : ℕ) where
  -- A change of the column `name` that keeps its name, up to case, keeps every name.
  HasName-modify_named :
      find_named column_name name t.columns ≡ some n
      → ((c : Column) → to_lower (f c).name ≡ to_lower name)
      → (m : Text) → HasName column_name m t.columns
      → HasName column_name m (modify_at f n t.columns)
  HasName-modify_named found same m h =
      let here = name_at-find_named column_name name t.columns n found in
      elim (Bool-cases (equal_fold m name)) [
        | inl e ↦
            HasName-modify_new column_name f m n t.columns here.1
              (λ c. same c ∙ sym ((equal_fold_iff m name).0 e))
        | inr ne ↦
            HasName-modify_other column_name f name m n t.columns here.0
              (λ e. cc (ne, (equal_fold_iff m name).1 e)) h
      ]

  -- A column found by `name` gets the name `new_name`, and the indexes follow.
  renamed-IsWellFormed :
      (new_name : Text)
      → find_named column_name name t.columns ≡ some n
      → ((c : Column) → (f c).name ≡ new_name)
      → ((to_lower new_name ≡ to_lower name) ⊎ IsFresh column_name new_name t.columns)
      → (old : Text) → to_lower old ≡ to_lower name
      → IsWellFormed t
      → IsWellFormed
          (rename_column_in_indexes old new_name (record t { columns = modify_at f n t.columns }))
  unfolding rename_column_in_indexes
  renamed-IsWellFormed new_name found named sound old same w =
      let here = name_at-find_named column_name name t.columns n found in
      record {
        columns_distinct = elim sound [
          | inl e ↦
              IsDistinct-modify_same column_name f name n t.columns here.0
                (λ c. ap to_lower (named c) ∙ e) w.columns_distinct
          | inr free ↦
              IsDistinct-modify_fresh column_name f new_name n t.columns named free
                w.columns_distinct
        ];
        indexes_distinct = IsDistinct-rename_in_index old new_name t.indexes w.indexes_distinct;
        references =
            references-rename t.columns (modify_at f n t.columns) old new_name
              (λ m ne. HasName-modify_other column_name f old m n t.columns (here.0 ∙ sym same) ne)
              t.indexes
              (HasName-modify_new column_name f new_name n t.columns here.1
                (λ c. ap to_lower (named c)))
              w.references;
      }

pub modify_column-IsWellFormed :
    (specs : List ColumnSpec) (t : Table) → IsWellFormed t → Keeps (modify_column specs t)
unfolding modify_column
modify_column-IsWellFormed [] t w = tt
modify_column-IsWellFormed (a ∷ b ∷ rest) t w = tt
modify_column-IsWellFormed (spec ∷ []) t w =
    elim (Option-cases (find_named column_name spec.name t.columns)) [
      | inl absent ↦ rw (absent, modify_column) tt
      | inr (n, found) ↦
          rw (found, modify_column)
            (record {
              columns_distinct =
                  IsDistinct-modify_same column_name (merge_column_spec spec) spec.name n t.columns
                    (name_at-find_named column_name spec.name t.columns n found).0 (λ c. refl)
                    w.columns_distinct;
              indexes_distinct = w.indexes_distinct;
              references =
                  references_mono t.columns _ t.indexes
                    (HasName-modify_named t (merge_column_spec spec) spec.name n found (λ c. refl))
                    w.references;
            })
    ]

pub change_column-IsWellFormed :
    (name : Text) (specs : List ColumnSpec) (t : Table)
    → ChangeIsSound t name specs
    → IsWellFormed t
    → Keeps (change_column name specs t)
unfolding change_column
change_column-IsWellFormed name [] t s w = tt
change_column-IsWellFormed name (a ∷ b ∷ rest) t s w = tt
change_column-IsWellFormed name (spec ∷ []) t s w =
    elim (Option-cases (find_named column_name name t.columns)) [
      | inl absent ↦ rw (absent, change_column) tt
      | inr (n, found) ↦
          rw (found, change_column)
            (renamed-IsWellFormed t (merge_column_spec spec) name n spec.name found (λ c. refl) s
              (name_at column_name n t.columns)
              (name_at-find_named column_name name t.columns n found).0 w)
    ]

pub rename_column-IsWellFormed :
    (name new_name : Text) (t : Table) → IsWellFormed t → Keeps (rename_column name new_name t)
unfolding rename_column
rename_column-IsWellFormed name new_name t w =
    elim (Option-cases (find_named column_name name t.columns)) [
      | inl absent ↦ rw (absent, rename_column) tt
      | inr (n, found) ↦ elim (Option-cases (find_named column_name new_name t.columns)) [
        | inr (m, taken) ↦ rw (found, taken, rename_column) tt
        | inl free ↦
            rw (found, free, rename_column)
              (renamed-IsWellFormed t (λ c. record c { name = new_name }) name n new_name found
                (λ c. refl) (inr (find_named-eq-none column_name new_name t.columns free)) name refl
                w)
      ]
    ]
