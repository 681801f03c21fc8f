-- ===== src/Metadata/Alter/Invariant/Indexes.antt =====
-- The index operations and the rename of internal/metadata/snapshot.go on well-formed tables.
use goinception_plus.Prelude.{
  ℕ, zero, suc, ◌≡◌, refl, inl, inr, List, [], ◌∷◌, ◌++◌, All, All-append, false, Option, none,
  some, Option-cases, remove_at, text_eq,
}
use goinception_plus.Strings.{Text}
use goinception_plus.Model.{TableRef, IndexSpec}
use goinception_plus.Audit.Types.{Index, Table, Result, ok, err, ◌>>=◌}
use goinception_plus.Metadata.Names.{
  find_named, modify_at, find_named-eq-none, IsDistinct-append_one, IsDistinct-remove_at,
  IsDistinct-modify_fresh,
}
use goinception_plus.Metadata.Table.{
  index_name, drop_index_named, create_indexes, drop_indexes, index_from,
}
use goinception_plus.Metadata.Alter.{add_index, rename_index, rename_to}
use goinception_plus.Metadata.Alter.Invariant.{IsWellFormed, RefersTo, IndexIsSound}
use goinception_plus.Metadata.Alter.Invariant.Operations.{IsWellFormed-congr, Keeps}

pub add_index-IsWellFormed :
    (i : Option IndexSpec) (t : Table) → IndexIsSound t i → IsWellFormed t → Keeps (add_index i t)
unfolding add_index
add_index-IsWellFormed none t s w = tt
add_index-IsWellFormed (some i) t s w =
    elim (Option-cases (find_named index_name i.name t.indexes)) [
      | inr (n, found) ↦ rw (found, add_index) tt
      | inl absent ↦
          rw (absent, add_index)
            (record {
              columns_distinct = w.columns_distinct;
              indexes_distinct =
                  IsDistinct-append_one index_name t.indexes _ w.indexes_distinct
                    (find_named-eq-none index_name i.name t.indexes absent);
              references = All-append (RefersTo t.columns) t.indexes _ w.references (s, tt);
            })
    ]

All-remove_at : (P : Index → Type 0) (n : ℕ) (l : List Index) → All P l → All P (remove_at l n)
All-remove_at P n [] h = tt
All-remove_at P zero (i ∷ l) h = h.1
All-remove_at P (suc n) (i ∷ l) h = (h.0, All-remove_at P n l h.1)

All-modify_at :
    (P : Index → Type 0) (f : Index → Index) (n : ℕ) (l : List Index)
    → ((i : Index) → P i → P (f i))
    → All P l
    → All P (modify_at f n l)
unfolding modify_at
All-modify_at P f n [] k h = tt
All-modify_at P f zero (i ∷ l) k h = (k i h.0, h.1)
All-modify_at P f (suc n) (i ∷ l) k h = (h.0, All-modify_at P f n l k h.1)

pub drop_index_named-IsWellFormed :
    (name : Text) (t : Table) → IsWellFormed t → Keeps (drop_index_named name t)
unfolding drop_index_named
drop_index_named-IsWellFormed name t w =
    elim (Option-cases (find_named index_name name t.indexes)) [
      | inl absent ↦ rw (absent, drop_index_named) tt
      | inr (n, found) ↦
          rw (found, drop_index_named)
            (record {
              columns_distinct = w.columns_distinct;
              indexes_distinct = IsDistinct-remove_at index_name n t.indexes w.indexes_distinct;
              references = All-remove_at (RefersTo t.columns) n t.indexes w.references;
            })
    ]

pub rename_index-IsWellFormed :
    (name new_name : Text) (t : Table) → IsWellFormed t → Keeps (rename_index name new_name t)
unfolding rename_index
rename_index-IsWellFormed name new_name t w =
    elim (Option-cases (find_named index_name name t.indexes)) [
      | inl absent ↦ rw (absent, rename_index) tt
      | inr (n, found) ↦ elim (Option-cases (find_named index_name new_name t.indexes)) [
        | inr (m, taken) ↦ rw (found, taken, rename_index) tt
        | inl free ↦
            rw (found, free, rename_index)
              (record {
                columns_distinct = w.columns_distinct;
                indexes_distinct =
                    IsDistinct-modify_fresh index_name (λ i. record i { name = new_name }) new_name
                      n t.indexes (λ i. refl)
                      (find_named-eq-none index_name new_name t.indexes free) w.indexes_distinct;
                references =
                    All-modify_at (RefersTo t.columns) (λ i. record i { name = new_name }) n
                      t.indexes (λ i h. h) w.references;
              })
      ]
    ]

pub rename_to-IsWellFormed :
    (target : Option TableRef) (t : Table) → IsWellFormed t → Keeps (rename_to target t)
unfolding rename_to
rename_to-IsWellFormed none t w = tt
rename_to-IsWellFormed (some target) t w = IsWellFormed-congr t _ refl refl w

create_index_one :
    (i : IndexSpec) (t : Table)
    → find_named index_name i.name t.indexes ≡ none
    → IndexIsSound t (some i)
    → IsWellFormed t
    → IsWellFormed
        (record t { indexes = t.indexes ++ index_from i.name i.columns i.unique false [] [] ∷ [] })
create_index_one i t absent s w = record {
  columns_distinct = w.columns_distinct;
  indexes_distinct =
      IsDistinct-append_one index_name t.indexes _ w.indexes_distinct
        (find_named-eq-none index_name i.name t.indexes absent);
  references = All-append (RefersTo t.columns) t.indexes _ w.references (s, tt);
}

pub create_indexes-IsWellFormed :
    (specs : List IndexSpec) (t : Table)
    → All (λ i. IndexIsSound t (some i)) specs
    → IsWellFormed t
    → Keeps (create_indexes specs t)
unfolding create_indexes
create_indexes-IsWellFormed [] t s w = w
create_indexes-IsWellFormed (i ∷ rest) t s w =
    elim (Option-cases (find_named index_name i.name t.indexes)) [
      | inr (n, found) ↦ rw (found, create_indexes) tt
      | inl absent ↦
          rw (absent, create_indexes)
            (create_indexes-IsWellFormed rest _ s.1 (create_index_one i t absent s.0 w))
    ]

bind-Keeps :
    (r : Result Table) (f : Table → Result Table)
    → Keeps r
    → ((t : Table) → IsWellFormed t → Keeps (f t))
    → Keeps (r >>= f)
bind-Keeps (ok t) f w k = k t w
bind-Keeps (err e) f w k = tt

pub drop_indexes-IsWellFormed :
    (specs : List IndexSpec) (t : Table) → IsWellFormed t → Keeps (drop_indexes specs t)
unfolding drop_indexes
drop_indexes-IsWellFormed [] t w = w
drop_indexes-IsWellFormed (i ∷ rest) t w =
    bind-Keeps (drop_index_named i.name t) (drop_indexes rest)
      (drop_index_named-IsWellFormed i.name t w) (drop_indexes-IsWellFormed rest)
