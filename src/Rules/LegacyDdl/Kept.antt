-- ===== src/Rules/LegacyDdl/Kept.antt =====
-- The indexes that a statement names and those of the loaded table that it does not drop, in
-- internal/audit/rules/legacy_ddl.go.
use goinception_plus.Prelude.{
  Bool, true, false, not, ◌≢◌, ◌∙◌, ap, map, keep, any, Memᴰ, Memᴰ-left, Memᴰ-right, some,
  Option-cases, ◌==◌, text_beq_iff, List, [], ◌∷◌, ◌≡◌, refl, sym, ◌⊎◌, inl, inr, All, Bool-cases,
  text_eq,
}
use goinception_plus.Strings.{Text, to_lower}
use goinception_plus.Model.{IndexSpec, AlterAction, AlterOperation, DdlSpec}
use goinception_plus.Audit.Types.{Table, Index}
use goinception_plus.Rules.LegacyDdl.Indexes.{
  added_indexes, drops_index, is_dropped, index_of_table, new_indexes, kept_indexes,
}

-- An index that the statement names.
abbrev pub IsStated : IndexSpec → DdlSpec → Type 0
IsStated i d =
    Memᴰ i d.indexes ⊎ ((op : AlterOperation) × Memᴰ op d.alter_operations × (op.index ≡ some i))

-- The operation does not drop the index of the name.
abbrev pub Keeps : Text → AlterOperation → Type 0
Keeps name op =
    ((op.action ≢ AlterAction.drop_index) × (op.action ≢ AlterAction.drop_primary_key))
    ⊎ (to_lower op.name ≢ to_lower name)

pub IsStated-new_indexes : (i : IndexSpec) (d : DdlSpec) → IsStated i d → Memᴰ i (new_indexes d)
unfolding new_indexes
IsStated-new_indexes i d (inl m) = Memᴰ-left i d.indexes (added_indexes d.alter_operations) m
IsStated-new_indexes i d (inr (op, m, e)) =
    Memᴰ-right i d.indexes (added_indexes d.alter_operations) (added d.alter_operations op m e)
  where
    added :
        (ops : List AlterOperation) (op : AlterOperation)
        → Memᴰ op ops
        → op.index ≡ some i
        → Memᴰ i (added_indexes ops)
    added [] op m e = elim m [ ]
    added (o ∷ ops) op (Memᴰ.head same) f =
        let here : o.index ≡ some i = ap (λ (x : AlterOperation). x.index) (sym same) ∙ f in
        rw (added_indexes, here) (Memᴰ.head refl)
    added (o ∷ ops) op (Memᴰ.tail later) f = elim (Option-cases o.index) [
      | inl none_here ↦ rw (added_indexes, none_here) (added ops op later f)
      | inr (j, here) ↦ rw (added_indexes, here) (Memᴰ.tail (added ops op later f))
    ]

drops_none :
    (a : AlterAction)
    → a ≢ AlterAction.drop_index
    → a ≢ AlterAction.drop_primary_key
    → (op : AlterOperation) → drops_index (record op { action = a }) ≡ false
drops_none AlterAction.drop_index h k op = absurd (h refl)
drops_none AlterAction.drop_primary_key h k op = absurd (k refl)
drops_none other h k op = refl

Keeps-is_dropped :
    (name : Text) (ops : List AlterOperation) → All (Keeps name) ops → is_dropped ops name ≡ false
unfolding is_dropped any
Keeps-is_dropped name [] h = refl
Keeps-is_dropped name (op ∷ ops) (inl (not_index, not_key), h) =
    rw (drops_none op.action not_index not_key op) (Keeps-is_dropped name ops h)
Keeps-is_dropped name (op ∷ ops) (inr other, h) =
    elim (Bool-cases (to_lower op.name == to_lower name)) [
      | inl e ↦ absurd (other ((text_beq_iff (to_lower op.name) (to_lower name)).0 e))
      | inr n ↦ elim (Bool-cases (drops_index op)) [
        | inl drops ↦ rw (drops, n) (Keeps-is_dropped name ops h)
        | inr keeps ↦ rw keeps (Keeps-is_dropped name ops h)
      ]
    ]

pub Keeps-kept_indexes :
    (d : DdlSpec) (t : Table) (k : Index)
    → Memᴰ k t.indexes
    → All (Keeps k.name) d.alter_operations
    → Memᴰ (index_of_table k) (kept_indexes d (some t))
unfolding kept_indexes keep
Keeps-kept_indexes d t k m keeps = go t.indexes m
  where
    kept : Index → Bool
    kept i = not (is_dropped d.alter_operations i.name)

    go : (l : List Index) → Memᴰ k l → Memᴰ (index_of_table k) (map index_of_table (keep kept l))
    go [] m = elim m [ ]
    go (i ∷ l) (Memᴰ.head same) =
        let stays : kept i ≡ true =
          ap (λ (x : Index). not (is_dropped d.alter_operations x.name)) (sym same)
          ∙ ap not (Keeps-is_dropped k.name d.alter_operations keeps) in
        rw (stays) (Memᴰ.head (ap index_of_table same))
    go (i ∷ l) (Memᴰ.tail later) = elim (Bool-cases (kept i)) [
      | inl stays ↦ rw stays (Memᴰ.tail (go l later))
      | inr leaves ↦ rw leaves (go l later)
    ]
