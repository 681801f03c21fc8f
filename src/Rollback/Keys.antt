-- ===== src/Rollback/Keys.antt =====
-- The keys of internal/rollback/generator.go and the key test of internal/audit/rules/dml.go.
use goinception_plus.Prelude.{
  ℕ, zero, suc, ◌<◌, true, false, ◌&&◌, none, some, List, [], ◌∷◌, nat_eq, length, get_elem?,
  is_empty, ◌≡◌, refl, arith, All, inl, inr, Option-cases, Bool-cases, subst,
}
use goinception_plus.Strings.{Text, txt, join}
use goinception_plus.Audit.Types.{Column, Index, Table, Result, ok}
use goinception_plus.Metadata.Names.{find_named, find_named-eq-none, name_at-find_named, IsFresh}
use goinception_plus.Metadata.Presence.{HasName}
use goinception_plus.Metadata.Table.{column_name}
use goinception_plus.Metadata.Alter.Invariant.{RefersTo}
use goinception_plus.Rules.ReliableKey.{
  column_reliable, columns_reliable, has_reliable_key, any_reliable,
}
use goinception_plus.Rollback.Literal.{Value}
use goinception_plus.Rollback.{
  ChangeType, RowChange, is_non_null, all_non_null, non_null_index, first_primary, first_unique,
  rollback_key, key_part, part_text, key_parts, key_where,
}

-- A column that an index names is found.
HasName-not-IsFresh :
    (n : Text) (columns : List Column)
    → HasName column_name n columns
    → ¬ IsFresh column_name n columns
HasName-not-IsFresh n [] h f = absurd h
HasName-not-IsFresh n (c ∷ rest) (inl e) f = f.0 e
HasName-not-IsFresh n (c ∷ rest) (inr h) f = HasName-not-IsFresh n rest h f.1

pub find_named_present :
    (n : Text) (columns : List Column)
    → HasName column_name n columns
    → (i : ℕ) × (find_named column_name n columns ≡ some i) × (i < length columns)
find_named_present n columns h = elim (Option-cases (find_named column_name n columns)) [
  | inl e ↦ absurd (HasName-not-IsFresh n columns h (find_named-eq-none column_name n columns e))
  | inr (i, e) ↦ (i, e, (name_at-find_named column_name n columns i e).1)
]

pub get_elem?_in_range {ℓ} :
    {A : Type ℓ} (l : List A) (i : ℕ) → i < length l → (a : A) × (get_elem? l i ≡ some a)
get_elem?_in_range [] i h = absurd (omega arith)
get_elem?_in_range (x ∷ l) zero h = (x, refl)
get_elem?_in_range (x ∷ l) (suc i) h = get_elem?_in_range l i (omega arith)

-- A fallible operation succeeds.
abbrev pub Succeeds {ℓ} : {A : Type ℓ} → Result A → Type ℓ
Succeeds {A} r = (a : A) × (r ≡ ok a)

module _ (t : Table) (row : List Value) (full : length row ≡ length t.columns) where
  key_part-Succeeds :
      (name : Text) → HasName column_name name t.columns → Succeeds (key_part t row name)
  unfolding key_part
  key_part-Succeeds name h =
      let (i, found, lt) = find_named_present name t.columns h in
      let (v, value) = get_elem?_in_range row i (omega arith) in
      let (c, column) = get_elem?_in_range t.columns i lt in
      (part_text name c v, rw (found, value, column, key_part) refl)

  key_parts-Succeeds :
      (names : List Text)
      → All (λ n. HasName column_name n t.columns) names
      → Succeeds (key_parts t row names)
  unfolding key_parts
  key_parts-Succeeds [] h = ([], refl)
  key_parts-Succeeds (n ∷ names) h =
      let (part, e) = key_part-Succeeds n h.0 in
      let (parts, f) = key_parts-Succeeds names h.1 in (part ∷ parts, rw (e, f) refl)

-- A primary index has columns.
abbrev pub PrimaryHasColumns : Index → Type 0
PrimaryHasColumns i = i.primary ≡ true → is_empty i.columns ≡ false

pub first_primary-All :
    (P : Index → Type 0) (l : List Index) (k : Index)
    → All P l
    → first_primary l ≡ some k
    → P k × (k.primary ≡ true)
unfolding first_primary
first_primary-All P [] k h e = absurd (ground arith)
first_primary-All P (i ∷ l) k h e = elim (Bool-cases i.primary) [
  | inl yes_primary ↦
      let same : i ≡ k = ground (arith, yes_primary) in
      (subst P same h.0, subst (λ x. x.primary ≡ true) same yes_primary)
  | inr not_primary ↦ first_primary-All P l k h.1 (ground (arith, not_primary))
]

first_unique-All :
    (P : Index → Type 0) (t : Table) (l : List Index) (k : Index)
    → All P l
    → first_unique t l ≡ some k
    → P k × (is_empty k.columns ≡ false)
unfolding first_unique non_null_index
first_unique-All P t [] k h e = absurd (ground arith)
first_unique-All P t (i ∷ l) k h e = elim (Bool-cases (i.unique && non_null_index t i)) [
  | inl chosen ↦
      let same : i ≡ k = ground (arith, chosen) in
      (subst P same h.0, subst (λ x. is_empty x.columns ≡ false) same (ground (arith, chosen)))
  | inr passed ↦ first_unique-All P t l k h.1 (ground (arith, passed))
]

-- The two tests of a column, that of the audit and that of the generator, agree.
column_reliable-is_non_null :
    (columns : List Column) (name : Text) → column_reliable columns name ≡ is_non_null columns name
unfolding column_reliable is_non_null
column_reliable-is_non_null [] name = refl
column_reliable-is_non_null (c ∷ rest) name = rw (column_reliable-is_non_null rest name) refl

columns_reliable-all_non_null :
    (columns : List Column) (names : List Text)
    → columns_reliable columns names ≡ all_non_null columns names
unfolding columns_reliable all_non_null
columns_reliable-all_non_null columns [] = refl
columns_reliable-all_non_null columns (n ∷ names) =
    rw (column_reliable-is_non_null columns n, columns_reliable-all_non_null columns names) refl

first_unique-of_reliable :
    (t : Table) (l : List Index)
    → any_reliable t.columns l ≡ true
    → first_primary l ≡ none
    → (k : Index) × (first_unique t l ≡ some k)
unfolding any_reliable first_primary first_unique non_null_index
first_unique-of_reliable t [] h e = absurd (ground arith)
first_unique-of_reliable t (i ∷ l) h e = elim (Bool-cases (i.unique && non_null_index t i)) [
  | inl chosen ↦ (i, rw chosen refl)
  | inr passed ↦
      let (k, found) =
        first_unique-of_reliable t l
          (ground (arith, passed, columns_reliable-all_non_null t.columns i.columns))
          (ground arith) in
      (k, rw passed found)
]

-- What the generator needs of its key.
pub record IsUsable (t : Table) (k : Index) : Type 0 where
  pub found : rollback_key t ≡ some k
  pub filled : is_empty k.columns ≡ false
  pub refers : RefersTo t.columns k

pub rollback_key-IsUsable :
    (t : Table)
    → All (RefersTo t.columns) t.indexes
    → All PrimaryHasColumns t.indexes
    → has_reliable_key t ≡ true
    → (k : Index) × IsUsable t k
unfolding rollback_key has_reliable_key
rollback_key-IsUsable t refs parts h = elim (Option-cases (first_primary t.indexes)) [
  | inr (k, e) ↦
      let (refers, primary) = first_primary-All (RefersTo t.columns) t.indexes k refs e in
      (
        k,
        record {
          found = rw (e, rollback_key) refl;
          filled = (first_primary-All PrimaryHasColumns t.indexes k parts e).0 primary;
          refers = refers;
        },
      )
  | inl none_primary ↦
      let (k, e) = first_unique-of_reliable t t.indexes h none_primary in
      let (refers, filled) = first_unique-All (RefersTo t.columns) t t.indexes k refs e in
      (k, record { found = rw (none_primary, rollback_key) e; filled = filled; refers = refers })
]

-- For a table that the audit's key test admits, whose indexes name its columns and whose primary
-- keys have columns, the WHERE clause of any full row image can be built.
pub key_where-Succeeds :
    (t : Table) (row : List Value)
    → All (RefersTo t.columns) t.indexes
    → All PrimaryHasColumns t.indexes
    → has_reliable_key t ≡ true
    → length row ≡ length t.columns
    → Succeeds (key_where t row)
unfolding key_where
key_where-Succeeds t row refs parts h full =
    let (k, usable) = rollback_key-IsUsable t refs parts h in
    let (clauses, e) = key_parts-Succeeds t row full k.columns usable.refers in
    (join clauses (txt " AND "), rw (usable.found, key_where, usable.filled, e) refl)

-- The row images of a change have a value for each column.
abbrev pub HasFullImages : RowChange → Type 0
HasFullImages c = elim c.type [
  | ChangeType.insert ↦ length c.after ≡ length c.table.columns
  | ChangeType.delete ↦ length c.before ≡ length c.table.columns
  | ChangeType.update ↦
      (length c.before ≡ length c.table.columns) × (length c.after ≡ length c.table.columns)
]
