-- ===== src/Protocol/Processes/Laws.antt =====
-- internal/protocol/management.go: what the registry of the connections shows.
use goinception_plus.Prelude.{
  ℕ, ◌<◌, Option, none, some, List, [], ◌∷◌, ◌≡◌, refl, ap, sym, ◌∙◌, inl, inr, arith, All,
  if◌then◌else◌, ◌==◌, nat_eq, nat_beq_iff, ltb, ltb→lt, Bool-cases,
}
use goinception_plus.Protocol.Processes.{
  ProcessInfo, item, add, remove, update, Operation, add_process, remove_process, set_db,
  set_target, begin_command, end_command, changed, apply, apply_all, insert_by_id, snapshot,
}

-- The connections by their IDs, and what an operation makes of them.
abbrev pub target_id : Operation → ℕ
target_id (add_process p) = p.id
target_id (remove_process id) = id
target_id (set_db id db) = id
target_id (set_target id user host port) = id
target_id (begin_command id command info now cancel) = id
target_id (end_command id) = id

abbrev pub mapped : (ProcessInfo → ProcessInfo) → Option ProcessInfo → Option ProcessInfo
mapped f none = none
mapped f (some p) = some (f p)

abbrev pub entry_after : Operation → Option ProcessInfo → Option ProcessInfo
entry_after (add_process p) entry = some p
entry_after (remove_process id) entry = none
entry_after op entry = mapped (changed op) entry

abbrev pub view_after : Operation → (ℕ → Option ProcessInfo) → ℕ → Option ProcessInfo
view_after op view id = if target_id op == id then entry_after op (view id) else view id

abbrev pub view_of : List Operation → (ℕ → Option ProcessInfo) → ℕ → Option ProcessInfo
view_of [] view = view
view_of (op ∷ rest) view = view_of rest (view_after op view)

item-add :
    (id : ℕ) (p : ProcessInfo) (r : List ProcessInfo)
    → item id (add p r) ≡ (if p.id == id then some p else item id r)
unfolding item add
item-add id p [] = refl
item-add id p (q ∷ rest) = ground (arith, item-add id p rest)

item-remove :
    (id k : ℕ) (r : List ProcessInfo) → item id (remove k r) ≡ (if k == id then none else item id r)
unfolding item remove
item-remove id k [] = ground arith
item-remove id k (q ∷ rest) = ground (arith, item-remove id k rest)

module _ (f : ProcessInfo → ProcessInfo) (keeps : (p : ProcessInfo) → (f p).id ≡ p.id) where
  item-update :
      (id k : ℕ) (r : List ProcessInfo)
      → item id (update k f r) ≡ (if k == id then mapped f (item id r) else item id r)
  unfolding item update
  item-update id k [] = ground arith
  item-update id k (q ∷ rest) = ground (arith, item-update id k rest, keeps q)

item-apply :
    (op : Operation) (r : List ProcessInfo) (id : ℕ)
    → item id (apply op r) ≡ view_after op (λ n. item n r) id
unfolding apply changed
item-apply (add_process p) r id = item-add id p r
item-apply (remove_process k) r id = item-remove id k r
item-apply (set_db k db) r id = item-update (changed (set_db k db)) (λ p. refl) id k r
item-apply (set_target k user host port) r id =
    item-update (changed (set_target k user host port)) (λ p. refl) id k r
item-apply (begin_command k command info now cancel) r id =
    item-update (changed (begin_command k command info now cancel)) (λ p. refl) id k r
item-apply (end_command k) r id = item-update (changed (end_command k)) (λ p. refl) id k r

-- Each ID has one entry.
abbrev pub IsUnique : List ProcessInfo → Type 0
IsUnique [] = Unit
IsUnique (p ∷ rest) = (item p.id rest ≡ none) × IsUnique rest

add-IsUnique : (p : ProcessInfo) (r : List ProcessInfo) → IsUnique r → IsUnique (add p r)
unfolding add item
add-IsUnique p [] h = (refl, tt)
add-IsUnique p (q ∷ rest) (fresh, h) = elim (Bool-cases (q.id == p.id)) [
  | inl e ↦ rw (add, e) (ap (λ n. item n rest) (sym ((nat_beq_iff q.id p.id).0 e)) ∙ fresh, h)
  | inr n ↦ rw (add, n) (ground (arith, item-add q.id p rest, fresh, n), add-IsUnique p rest h)
]

remove-IsUnique : (k : ℕ) (r : List ProcessInfo) → IsUnique r → IsUnique (remove k r)
unfolding remove
remove-IsUnique k [] h = tt
remove-IsUnique k (q ∷ rest) (fresh, h) = elim (Bool-cases (q.id == k)) [
  | inl e ↦ rw (remove, e) (remove-IsUnique k rest h)
  | inr n ↦
      rw (remove, n) (ground (arith, item-remove q.id k rest, fresh, n), remove-IsUnique k rest h)
]

module _ (f : ProcessInfo → ProcessInfo) (keeps : (p : ProcessInfo) → (f p).id ≡ p.id) where
  update-IsUnique : (k : ℕ) (r : List ProcessInfo) → IsUnique r → IsUnique (update k f r)
  unfolding update
  update-IsUnique k [] h = tt
  update-IsUnique k (q ∷ rest) (fresh, h) = elim (Bool-cases (q.id == k)) [
    | inl e ↦ rw (update, e) (ap (λ n. item n rest) (keeps q) ∙ fresh, h)
    | inr n ↦
        rw (update, n)
          (ground (arith, item-update f keeps q.id k rest, fresh, n), update-IsUnique k rest h)
  ]

apply-IsUnique : (op : Operation) (r : List ProcessInfo) → IsUnique r → IsUnique (apply op r)
unfolding apply changed
apply-IsUnique (add_process p) r h = add-IsUnique p r h
apply-IsUnique (remove_process k) r h = remove-IsUnique k r h
apply-IsUnique (set_db k db) r h = update-IsUnique (changed (set_db k db)) (λ p. refl) k r h
apply-IsUnique (set_target k user host port) r h =
    update-IsUnique (changed (set_target k user host port)) (λ p. refl) k r h
apply-IsUnique (begin_command k command info now cancel) r h =
    update-IsUnique (changed (begin_command k command info now cancel)) (λ p. refl) k r h
apply-IsUnique (end_command k) r h = update-IsUnique (changed (end_command k)) (λ p. refl) k r h

-- By ID, without repetition.
abbrev pub IsIncreasing : List ProcessInfo → Type 0
IsIncreasing [] = Unit
IsIncreasing (p ∷ rest) = All (λ (q : ProcessInfo). p.id < q.id) rest × IsIncreasing rest

item-insert_by_id :
    (id : ℕ) (p : ProcessInfo) (l : List ProcessInfo)
    → item p.id l ≡ none
    → item id (insert_by_id p l) ≡ (if p.id == id then some p else item id l)
unfolding item insert_by_id
item-insert_by_id id p [] h = refl
item-insert_by_id id p (q ∷ rest) h = elim (Bool-cases (q.id == p.id)) [
  | inl e ↦ absurd (cc (rw (item, e) at h))
  | inr n ↦ ground (arith, n, item-insert_by_id id p rest (rw (item, n) at h))
]

insert_by_id-All :
    (k : ℕ) (p : ProcessInfo) (l : List ProcessInfo)
    → k < p.id
    → All (λ (q : ProcessInfo). k < q.id) l
    → All (λ (q : ProcessInfo). k < q.id) (insert_by_id p l)
unfolding insert_by_id
insert_by_id-All k p [] lt h = (lt, tt)
insert_by_id-All k p (q ∷ rest) lt (here, h) = elim (Bool-cases (ltb p.id q.id)) [
  | inl e ↦ rw (insert_by_id, e) (lt, (here, h))
  | inr n ↦ rw (insert_by_id, n) (here, insert_by_id-All k p rest lt h)
]

above_weaken :
    (j k : ℕ) (l : List ProcessInfo)
    → j < k
    → All (λ (q : ProcessInfo). k < q.id) l
    → All (λ (q : ProcessInfo). j < q.id) l
above_weaken j k [] lt h = tt
above_weaken j k (q ∷ rest) lt (here, h) = (omega arith, above_weaken j k rest lt h)

insert_by_id-IsIncreasing :
    (p : ProcessInfo) (l : List ProcessInfo)
    → item p.id l ≡ none
    → IsIncreasing l
    → IsIncreasing (insert_by_id p l)
unfolding insert_by_id item
insert_by_id-IsIncreasing p [] fresh h = (tt, tt)
insert_by_id-IsIncreasing p (q ∷ rest) fresh (above, h) = elim (Bool-cases (ltb p.id q.id)) [
  | inl e ↦
      let lt = ltb→lt p.id q.id e in
      rw (insert_by_id, e) ((lt, above_weaken p.id q.id rest lt above), (above, h))
  | inr n ↦ elim (Bool-cases (q.id == p.id)) [
    | inl same ↦ absurd (cc (rw (item, same) at fresh))
    | inr other ↦
        rw (insert_by_id, n)
          (
            insert_by_id-All q.id p rest (ground (arith, n, other)) above,
            insert_by_id-IsIncreasing p rest (rw (item, other) at fresh) h,
          )
  ]
]

item-snapshot : (r : List ProcessInfo) (id : ℕ) → IsUnique r → item id (snapshot r) ≡ item id r
unfolding snapshot item
item-snapshot [] id h = refl
item-snapshot (p ∷ rest) id (fresh, h) =
    item-insert_by_id id p (snapshot rest) (item-snapshot rest p.id h ∙ fresh)
    ∙ rw (item-snapshot rest id h) refl

snapshot-IsIncreasing : (r : List ProcessInfo) → IsUnique r → IsIncreasing (snapshot r)
unfolding snapshot
snapshot-IsIncreasing [] h = tt
snapshot-IsIncreasing (p ∷ rest) (fresh, h) =
    insert_by_id-IsIncreasing p (snapshot rest) (item-snapshot rest p.id h ∙ fresh)
      (snapshot-IsIncreasing rest h)

apply_all-view_of :
    (ops : List Operation) (r : List ProcessInfo) (view : ℕ → Option ProcessInfo)
    → ((id : ℕ) → item id r ≡ view id)
    → (id : ℕ) → item id (apply_all ops r) ≡ view_of ops view id
unfolding apply_all
apply_all-view_of [] r view h id = h id
apply_all-view_of (op ∷ rest) r view h id =
    apply_all-view_of rest (apply op r) (view_after op view)
      (λ n. item-apply op r n ∙ ap (λ e. if target_id op == n then entry_after op e else e) (h n))
      id

apply_all-IsUnique :
    (ops : List Operation) (r : List ProcessInfo) → IsUnique r → IsUnique (apply_all ops r)
unfolding apply_all
apply_all-IsUnique [] r h = h
apply_all-IsUnique (op ∷ rest) r h = apply_all-IsUnique rest (apply op r) (apply-IsUnique op r h)

-- After any sequence of operations, the snapshot lists the connections by ID without repetition, and shows for
-- each ID what the operations on this ID alone make of it.
pub snapshot-view_of :
    (ops : List Operation)
    → IsIncreasing (snapshot (apply_all ops []))
      × ((id : ℕ) → item id (snapshot (apply_all ops [])) ≡ view_of ops (λ n. none) id)
unfolding item
snapshot-view_of ops =
    let unique = apply_all-IsUnique ops [] tt in
    (
      snapshot-IsIncreasing (apply_all ops []) unique,
      λ id.
          item-snapshot (apply_all ops []) id unique
          ∙ apply_all-view_of ops [] (λ n. none) (λ n. refl) id,
    )
