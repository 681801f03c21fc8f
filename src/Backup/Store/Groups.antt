-- ===== src/Backup/Store/Groups.antt =====
-- internal/backup/mysqlstore/store.go: the map from databases to their rollback records in `Save`.
use goinception_plus.Prelude.{
  Bool, true, false, List, [], ◌∷◌, ◌++◌, ◌≡◌, refl, inl, inr, Bool-cases, ◌==◌, text_eq, ap, ◌∙◌,
  sym, if◌then◌else◌, keep, append_assoc, append-nil, text_beq_iff, All, ◌≢◌,
}
use goinception_plus.Strings.{Text}
use goinception_plus.Model.{TargetOptions}
use goinception_plus.Execution.Rollbacks.{RollbackRecord}
use goinception_plus.Backup.Store.{Group, records, append_record, backup_db_name, grouped}

-- The records of the first group of a database.
unfoldable pub records_in : Text → List Group → List RollbackRecord
records_in db [] = []
records_in db (g ∷ rest) = if g.database == db then records g else records_in db rest

-- The records whose database it is.
abbrev pub of_database : TargetOptions → Text → List RollbackRecord → List RollbackRecord
of_database source db = keep (λ r. backup_db_name source r.schema == db)

records_in-append_record :
    (db name : Text) (r : RollbackRecord) (groups : List Group)
    → records_in db (append_record name r groups)
      ≡ records_in db groups ++ (if name == db then r ∷ [] else [])
unfolding records_in append_record
records_in-append_record db name r [] = elim (Bool-cases (name == db)) [
  | inl e ↦ rw e refl
  | inr e ↦ rw e refl
]
records_in-append_record db name r (g ∷ rest) = elim (Bool-cases (g.database == name)) [
  | inl e ↦
      let same = ap (λ n. n == db) ((text_beq_iff g.database name).0 e) in
      elim (Bool-cases (name == db)) [
        | inl here ↦ rw (e, same, here) refl
        | inr there ↦ rw (e, same, there) (sym (append-nil (records_in db rest)))
      ]
  | inr e ↦ elim (Bool-cases (g.database == db)) [
    | inl here ↦
        let elsewhere : (name == db) ≡ false = elim (Bool-cases (name == db)) [
          | inl same ↦ absurd (
              cc (
                e,
                (text_beq_iff g.database name).1
                    ((text_beq_iff g.database db).0 here ∙ sym ((text_beq_iff name db).0 same)),
              ))
          | inr other ↦ other
        ] in
        rw (e, here, elsewhere) (sym (append-nil (records g)))
    | inr there ↦ rw (e, there) (records_in-append_record db name r rest)
  ]
]

if_append :
    (b : Bool) (r : RollbackRecord) (l : List RollbackRecord)
    → (if b then r ∷ [] else []) ++ l ≡ (if b then r ∷ l else l)
if_append true r l = refl
if_append false r l = refl

-- No group has the name; no two groups have the same.
abbrev pub IsUnused : Text → List Group → Type 0
IsUnused db = All (λ g. g.database ≢ db)

abbrev pub HasDistinctNames : List Group → Type 0
HasDistinctNames [] = Unit
HasDistinctNames (g ∷ rest) = IsUnused g.database rest × HasDistinctNames rest

append_record-IsUnused :
    (db name : Text) (r : RollbackRecord) (groups : List Group)
    → name ≢ db
    → IsUnused db groups
    → IsUnused db (append_record name r groups)
unfolding append_record
append_record-IsUnused db name r [] other unused = (other, tt)
append_record-IsUnused db name r (g ∷ rest) other (here, unused) =
    elim (Bool-cases (g.database == name)) [
      | inl e ↦ rw (append_record, e) (here, unused)
      | inr e ↦ rw (append_record, e) (here, append_record-IsUnused db name r rest other unused)
    ]

append_record-HasDistinctNames :
    (name : Text) (r : RollbackRecord) (groups : List Group)
    → HasDistinctNames groups
    → HasDistinctNames (append_record name r groups)
unfolding append_record
append_record-HasDistinctNames name r [] distinct = (tt, tt)
append_record-HasDistinctNames name r (g ∷ rest) (unused, distinct) =
    elim (Bool-cases (g.database == name)) [
      | inl e ↦ rw (append_record, e) (unused, distinct)
      | inr e ↦
          rw (append_record, e)
            (
              append_record-IsUnused g.database name r rest
                  (λ same. cc (e, (text_beq_iff g.database name).1 (sym same))) unused,
              append_record-HasDistinctNames name r rest distinct,
            )
    ]

grouped-HasDistinctNames :
    (source : TargetOptions) (l : List RollbackRecord) (groups : List Group)
    → HasDistinctNames groups
    → HasDistinctNames (grouped source l groups)
unfolding grouped
grouped-HasDistinctNames source [] groups distinct = distinct
grouped-HasDistinctNames source (r ∷ rest) groups distinct =
    let name = backup_db_name source r.schema in
    grouped-HasDistinctNames source rest (append_record name r groups)
      (append_record-HasDistinctNames name r groups distinct)

records_in-grouped :
    (source : TargetOptions) (db : Text) (l : List RollbackRecord) (groups : List Group)
    → records_in db (grouped source l groups) ≡ records_in db groups ++ of_database source db l
unfolding grouped keep
records_in-grouped source db [] groups = sym (append-nil (records_in db groups))
records_in-grouped source db (r ∷ rest) groups =
    let name = backup_db_name source r.schema in
    records_in-grouped source db rest (append_record name r groups)
    ∙ ap (λ l. l ++ of_database source db rest) (records_in-append_record db name r groups)
    ∙ append_assoc (records_in db groups) (if name == db then r ∷ [] else [])
        (of_database source db rest)
    ∙ ap (λ l. records_in db groups ++ l) (if_append (name == db) r (of_database source db rest))

-- `Save` makes one group for each backup database, and the group of a database holds the rollback records
-- whose schemas have that database, all of them and in order.
pub grouped-of_database :
    (source : TargetOptions) (l : List RollbackRecord)
    → HasDistinctNames (grouped source l [])
      × ((db : Text) → records_in db (grouped source l []) ≡ of_database source db l)
unfolding records_in
grouped-of_database source l =
    (grouped-HasDistinctNames source l [] tt, λ db. records_in-grouped source db l [])
