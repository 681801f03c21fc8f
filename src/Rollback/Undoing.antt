-- ===== src/Rollback/Undoing.antt =====
-- When a text undoes a row change, for the SQL of internal/rollback/generator.go.
use goinception_plus.Prelude.{
  ℕ, true, false, some, List, [], ◌∷◌, ◌++◌, map, Memᴰ, nat_eq, get_elem?, is_empty, ◌≡◌, ◌⊎◌, All,
}
use goinception_plus.Strings.{Text, txt, join, to_lower}
use goinception_plus.Audit.Types.{Column, Index, Table}
use goinception_plus.Rollback.Literal.{Value, nil, quote_ident, literal_column}
use goinception_plus.Rollback.{ChangeType, RowChange}

-- A condition on one column of the key.
pub record Condition : Type 0 where
  pub name : Text
  pub position : ℕ
  pub column : Column
  pub value : Value

abbrev pub condition_text : Condition → Text
condition_text c =
    quote_ident c.name
    ++ elim c.value [ nil ↦ txt " IS NULL" | v ↦ b'=' ∷ literal_column c.column v ]

-- The condition is about the column of its name, and the row fulfils it.
pub record Holds (t : Table) (row : List Value) (c : Condition) : Type 0 where
  pub column : get_elem? t.columns c.position ≡ some c.column
  pub named : to_lower c.column.name ≡ to_lower c.name
  pub value : get_elem? row c.position ≡ some c.value

-- A primary or unique index of the table.
abbrev pub IsKey : Table → Index → Type 0
IsKey t k = Memᴰ k t.indexes × ((k.primary ≡ true) ⊎ (k.unique ≡ true))

-- The conditions are those of all columns of a key on the row.
pub record Identifies (t : Table) (row : List Value) (conditions : List Condition) : Type 0 where
  pub key : (k : Index) × IsKey t k × (map (λ (c : Condition). c.name) conditions ≡ k.columns)
  pub some_column : is_empty conditions ≡ false
  pub holds : All (Holds t row) conditions

abbrev pub where_text : List Condition → Text
where_text conditions = join (map condition_text conditions) (txt " AND ")

-- The columns with the literals of the row.
abbrev pub literals_of : List Column → List Value → List Text
literals_of (c ∷ columns) (v ∷ row) = literal_column c v ∷ literals_of columns row
literals_of columns row = []

abbrev pub assignments_of : List Column → List Value → List Text
assignments_of (c ∷ columns) (v ∷ row) =
    (quote_ident c.name ++ (b'=' ∷ literal_column c v)) ∷ assignments_of columns row
assignments_of columns row = []

abbrev pub table_text : Table → Text
table_text t = quote_ident t.schema ++ (b'.' ∷ quote_ident t.name)

abbrev pub columns_text : Table → Text
columns_text t = join (map (λ (c : Column). quote_ident c.name) t.columns) (txt ",")

-- The text undoes the change: an inserted row is deleted by the key of the row that is there now, a deleted row
-- is inserted again, and an updated row, found by the key of its new values, gets its old values.
abbrev pub Undoes : Text → RowChange → Type 0
Undoes sql c = elim c.type [
  | ChangeType.insert ↦
      (conditions : List Condition) × Identifies c.table c.after conditions
      × (sql
          ≡ txt "DELETE FROM "
            ++ (table_text c.table
                ++ (txt " WHERE " ++ (where_text conditions ++ txt " LIMIT 1;"))))
  | ChangeType.delete ↦
      sql
      ≡ txt "INSERT INTO "
        ++ (table_text c.table
            ++ (txt " ("
                ++ (columns_text c.table
                    ++ (txt ") VALUES ("
                        ++ (join (literals_of c.table.columns c.before) (txt ",") ++ txt ");")))))
  | ChangeType.update ↦
      (conditions : List Condition) × Identifies c.table c.after conditions
      × (sql
          ≡ txt "UPDATE "
            ++ (table_text c.table
                ++ (txt " SET "
                    ++ (join (assignments_of c.table.columns c.before) (txt ",")
                        ++ (txt " WHERE " ++ (where_text conditions ++ txt " LIMIT 1;"))))))
]
