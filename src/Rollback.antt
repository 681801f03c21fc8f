-- ===== src/Rollback.antt =====
-- internal/rollback/generator.go: the SQL that undoes one row change, and what it needs of the
-- table. The row images are those of internal/backup/backup.go.
pub mod Literal
pub mod Quoting
pub mod Keys
pub mod Undoing
pub mod Restoring
use goinception_plus.Prelude.{
  ℕ, String, Bool, true, false, not, ◌&&◌, ◌||◌, Option, none, some, List, [], ◌∷◌, ◌++◌, map,
  if◌then◌else◌, ◌==◌, nat_eq, length, get_elem?, is_empty,
}
use goinception_plus.Strings.{Text, txt, join}
use goinception_plus.Strings.Fold.{equal_fold}
use goinception_plus.Strings.Format.{sprintf}
use goinception_plus.Audit.Types.{Column, Index, Table, Error, failure, Result, ok, err, ◌>>=◌}
use goinception_plus.Metadata.Names.{find_named}
use goinception_plus.Metadata.Table.{column_name}
use Literal.{Value, is_nil, literal_column, quote_ident}

pub data ChangeType : Type 0 where
  insert update delete : ChangeType

pub record RowChange : Type 0 where
  pub sequence : ℕ
  pub type : ChangeType
  pub table : Table
  pub before : List Value
  pub after : List Value

-- The inner loop of `nonNullIndex`: the first column of the name is not nullable.
unfoldable pub is_non_null : List Column → Text → Bool
is_non_null [] name = false
is_non_null (c ∷ rest) name =
    if equal_fold c.name name then not c.nullable else is_non_null rest name

unfoldable pub all_non_null : List Column → List Text → Bool
unfolding is_non_null
all_non_null columns [] = true
all_non_null columns (name ∷ rest) = is_non_null columns name && all_non_null columns rest

unfoldable pub non_null_index : Table → Index → Bool
unfolding all_non_null
non_null_index t i = not (is_empty i.columns) && all_non_null t.columns i.columns

unfoldable pub first_primary : List Index → Option Index
first_primary [] = none
first_primary (i ∷ rest) = if i.primary then some i else first_primary rest

unfoldable pub first_unique : Table → List Index → Option Index
unfolding non_null_index
first_unique t [] = none
first_unique t (i ∷ rest) = if i.unique && non_null_index t i then some i else first_unique t rest

-- The key by which a row is found again.
unfoldable pub rollback_key : Table → Option Index
unfolding first_primary first_unique
rollback_key t = elim (first_primary t.indexes) [
  | some i ↦ some i
  | none ↦ first_unique t t.indexes
]

absent_error : Text → Error
absent_error name = failure (sprintf "key column %s is absent from FULL row image" (name ∷ []))

unfoldable pub part_text : Text → Column → Value → Text
part_text name column value =
    if is_nil value
    then quote_ident name ++ txt " IS NULL"
    else quote_ident name ++ (txt "=" ++ literal_column column value)

unfoldable pub key_part : Table → List Value → Text → Result Text
unfolding find_named absent_error part_text
key_part t row name = elim (find_named column_name name t.columns) [
  | none ↦ err (absent_error name)
  | some pos ↦ elim (get_elem? row pos) [
    | none ↦ err (absent_error name)
    | some value ↦ elim (get_elem? t.columns pos) [
      | none ↦ err (absent_error name)
      | some column ↦ ok (part_text name column value)
    ]
  ]
]

unfoldable pub key_parts : Table → List Value → List Text → Result (List Text)
unfolding key_part
key_parts t row [] = ok []
key_parts t row (name ∷ rest) =
    key_part t row name >>= λ part. key_parts t row rest >>= λ parts. ok (part ∷ parts)

unfoldable pub no_key_error : Error
no_key_error = failure (txt "no reliable primary or unique key")

unfoldable pub key_where : Table → List Value → Result Text
unfolding rollback_key key_parts no_key_error
key_where t row = elim (rollback_key t) [
  | none ↦ err no_key_error
  | some key ↦
      if is_empty key.columns
      then err no_key_error
      else key_parts t row key.columns >>= λ parts. ok (join parts (txt " AND "))
]

unfoldable pub literals : List Column → List Value → List Text
literals [] row = []
literals (c ∷ columns) [] = []
literals (c ∷ columns) (v ∷ row) = literal_column c v ∷ literals columns row

unfoldable pub assignments : List Column → List Value → List Text
assignments [] row = []
assignments (c ∷ columns) [] = []
assignments (c ∷ columns) (v ∷ row) =
    (quote_ident c.name ++ (txt "=" ++ literal_column c v)) ∷ assignments columns row

unfoldable pub mismatch_error : Error
mismatch_error = failure (txt "row image column count mismatch")

unfoldable pub insert_text : Table → List Value → Text
unfolding literals
insert_text t row = sprintf "INSERT INTO %s.%s (%s) VALUES (%s);" (
    quote_ident t.schema
    ∷ quote_ident t.name
    ∷ join (map (λ (c : Column). quote_ident c.name) t.columns) (txt ",")
    ∷ join (literals t.columns row) (txt ",")
    ∷ [])

unfoldable pub delete_text : Table → Text → Text
delete_text t clause =
    sprintf "DELETE FROM %s.%s WHERE %s LIMIT 1;"
      (quote_ident t.schema ∷ quote_ident t.name ∷ clause ∷ [])

unfoldable pub update_text : Table → List Value → Text → Text
unfolding assignments
update_text t before clause = sprintf "UPDATE %s.%s SET %s WHERE %s LIMIT 1;" (
    quote_ident t.schema
    ∷ quote_ident t.name
    ∷ join (assignments t.columns before) (txt ",")
    ∷ clause
    ∷ [])

unfoldable pub insert_sql : Table → List Value → Result Text
unfolding insert_text mismatch_error
insert_sql t row =
    if length row == length t.columns then ok (insert_text t row) else err mismatch_error

unfoldable pub delete_sql : Table → List Value → Result Text
unfolding key_where delete_text
delete_sql t row = key_where t row >>= λ clause. ok (delete_text t clause)

unfoldable pub update_sql : Table → List Value → List Value → Result Text
unfolding key_where update_text mismatch_error
update_sql t before after =
    if length before == length t.columns && length after == length t.columns
    then (key_where t after >>= λ clause. ok (update_text t before clause))
    else err mismatch_error

unfoldable pub generate : RowChange → Result Text
unfolding insert_sql delete_sql update_sql
generate change =
    if is_empty change.table.columns
    then err (failure (txt "table metadata has no columns"))
    else elim change.type [
      | ChangeType.insert ↦ delete_sql change.table change.after
      | ChangeType.delete ↦ insert_sql change.table change.before
      | ChangeType.update ↦ update_sql change.table change.before change.after
    ]
