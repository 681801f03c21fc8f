-- ===== src/Rules/ReliableKey.antt =====
-- internal/audit/rules/dml.go: the test for a key that identifies the rows of a table.
use goinception_plus.Prelude.{
  Bool, true, false, not, ◌&&◌, ◌||◌, List, [], ◌∷◌, if◌then◌else◌, is_empty,
}
use goinception_plus.Strings.{Text}
use goinception_plus.Strings.Fold.{equal_fold}
use goinception_plus.Audit.Types.{Column, Index, Table}

-- The first column of the name is not nullable; a name without a column is not reliable.
unfoldable pub column_reliable : List Column → Text → Bool
column_reliable [] name = false
column_reliable (c ∷ rest) name =
    if equal_fold c.name name then not c.nullable else column_reliable rest name

unfoldable pub columns_reliable : List Column → List Text → Bool
unfolding column_reliable
columns_reliable columns [] = true
columns_reliable columns (name ∷ rest) =
    column_reliable columns name && columns_reliable columns rest

unfoldable pub any_reliable : List Column → List Index → Bool
unfolding columns_reliable
any_reliable columns [] = false
any_reliable columns (i ∷ rest) =
    (i.primary && not (is_empty i.columns))
    || (i.unique && not (is_empty i.columns) && columns_reliable columns i.columns)
    || any_reliable columns rest

unfoldable pub has_reliable_key : Table → Bool
unfolding any_reliable
has_reliable_key t = any_reliable t.columns t.indexes
