-- ===== src/Metadata/Alter/Created.antt =====
-- The name of a table that internal/metadata/snapshot.go builds from a CREATE TABLE.
use goinception_plus.Prelude.{◌≡◌, refl, false, List, [], ◌∷◌, arith}
use goinception_plus.Model.{ColumnSpec, IndexSpec, DdlSpec}
use goinception_plus.Audit.Types.{Table}
use goinception_plus.Metadata.Alter.{
  add_created_column, add_created_columns, put_created_index, put_created_indexes, table_from_spec,
}

abbrev SameName : Table → Table → Type 0
SameName t u = (t.schema ≡ u.schema) × (t.name ≡ u.name)

add_created_columns-SameName :
    (specs : List ColumnSpec) (t : Table) → SameName (add_created_columns specs t) t
unfolding add_created_columns
add_created_columns-SameName [] t = (refl, refl)
add_created_columns-SameName (c ∷ rest) t =
    let ih = add_created_columns-SameName rest (add_created_column c t) in ground (arith, ih)

put_created_indexes-SameName :
    (specs : List IndexSpec) (t : Table) → SameName (put_created_indexes specs t) t
unfolding put_created_indexes
put_created_indexes-SameName [] t = (refl, refl)
put_created_indexes-SameName (i ∷ rest) t =
    let ih = put_created_indexes-SameName rest (put_created_index i t) in ground (arith, ih)

pub table_from_spec-SameName :
    (d : DdlSpec) → ((table_from_spec d).schema ≡ d.schema) × ((table_from_spec d).name ≡ d.table)
unfolding table_from_spec
table_from_spec-SameName d = ground (
  arith,
  put_created_indexes-SameName d.indexes (columns_added),
  add_created_columns-SameName d.columns start,
)
  where
    start : Table
    start = record {
      schema = d.schema;
      name = d.table;
      create_sql = [];
      columns = [];
      indexes = [];
      is_view = false;
      character_set = d.character_set;
      collation = d.collation;
      engine = d.engine;
      table_type = [];
      comment = [];
      rows = 0;
    }

    columns_added : Table
    columns_added = add_created_columns d.columns start
