-- ===== src/Tests/Metadata.antt =====
-- Examples of the theorems on the snapshot and its cache.
use goinception_plus.Prelude.{
  true, none, some, map, [], ◌∷◌, if◌then◌else◌, text_eq, ◌≡◌, refl, ◌↔◌, any, arith, text_beq, inl,
}
use goinception_plus.Strings.{txt, to_lower, lower_rune}
use goinception_plus.Strings.Fold.{equal_fold}
use goinception_plus.Model.{ColumnSpec, DdlAction, DdlSpec, AlterAction}
use goinception_plus.Audit.Types.{Table, metadata_not_found, ok, err}
use goinception_plus.Metadata.Names.{IsDistinct, find_named, modify_at}
use goinception_plus.Metadata.Table.{column_name, find_column, change_column, rename_column}
use goinception_plus.Metadata.Alter.{apply_table_ddl, apply_operations, apply_operation}
use goinception_plus.Metadata.Alter.Invariant.{IsWellFormed}
use goinception_plus.Metadata.Alter.Invariant.Statements.{apply_table_ddl-IsWellFormed}
use goinception_plus.Metadata.Alter.Invariant.Duplicates.{change_column-duplicates}
use goinception_plus.Metadata.Cache.{table_key, normalize}
use goinception_plus.Metadata.Cache.Laws.{view, table_key-injective}
use goinception_plus.Metadata.Snapshot.{prepare_ddl, apply_ddl, exists_error}
use goinception_plus.Metadata.Snapshot.Laws.Spec.{apply_spec}
use goinception_plus.Metadata.Snapshot.Laws.Refinement.{Shows}
use goinception_plus.Metadata.Snapshot.Laws.Accepted.{Creates}
use goinception_plus.Metadata.Snapshot.Laws.Accepting.{prepare_ddl-Accepts}
use goinception_plus.Metadata.Snapshot.Laws.Applying.{apply_ddl-AppliesAs}
use goinception_plus.Metadata.Snapshot.Laws.Effects.{
  named_by, prepare_ddl-apply_ddl_create, view-apply_ddl_drop, view-apply_ddl_drop_database,
}
use goinception_plus.Tests.Data.{
  app, users, column, index, column_spec, operation, ddl, content, source, start, source-IsStable,
  content-AgreesOnKeys, start-Shows,
}

abbrev age : DdlSpec
age = record (ddl DdlAction.alter_table (txt "Users")) {
  alter_operations =
      operation AlterAction.add_columns [] [] (column_spec (txt "age") ∷ [])
      ∷ operation AlterAction.drop_column (txt "ID") [] []
      ∷ [];
}

-- CREATE TABLE copy LIKE Users
abbrev copy_of_users : DdlSpec
copy_of_users = record (ddl DdlAction.create_table (txt "copy")) {
  create_like = true;
  reference = some (record { schema = []; name = txt "Users"; alias = [] });
}

prepare_ddl-Accepts_example :
    (((prepare_ddl source copy_of_users start).0 ≡ none)
      ↔ Creates content copy_of_users (prepare_ddl source copy_of_users start).1)
    × Shows source content source-IsStable true content-AgreesOnKeys content
        (prepare_ddl source copy_of_users start).2
prepare_ddl-Accepts_example =
    prepare_ddl-Accepts source content source-IsStable true content-AgreesOnKeys content
      copy_of_users start start-Shows refl

-- The copy is accepted with the columns of the table.
copy_columns :
    ((prepare_ddl source copy_of_users start).0 ≡ none)
    × (map (λ (c : ColumnSpec). c.name) (prepare_ddl source copy_of_users start).1.columns
        ≡ txt "id" ∷ txt "Name" ∷ [])
unfolding prepare_ddl goinception_plus.Metadata.Cache.table_of text_beq to_lower
    goinception_plus.Metadata.Snapshot.derive_flags
    goinception_plus.Metadata.Snapshot.columns_from_table
copy_columns = (refl, refl)

apply_ddl-AppliesAs_example :
    ((apply_ddl source age start).0 ≡ (apply_spec true age content).0)
    × Shows source content source-IsStable true content-AgreesOnKeys
        (apply_spec true age content).1
        (apply_ddl source age start).1
apply_ddl-AppliesAs_example =
    apply_ddl-AppliesAs source content source-IsStable true content-AgreesOnKeys content age start
      start-Shows

abbrev create_orders : DdlSpec
create_orders = ddl DdlAction.create_table (txt "orders")

abbrev create_again : DdlSpec
create_again = ddl DdlAction.create_table (txt "Orders")

prepare_ddl-apply_ddl_create_example :
    (prepare_ddl source create_again (apply_ddl source create_orders start).1).0
    ≡ some (exists_error "table %s.%s already exists" app (txt "Orders"))
unfolding table_key normalize to_lower lower_rune
prepare_ddl-apply_ddl_create_example =
    prepare_ddl-apply_ddl_create source content source-IsStable true content-AgreesOnKeys content
      create_orders create_again start start-Shows (refl, refl, refl) refl refl refl

abbrev drop_users : DdlSpec
drop_users = ddl DdlAction.drop_table (txt "users")

view-apply_ddl_drop_example :
    view source content (apply_ddl source drop_users start).1 app (txt "users") ≡ (
      if any (named_by true app app (txt "users")) drop_users.tables
      then err metadata_not_found
      else view source content start app (txt "users"))
view-apply_ddl_drop_example =
    view-apply_ddl_drop source content source-IsStable true content-AgreesOnKeys content drop_users
      start start-Shows (refl, refl, refl) app (txt "users")

view-apply_ddl_drop_database_example :
    view source content
      (apply_ddl source (ddl DdlAction.drop_database []) start).1
      app
      (txt "users")
    ≡ view source content start app (txt "users")
view-apply_ddl_drop_database_example =
    view-apply_ddl_drop_database source content (ddl DdlAction.drop_database []) start refl app
      (txt "users")

users-IsWellFormed : IsWellFormed users
unfolding to_lower lower_rune
users-IsWellFormed = record {
  columns_distinct = ((λ e. absurd (cc e), tt), (tt, tt));
  indexes_distinct = (tt, tt);
  references = ((inl refl, tt), tt);
}

abbrev rename_id : DdlSpec
rename_id = record (ddl DdlAction.alter_table (txt "users")) {
  alter_operations = operation AlterAction.rename_column (txt "id") (txt "uid") [] ∷ [];
}

abbrev users_renamed : Table
users_renamed = record users {
  columns = column (txt "uid") ∷ column (txt "Name") ∷ [];
  indexes = index (txt "PRIMARY") (txt "uid" ∷ []) ∷ [];
}

rename_id-users : apply_table_ddl rename_id users ≡ ok users_renamed
unfolding apply_table_ddl apply_operations apply_operation rename_column find_named equal_fold
    text_beq to_lower modify_at
rename_id-users = refl

apply_table_ddl-IsWellFormed_example : IsWellFormed users_renamed
apply_table_ddl-IsWellFormed_example =
    apply_table_ddl-IsWellFormed rename_id users users_renamed (tt, λ t' e. tt) users-IsWellFormed
      rename_id-users

change_column-duplicates_example :
    (t' : Table) × (change_column (txt "id") (column_spec (txt "NAME") ∷ []) users ≡ ok t')
    × (¬ IsDistinct column_name t'.columns)
unfolding find_column find_named equal_fold text_beq to_lower lower_rune
change_column-duplicates_example =
    change_column-duplicates (txt "id") (column_spec (txt "NAME")) users 0 1 refl refl
      (λ e. absurd (omega arith))

table_key-injective_example :
    (table_key true (txt "a") (txt "B") ≡ table_key true (txt "A") (txt "b")) ↔ (
      (normalize true (txt "a") ≡ normalize true (txt "A"))
      × (normalize true (txt "B") ≡ normalize true (txt "b")))
unfolding normalize to_lower lower_rune
table_key-injective_example =
    table_key-injective true (txt "a") (txt "B") (txt "A") (txt "b") (λ e. absurd (omega arith), tt)
      (λ e. absurd (omega arith), tt)
