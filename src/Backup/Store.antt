-- ===== src/Backup/Store.antt =====
-- internal/backup/mysqlstore/store.go: `Save` and what it calls. The calls of `database/sql` on the backup
-- server are behind an interface whose state is threaded through them; the order in which Go visits
-- the groups of the map is a parameter.
pub mod Names
pub mod Groups
pub mod Plan
-- A string is the list of its UTF-8 bytes.
use goinception_plus.Prelude.{
  ℕ, ◌-◌, Bool, true, false, not, ◌||◌, Option, none, some, List, [], ◌∷◌, ◌++◌, map, if◌then◌else◌,
  ◌==◌, nat_eq, text_eq, length, ltb, drop, is_empty,
}
use goinception_plus.Strings.{Text, txt}
use goinception_plus.Strings.Format.{sprintf, itoa}
use goinception_plus.Model.{StatementKind, TargetOptions}
use goinception_plus.Audit.Types.{Error, failure, Result, ok, err}
use goinception_plus.Rollback.Literal.{quote_ident}
use goinception_plus.Execution.{Operation}
use goinception_plus.Execution.Rollbacks.{RollbackRecord}

-- An argument for a placeholder of a statement.
pub data Argument : Type 0 where
  text : Text → Argument
  number : ℕ → Argument

-- The pool of connections to the backup server, and the transaction on it.
pub record Server : Type 1 where
  pub World : Type 0
  pub exec : Text → World → Option Error × World
  pub begin : World → Option Error × World
  pub tx_exec : Text → List Argument → World → Option Error × World
  pub commit : World → Option Error × World
  pub rollback : World → World

unfoldable pub information_table : Text
information_table = txt "$_$Inception_backup_information$_$"

unfoldable pub legacy_statement_type : StatementKind → Text
legacy_statement_type kind = elim kind [
  | StatementKind.insert ↦ txt "INSERT"
  | StatementKind.delete ↦ txt "DELETE"
  | StatementKind.update ↦ txt "UPDATE"
  | StatementKind.create_database ↦ txt "CREATEDB"
  | StatementKind.create_table ↦ txt "CREATETABLE"
  | StatementKind.alter_table ↦ txt "ALTERTABLE"
  | StatementKind.drop_table ↦ txt "DROPTABLE"
  | StatementKind.rename_table ↦ txt "RENAMETABLE"
  | StatementKind.create_index ↦ txt "CREATEINDEX"
  | StatementKind.drop_index ↦ txt "DROPINDEX"
  | _ ↦ txt "UNKNOWN"
]

unfoldable pub plain_rune : ℕ → ℕ
plain_rune c = if c == b'-' || c == b'.' then b'_' else c

-- The length is that of the bytes, as is that of every string of this file.
unfoldable pub backup_db_name : TargetOptions → Text → Text
unfolding plain_rune
backup_db_name source schema =
    let v = map plain_rune (sprintf "%s_%d_%s" (source.host ∷ itoa source.port ∷ schema ∷ [])) in
    if ltb 64 (length v) then drop (length v - 64) v else v

-- The records of one backup database, at least one.
pub record Group : Type 0 where
  pub database : Text
  pub first : RollbackRecord
  pub more : List RollbackRecord

abbrev pub records : Group → List RollbackRecord
records g = g.first ∷ g.more

-- `byDB[db] = append(byDB[db], r)`
unfoldable pub append_record : Text → RollbackRecord → List Group → List Group
append_record db r [] = record { database = db; first = r; more = [] } ∷ []
append_record db r (g ∷ rest) =
    let later = append_record db r rest in
    if g.database == db then record g { more = g.more ++ (r ∷ []) } ∷ rest else g ∷ later

unfoldable pub grouped : TargetOptions → List RollbackRecord → List Group → List Group
unfolding append_record
grouped source [] groups = groups
grouped source (r ∷ rest) groups =
    grouped source rest (append_record (backup_db_name source r.schema) r groups)

unfoldable pub storage_table : List RollbackRecord → Text
storage_table [] = []
storage_table (r ∷ rest) = if not (is_empty r.table) then r.table else storage_table rest

unfoldable pub in_database : Text → Text → Text
in_database db table = quote_ident db ++ (txt "." ++ quote_ident table)

unfoldable pub create_database_sql : Text → Text
create_database_sql db =
    txt "CREATE DATABASE IF NOT EXISTS " ++ (quote_ident db ++ txt " DEFAULT CHARACTER SET utf8mb4")

unfoldable pub create_information_sql : Text → Text
unfolding in_database information_table
create_information_sql db =
    txt "CREATE TABLE IF NOT EXISTS "
    ++ (in_database db information_table
        ++ txt
            " (opid_time varchar(50) PRIMARY KEY,start_binlog_file varchar(512),start_binlog_pos int,end_binlog_file varchar(512),end_binlog_pos int,sql_statement mediumtext,host varchar(128),dbname varchar(64),tablename varchar(64),port int,time timestamp,type varchar(20)) ENGINE=InnoDB DEFAULT CHARSET=utf8mb4")

unfoldable pub create_storage_sql : Text → Text → Text
unfolding in_database
create_storage_sql db table =
    txt "CREATE TABLE IF NOT EXISTS "
    ++ (in_database db table
        ++ txt
            " (id bigint auto_increment primary key,rollback_statement mediumtext,opid_time varchar(50),KEY idx_opid_time(opid_time)) ENGINE=InnoDB DEFAULT CHARSET=utf8mb4")

unfoldable pub insert_rollback_sql : Text → Text → Text
unfolding in_database
insert_rollback_sql db table =
    txt "INSERT INTO " ++ (in_database db table ++ txt "(rollback_statement,opid_time) VALUES(?,?)")

unfoldable pub insert_information_sql : Text → Text
unfolding in_database information_table
insert_information_sql db =
    txt "INSERT INTO "
    ++ (in_database db information_table ++ txt " VALUES(?,?,?,?,?,?,?,?,?,?,NOW(),?)")

unfoldable pub information_arguments : Operation → RollbackRecord → List Argument
unfolding legacy_statement_type
information_arguments op first =
    text op.opid
    ∷ text op.start.file
    ∷ number op.start.position
    ∷ text op.end.file
    ∷ number op.end.position
    ∷ text op.statement.original
    ∷ text op.source.host
    ∷ text first.schema
    ∷ text first.table
    ∷ number op.source.port
    ∷ text (legacy_statement_type op.statement.kind)
    ∷ []

abbrev pub records_of : Operation → List RollbackRecord
records_of op = elim op.rollbacks [
  | [] ↦ record { schema = op.schema; table = op.table; sql = [] } ∷ []
  | r ∷ rest ↦ r ∷ rest
]

module _ (server : Server) where
  open server use {World, exec, begin, tx_exec, commit, rollback}

  -- The second call, unless the first fails.
  infixr 5 ◌>>◌
  abbrev pub ◌>>◌ :
      (World → Option Error × World) → (World → Option Error × World) → World → Option Error × World
  (a >> b) w = let (e, w') = a w in elim e [ some x ↦ (some x, w') | none ↦ b w' ]

  unfoldable pub ensure_schema : Text → World → Option Error × World
  unfolding create_database_sql create_information_sql
  ensure_schema db = exec (create_database_sql db) >> exec (create_information_sql db)

  unfoldable pub create_storage : Text → Text → World → Option Error × World
  unfolding create_storage_sql
  create_storage db table w =
      if is_empty table then (none, w) else tx_exec (create_storage_sql db table) [] w

  unfoldable pub insert_rollbacks :
      Text → Text → Text → List RollbackRecord → World → Option Error × World
  unfolding insert_rollback_sql
  insert_rollbacks db table opid [] w = (none, w)
  insert_rollbacks db table opid (r ∷ rest) w =
      let later = insert_rollbacks db table opid rest in
      if is_empty r.sql
      then later w
      else if is_empty table
      then (some (failure (txt "rollback record has no primary table")), w)
      else (tx_exec (insert_rollback_sql db table) (text r.sql ∷ text opid ∷ []) >> later) w

  unfoldable pub save_group : Operation → Group → World → Option Error × World
  unfolding storage_table create_storage insert_rollbacks insert_information_sql
      information_arguments
  save_group op g =
      let table = storage_table (records g) in
      create_storage g.database table
      >> (insert_rollbacks g.database table op.opid (records g)
          >> tx_exec (insert_information_sql g.database) (information_arguments op g.first))

  -- The transaction of a group: rolled back when a statement of it fails.
  unfoldable pub transact : Operation → Group → World → Option Error × World
  unfolding save_group
  transact op g w =
      let (e, w') = save_group op g w in
      elim e [ some x ↦ (some x, rollback w') | none ↦ commit w' ]

  unfoldable pub save_groups : Operation → List Group → Text → World → Result Text × World
  unfolding ensure_schema transact
  save_groups op [] first w = (ok first, w)
  save_groups op (g ∷ rest) first w =
      let first' = if is_empty first then g.database else first in
      let (e, w') = (ensure_schema g.database >> (begin >> transact op g)) w in
      let later = save_groups op rest first' w' in elim e [ some x ↦ (err x, w') | none ↦ later ]

  -- `order` is the order in which the map of the groups is visited.
  unfoldable pub save : (List Group → List Group) → Operation → World → Result Text × World
  unfolding grouped save_groups
  save order op = save_groups op (order (grouped op.source (records_of op) [])) []
