-- ===== src/Backup/Store/Plan.antt =====
-- internal/backup/mysqlstore/store.go: the statements that a successful `Save` has run.
use goinception_plus.Prelude.{
  not, Option, none, List, [], ◌∷◌, ◌++◌, map, ◌≡◌, if◌then◌else◌, keep, is_empty,
}
use goinception_plus.Strings.{Text}
use goinception_plus.Audit.Types.{Error}
use goinception_plus.Execution.{Operation}
use goinception_plus.Execution.Rollbacks.{RollbackRecord}
use goinception_plus.Backup.Store.{
  Argument, text, Server, Group, records, storage_table, create_database_sql,
  create_information_sql, create_storage_sql, insert_rollback_sql, insert_information_sql,
  information_arguments,
}

pub data Command : Type 0 where
  outside : Text → Command
  begin_it : Command
  inside : Text → List Argument → Command
  commit_it : Command

-- One row for each record with SQL.
abbrev pub row_plan : Text → Text → Text → List RollbackRecord → List Command
row_plan db table opid l =
    map
      (λ (r : RollbackRecord). inside (insert_rollback_sql db table) (text r.sql ∷ text opid ∷ []))
      (keep (λ r. not (is_empty r.sql)) l)

abbrev pub table_plan : Operation → Group → List Command
table_plan op g =
    let db = g.database in
    let table = storage_table (records g) in
    (if is_empty table then [] else inside (create_storage_sql db table) [] ∷ [])
    ++ (row_plan db table op.opid (records g)
        ++ (inside (insert_information_sql db) (information_arguments op g.first) ∷ []))

abbrev pub group_plan : Operation → Group → List Command
group_plan op g =
    outside (create_database_sql g.database)
    ∷ outside (create_information_sql g.database)
    ∷ begin_it
    ∷ (table_plan op g ++ (commit_it ∷ []))

abbrev pub plan : Operation → List Group → List Command
plan op [] = []
plan op (g ∷ rest) = group_plan op g ++ plan op rest

module _ (server : Server) where
  open server use {World, exec, begin, tx_exec, commit, rollback}

  abbrev pub perform : Command → World → Option Error × World
  perform (outside sql) w = exec sql w
  perform begin_it w = begin w
  perform (inside sql arguments) w = tx_exec sql arguments w
  perform commit_it w = commit w

  -- The commands all succeed, one after another.
  abbrev pub RunsTo : List Command → World → World → Type 0
  RunsTo [] w w' = w ≡ w'
  RunsTo (c ∷ rest) w w' = (v : World) × (perform c w ≡ (none, v)) × RunsTo rest v w'

  -- A call has run the commands if it succeeds.
  abbrev Runs : List Command → (World → Option Error × World) → Type 0
  Runs l a = (w w' : World) → a w ≡ (none, w') → RunsTo l w w'
