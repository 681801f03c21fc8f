-- ===== src/Tests/Backup.antt =====
-- Examples of the theorems on the capture of row changes and the backup store.
use goinception_plus.Prelude.{
  ℕ, Bool, true, false, Option, none, List, [], ◌∷◌, ◌++◌, ◌≡◌, ◌≤◌, refl, arith, All, leb,
  if◌then◌else◌, length,
}
use goinception_plus.Prelude.Int.{pos}
use goinception_plus.Strings.{Text, txt, lower_rune, to_lower}
use goinception_plus.Model.{StatementKind, TargetOptions}
use goinception_plus.Audit.Types.{failure, ok}
use goinception_plus.Execution.{BinlogPosition, Operation}
use goinception_plus.Execution.Rollbacks.{RollbackRecord}
use goinception_plus.Rollback.{ChangeType, RowChange}
use goinception_plus.Rollback.Literal.{integer, nil}
use goinception_plus.Rollback.Keys.{HasFullImages}
use goinception_plus.Backup.Capture.{RowsEvent, EventBody, BinlogEvent, Stream, collect}
use goinception_plus.Backup.Capture.Owners.{IsOwned, collect-IsOwned}
use goinception_plus.Backup.Capture.Images.{HasWideRows, collect-HasFullImages}
use goinception_plus.Backup.Capture.Reach.{collect_stops}
use goinception_plus.Backup.Store.{Server, Group, backup_db_name, grouped, save}
use goinception_plus.Backup.Store.Names.{IsPlain, backup_db_name_bounds}
use goinception_plus.Backup.Store.Groups.{
  HasDistinctNames, records_in, of_database, grouped-of_database,
}
use goinception_plus.Tests.Data.{app, users, source, statement}

abbrev at : ℕ → BinlogPosition
at n = record { file = txt "mysql-bin.1"; position = n }

abbrev reached : BinlogPosition → BinlogPosition → Bool
reached a b = leb b.position a.position

abbrev event : ℕ → EventBody → BinlogEvent
event n body = record { log_pos = n; body = body }

abbrev deleted : RowsEvent
deleted = record {
  kind = ChangeType.delete;
  table = Option.some (app, txt "users");
  column_count = 2;
  rows = (integer (pos 7) ∷ nil ∷ []) ∷ [];
}

-- The rows of thread 7 stand between those of another.
abbrev events : List BinlogEvent
events =
    event 10 (EventBody.query 3)
    ∷ event 20 (EventBody.rows deleted)
    ∷ event 30 EventBody.xid
    ∷ event 40 (EventBody.query 7)
    ∷ event 50 (EventBody.rows deleted)
    ∷ event 60 EventBody.xid
    ∷ []

abbrev stream : Stream
stream = record { unstarted = none; events = events; ending = failure (txt "deadline") }

abbrev captured : List RowChange
captured =
    record {
      sequence = 0;
      type = ChangeType.delete;
      table = users;
      before = integer (pos 7) ∷ nil ∷ [];
      after = [];
    }
    ∷ []

collected : collect source reached stream (at 4) (at 60) 7 1 0 ≡ (ok captured, 1)
unfolding collect goinception_plus.Prelude.text_beq goinception_plus.Backup.Capture.position_after
    goinception_plus.Backup.Capture.owner_after goinception_plus.Metadata.Cache.table_key to_lower
collected = refl

collect-IsOwned_example : All (IsOwned 7 events) captured
collect-IsOwned_example =
    collect-IsOwned source reached stream (at 4) (at 60) 7 1 0 1 captured
      (λ e. absurd (omega arith)) collected

events-HaveWideRows : All HasWideRows events
events-HaveWideRows = (tt, ((refl, tt), (tt, (tt, ((refl, tt), (tt, tt))))))

collect-HasFullImages_example : All HasFullImages captured
collect-HasFullImages_example =
    collect-HasFullImages source reached stream (at 4) (at 60) 7 1 0 1 captured events-HaveWideRows
      collected

collect_stops_example :
    collect source reached
      (record {
        unstarted = none;
        events = events ++ (event 70 (EventBody.rows deleted) ∷ []);
        ending = failure (txt "deadline");
      })
      (at 4)
      (at 60)
      7
      1
      0
    ≡ collect source reached
        (record { unstarted = none; events = events; ending = failure (txt "closed") })
        (at 4)
        (at 60)
        7
        1
        0
unfolding goinception_plus.Backup.Capture.position_after
collect_stops_example =
    collect_stops source reached events (event 70 (EventBody.rows deleted) ∷ [])
      (failure (txt "deadline")) (failure (txt "closed")) (at 4) (at 60) 7 1 0 refl

abbrev target : TargetOptions
target = record {
  host = txt "db-1.example";
  port = 3306;
  user = txt "u";
  password = [];
  database = [];
  sql_mode = [];
  version = [];
  sql_safe_updates = pos 0;
  lock_wait_timeout = pos 0;
  default_charset = [];
}

backup_db_name_bounds_example :
    (length (backup_db_name target app) ≤ 64) × All IsPlain (backup_db_name target app)
backup_db_name_bounds_example = backup_db_name_bounds target app

abbrev undo : Text → Text → RollbackRecord
undo schema sql = record { schema = schema; table = txt "users"; sql = sql }

abbrev undos : List RollbackRecord
undos = undo app (txt "U1;") ∷ undo (txt "other") (txt "U2;") ∷ undo app (txt "U3;") ∷ []

grouped-of_database_example :
    HasDistinctNames (grouped target undos [])
    × ((db : Text) → records_in db (grouped target undos []) ≡ of_database target db undos)
grouped-of_database_example = grouped-of_database target undos

-- A server whose state is the log of its statements.
abbrev logging : Server
logging = record {
  World = List Text;
  exec = λ sql w. (none, sql ∷ w);
  begin = λ w. (none, txt "BEGIN" ∷ w);
  tx_exec = λ sql arguments w. (none, sql ∷ w);
  commit = λ w. (none, txt "COMMIT" ∷ w);
  rollback = λ w. txt "ROLLBACK" ∷ w;
}

abbrev backup : Operation
backup = record {
  opid = txt "1";
  statement = statement 1 StatementKind.delete none;
  source = target;
  start = at 4;
  end = at 60;
  thread_id = 7;
  schema = app;
  table = txt "users";
  rollbacks = undos;
}

abbrev same_order : List Group → List Group
same_order groups = groups

abbrev logged : List Text
logged = (save logging same_order backup []).1
