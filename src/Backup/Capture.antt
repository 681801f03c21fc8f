-- ===== src/Backup/Capture.antt =====
-- internal/backup/binlogmysql/capture.go: `Validate`, `Collect` and `rowChanges`. The events are those of
-- the third-party streamer, whose comparison of positions is a parameter; a stream that ends without
-- reaching the end position ends with an error, at the latest that of the read timeout.
pub mod Loop
pub mod Owners
pub mod Images
pub mod Reach
use goinception_plus.Prelude.{
  ℕ, suc, Bool, true, false, ◌||◌, ◌&&◌, not, ◌%◌, ◌^◌, Option, none, some, List, [], ◌∷◌, ◌++◌,
  map, if◌then◌else◌, ◌==◌, nat_eq, text_eq, length, ltb,
}
use goinception_plus.Strings.{Text, txt}
use goinception_plus.Strings.Fold.{equal_fold}
use goinception_plus.Strings.Format.{sprintf, itoa}
use goinception_plus.Audit.Types.{Table, Error, failure, wrap, Result, ok, err, ◌>>=◌}
use goinception_plus.Metadata.Cache.{MetadataProvider}
use goinception_plus.Execution.{BinlogPosition}
use goinception_plus.Rollback.{ChangeType, RowChange}
use goinception_plus.Rollback.Literal.{Value}

-- A row event: its change type by the type of the event, the table of its TABLE_MAP if there is one,
-- the number of columns, and the row images.
pub record RowsEvent : Type 0 where
  pub kind : ChangeType
  pub table : Option (Text × Text)
  pub column_count : ℕ
  pub rows : List (List Value)

-- What the loop reads of an event.
pub data EventBody : Type 0 where
  rotate : Text → ℕ → EventBody
  query : ℕ → EventBody
  xid : EventBody
  rows : RowsEvent → EventBody
  other_event : EventBody

pub record BinlogEvent : Type 0 where
  pub log_pos : ℕ
  pub body : EventBody

-- `Validate` after its query: the values of log_bin, binlog_format and binlog_row_image, the latter two
-- in upper case.
unfoldable pub validate : Result (Text × Text × Text) → Option Error
validate (err e) = some (wrap (txt "read binlog prerequisites: ") e)
validate (ok (enabled, format, image)) =
    if not (enabled == txt "1") && not (equal_fold enabled (txt "ON"))
    then some (failure (txt "log_bin must be ON"))
    else if not (format == txt "ROW")
    then some (failure (txt "binlog_format must be ROW"))
    else if not (image == txt "FULL")
    then some (failure (txt "binlog_row_image must be FULL"))
    else none

unfoldable pub change : ChangeType → Table → List Value → List Value → RowChange
change kind t before after = record {
  sequence = 0;
  type = kind;
  table = t;
  before = before;
  after = after;
}

-- The images of an UPDATE come in pairs.
unfoldable pub paired_changes : Table → List (List Value) → Result (List RowChange)
unfolding change
paired_changes t [] = ok []
paired_changes t (before ∷ []) = err (failure (txt "UPDATE row image has odd row count"))
paired_changes t (before ∷ after ∷ more) =
    paired_changes t more >>= λ rest. ok (change ChangeType.update t before after ∷ rest)

unfoldable pub single_change : ChangeType → Table → List Value → RowChange
unfolding change
single_change ChangeType.insert t row = change ChangeType.insert t [] row
single_change kind t row = change kind t row []

unfoldable pub changes_of : ChangeType → Table → List (List Value) → Result (List RowChange)
unfolding paired_changes single_change
changes_of ChangeType.update t images = paired_changes t images
changes_of kind t images = ok (map (single_change kind t) images)

unfoldable pub mismatch : Text → Text → Table → ℕ → Error
mismatch schema name t count = failure (
    sprintf "FULL row image mismatch for %s.%s: metadata=%d binlog=%d"
      (schema ∷ name ∷ itoa (length t.columns) ∷ itoa count ∷ []))

-- The changes of a row event, once the metadata of its table are loaded.
unfoldable pub table_changes : RowsEvent → Text → Text → Result Table → Result (List RowChange)
unfolding mismatch changes_of
table_changes e schema name (err x) =
    err (wrap (sprintf "load row event metadata %s.%s: " (schema ∷ name ∷ [])) x)
table_changes e schema name (ok t) =
    if length t.columns == e.column_count
    then changes_of e.kind t e.rows
    else err (mismatch schema name t e.column_count)

-- The streamer: whether it could be started, its events, and the error that ends it.
pub record Stream : Type 0 where
  pub unstarted : Option Error
  pub events : List BinlogEvent
  pub ending : Error

unfoldable pub incomplete : ℕ → ℕ → Error
incomplete captured expected = failure (
    sprintf "ROW binlog incomplete: captured_rows=%d affected_rows=%d"
      (itoa captured ∷ itoa expected ∷ []))

unfoldable pub counted : ℕ → Result (List RowChange) → Result (List RowChange)
unfolding incomplete
counted expected (err e) = err e
counted expected (ok changes) =
    if length changes == expected then ok changes else err (incomplete (length changes) expected)

abbrev pub same_position : BinlogPosition → BinlogPosition → Bool
same_position a b = a.file == b.file && a.position == b.position

-- `reached` is `Position.Compare(end) >= 0`.
module _ (source : MetadataProvider) (reached : BinlogPosition → BinlogPosition → Bool) where
  open source use {World, load_table}

  unfoldable pub row_changes : RowsEvent → World → Result (List RowChange) × World
  unfolding table_changes
  row_changes e w = elim e.table [
    | none ↦ (err (failure (txt "row event has no TABLE_MAP")), w)
    | some (schema, name) ↦
        let (loaded, w') = load_table schema name w in (table_changes e schema name loaded, w')
  ]

  unfoldable pub position_after : BinlogEvent → BinlogPosition → BinlogPosition
  position_after e current = elim e.body [
    | EventBody.rotate name position ↦ record { file = name; position = position % 2 ^ 32 }
    | _ ↦ if ltb 0 e.log_pos then record current { position = e.log_pos } else current
  ]

  -- The owner of the transaction after an event; 0 is none.
  unfoldable pub owner_after : BinlogEvent → ℕ → ℕ
  owner_after e owner = elim e.body [
    | EventBody.query thread ↦ thread
    | EventBody.xid ↦ 0
    | _ ↦ owner
  ]

  -- The changes of an event in a transaction of `owner`.
  unfoldable pub event_changes : ℕ → ℕ → BinlogEvent → World → Result (List RowChange) × World
  unfolding row_changes
  event_changes thread owner e w = elim e.body [
    | EventBody.rows r ↦
        let found = row_changes r w in if owner == thread then found else (ok [], w)
    | _ ↦ (ok [], w)
  ]

  unfoldable pub read_error : BinlogPosition → Error → Error
  read_error current e =
      wrap (sprintf "read binlog event at (%s, %d): " (current.file ∷ itoa current.position ∷ [])) e

  -- The loop: `ending` is the error after the last event of the stream.
  unfoldable pub collect_loop :
      ℕ
      → BinlogPosition
      → Error
      → List BinlogEvent
      → BinlogPosition
      → ℕ
      → List RowChange
      → World
      → Result (List RowChange) × World
  unfolding event_changes
  collect_loop thread end ending [] current owner changes w = (err (read_error current ending), w)
  collect_loop thread end ending (e ∷ rest) current owner changes w =
      let current' = position_after e current in
      let (found, w') = event_changes thread owner e w in
      let later : List RowChange → Result (List RowChange) × World =
        λ v. collect_loop thread end ending rest current' (owner_after e owner) (changes ++ v) w' in
      elim found [
        | err x ↦ (err x, w')
        | ok v ↦ if reached current' end then (ok (changes ++ v), w') else later v
      ]

  unfoldable pub collect :
      Stream → BinlogPosition → BinlogPosition → ℕ → ℕ → World → Result (List RowChange) × World
  unfolding collect_loop counted
  collect stream start end thread expected w =
      let (found, w') = collect_loop thread end stream.ending stream.events start 0 [] w in
      if same_position start end || expected == 0
      then (ok [], w)
      else elim stream.unstarted [ some e ↦ (err e, w) | none ↦ (counted expected found, w') ]
