-- ===== src/Backup/Capture/Reach.antt =====
-- internal/backup/binlogmysql/capture.go: `Collect` stops at the first event that reaches the end
-- position, and then reads no more of the stream.
use goinception_plus.Prelude.{
  ℕ, Bool, true, false, ◌||◌, List, [], ◌∷◌, ◌++◌, ◌≡◌, refl, inl, inr, Bool-cases, none,
}
use goinception_plus.Audit.Types.{Error, Result-cases}
use goinception_plus.Metadata.Cache.{MetadataProvider}
use goinception_plus.Execution.{BinlogPosition}
use goinception_plus.Rollback.{RowChange}
use goinception_plus.Backup.Capture.{
  BinlogEvent, position_after, owner_after, event_changes, collect_loop, collect,
}

module _ (source : MetadataProvider) (reached : BinlogPosition → BinlogPosition → Bool) where
  open source use {World}

  -- Some event of the list brings the position to the end.
  abbrev pub reaches : BinlogPosition → BinlogPosition → List BinlogEvent → Bool
  reaches current end [] = false
  reaches current end (e ∷ rest) =
      reached (position_after source reached e current) end
      || reaches (position_after source reached e current) end rest

  module _ (thread : ℕ) (end : BinlogPosition) (ending other : Error)
      (more : List BinlogEvent) where
    collect_loop_prefix :
        (events : List BinlogEvent) (current : BinlogPosition) (owner : ℕ)
        (changes : List RowChange) (w : World)
        → reaches current end events ≡ true
        → collect_loop source reached thread end ending (events ++ more) current owner changes w
          ≡ collect_loop source reached thread end other events current owner changes w
    unfolding collect_loop
    collect_loop_prefix [] current owner changes w h = absurd (cc h)
    collect_loop_prefix (e ∷ rest) current owner changes w h =
        elim (Result-cases (event_changes source reached thread owner e w).0) [
          | inr (x, failed) ↦ rw (collect_loop, failed) refl
          | inl (found, e1) ↦
              elim (Bool-cases (reached (position_after source reached e current) end)) [
                | inl here ↦ rw (collect_loop, e1, here) refl
                | inr beyond ↦
                    rw (collect_loop, e1, beyond)
                      (collect_loop_prefix rest (position_after source reached e current)
                        (owner_after source reached e owner) (changes ++ found)
                        (event_changes source reached thread owner e w).1 (rw beyond at h))
              ]
        ]

  -- Once an event reaches the end position, `Collect` returns: its result, an error or the changes, is the
  -- same whatever events would follow and whatever error would end the stream.
  pub collect_stops :
      (events more : List BinlogEvent) (ending other : Error) (start end : BinlogPosition)
      (thread expected : ℕ) (w : World)
      → reaches start end events ≡ true
      → collect source reached
          (record { unstarted = none; events = events ++ more; ending = ending })
          start
          end
          thread
          expected
          w
        ≡ collect source reached
            (record { unstarted = none; events = events; ending = other })
            start
            end
            thread
            expected
            w
  unfolding collect
  collect_stops events more ending other start end thread expected w h =
      rw (collect, collect_loop_prefix thread end ending other more events start 0 [] w h) refl
