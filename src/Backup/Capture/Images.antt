-- ===== src/Backup/Capture/Images.antt =====
-- internal/backup/binlogmysql/capture.go and internal/rollback/generator.go: the row images that
-- `Collect` captures are full, as the generator of the rollback SQL needs them.
use goinception_plus.Prelude.{ℕ, Bool, List, [], ◌∷◌, map, ◌≡◌, sym, subst, inl, inr, All, length}
use goinception_plus.Audit.Types.{Table, ok, Result-cases}
use goinception_plus.Metadata.Cache.{MetadataProvider}
use goinception_plus.Execution.{BinlogPosition}
use goinception_plus.Rollback.{ChangeType, RowChange}
use goinception_plus.Rollback.Literal.{Value}
use goinception_plus.Rollback.Keys.{HasFullImages}
use goinception_plus.Backup.Capture.{
  RowsEvent, EventBody, BinlogEvent, change, paired_changes, single_change, changes_of, Stream,
  collect,
}
use goinception_plus.Backup.Capture.Loop.{Yields, collect_cases, collect_loop-All}

-- The images of a row event have a value for each of its columns.
abbrev pub IsWide : EventBody → Type 0
IsWide (EventBody.rows r) = All (λ row. length row ≡ r.column_count) r.rows
IsWide (EventBody.rotate name position) = Unit
IsWide (EventBody.query thread) = Unit
IsWide EventBody.xid = Unit
IsWide EventBody.other_event = Unit

abbrev pub HasWideRows : BinlogEvent → Type 0
HasWideRows e = IsWide e.body

module _ (t : Table) where
  abbrev IsAsWide : List Value → Type 0
  IsAsWide row = length row ≡ length t.columns

  paired_changes-HasFullImages :
      (images : List (List Value)) (v : List RowChange)
      → All IsAsWide images
      → paired_changes t images ≡ ok v
      → All HasFullImages v
  unfolding paired_changes change
  paired_changes-HasFullImages [] v wide h = subst (All HasFullImages) {x = []} (cc h) tt
  paired_changes-HasFullImages (before ∷ []) v wide h = absurd (cc h)
  paired_changes-HasFullImages (before ∷ after ∷ more) v (old, (new, wide)) h =
      elim (Result-cases (paired_changes t more)) [
        | inr (x, e) ↦ absurd (cc (rw (paired_changes, e) at h))
        | inl (rest, e) ↦
            subst (All HasFullImages) {x = change ChangeType.update t before after ∷ rest}
              (cc (rw (paired_changes, e) at h))
              ((old, new), paired_changes-HasFullImages more rest wide e)
      ]

  inserts-HaveFullImages :
      (images : List (List Value))
      → All IsAsWide images
      → All HasFullImages (map (single_change ChangeType.insert t) images)
  unfolding single_change change
  inserts-HaveFullImages [] wide = tt
  inserts-HaveFullImages (row ∷ more) (new, wide) = (new, inserts-HaveFullImages more wide)

  deletes-HaveFullImages :
      (images : List (List Value))
      → All IsAsWide images
      → All HasFullImages (map (single_change ChangeType.delete t) images)
  unfolding single_change change
  deletes-HaveFullImages [] wide = tt
  deletes-HaveFullImages (row ∷ more) (old, wide) = (old, deletes-HaveFullImages more wide)

  changes_of-HasFullImages :
      (kind : ChangeType) (images : List (List Value)) (v : List RowChange)
      → All IsAsWide images
      → changes_of kind t images ≡ ok v
      → All HasFullImages v
  unfolding changes_of
  changes_of-HasFullImages ChangeType.insert images v wide h =
      subst (All HasFullImages) {x = map (single_change ChangeType.insert t) images} (cc h)
        (inserts-HaveFullImages images wide)
  changes_of-HasFullImages ChangeType.delete images v wide h =
      subst (All HasFullImages) {x = map (single_change ChangeType.delete t) images} (cc h)
        (deletes-HaveFullImages images wide)
  changes_of-HasFullImages ChangeType.update images v wide h =
      paired_changes-HasFullImages images v wide h

Yields-HasFullImages :
    (r : RowsEvent) (v : List RowChange)
    → All (λ row. length row ≡ r.column_count) r.rows
    → Yields r v
    → All HasFullImages v
Yields-HasFullImages r v wide (t, columns, e) =
    changes_of-HasFullImages t r.kind r.rows v
      (subst (λ n. All (λ (row : List Value). length row ≡ n) r.rows) (sym columns) wide) e

module _ (source : MetadataProvider) (reached : BinlogPosition → BinlogPosition → Bool) where
  open source use {World}

  -- If the images of each row event have a value for each of its columns, every change that `Collect`
  -- returns has full row images for the metadata of its table, as `generate-Undoes` asks for.
  pub collect-HasFullImages :
      (stream : Stream) (start end : BinlogPosition) (thread expected : ℕ) (w w' : World)
      (v : List RowChange)
      → All HasWideRows stream.events
      → collect source reached stream start end thread expected w ≡ (ok v, w')
      → All HasFullImages v
  collect-HasFullImages stream start end thread expected w w' v wide h =
      elim (collect_cases source reached stream start end thread expected w w' v h) [
        | inl nothing ↦ subst (All HasFullImages) (sym nothing) tt
        | inr (loop, counted) ↦
            collect_loop-All source reached thread end stream.ending HasFullImages
              (λ owner events. All HasWideRows events) (λ owner e rest all. all.1)
              (λ owner e rest r found all is_rows own yields.
                Yields-HasFullImages r found (subst IsWide is_rows all.0) yields)
              stream.events start 0 [] w w' v wide tt loop
      ]
