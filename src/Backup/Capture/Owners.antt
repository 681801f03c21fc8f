-- ===== src/Backup/Capture/Owners.antt =====
-- internal/backup/binlogmysql/capture.go: whose row changes `Collect` captures.
use goinception_plus.Prelude.{
  ℕ, Bool, List, [], ◌∷◌, ◌++◌, ◌≡◌, ◌≢◌, refl, subst, ◌∙◌, sym, ◌⊎◌, inl, inr, All, All-Memᴰ,
  All-append, Memᴰ, append_assoc,
}
use goinception_plus.Audit.Types.{Error, ok}
use goinception_plus.Metadata.Cache.{MetadataProvider}
use goinception_plus.Execution.{BinlogPosition}
use goinception_plus.Rollback.{RowChange}
use goinception_plus.Backup.Capture.{
  RowsEvent, EventBody, BinlogEvent, owner_after, collect_loop, Stream, collect,
}
use goinception_plus.Backup.Capture.Loop.{Yields, collect_cases, collect_loop-All}

-- An event that neither begins nor ends a transaction.
abbrev pub IsInside : BinlogEvent → Type 0
IsInside e = ((n : ℕ) → e.body ≢ EventBody.query n) × (e.body ≢ EventBody.xid)

-- The last event that begins or ends a transaction begins one of the thread.
abbrev pub OpenedBy : ℕ → List BinlogEvent → Type 0
OpenedBy thread seen =
    (before : List BinlogEvent) × (opening : BinlogEvent) × (inside : List BinlogEvent) × (seen
      ≡ before ++ (opening ∷ inside))
    × (opening.body ≡ EventBody.query thread)
    × All IsInside inside

-- The change is one of a row event in a transaction of the thread.
abbrev pub IsOwned : ℕ → List BinlogEvent → RowChange → Type 0
IsOwned thread events c =
    (seen : List BinlogEvent) × (e : BinlogEvent) × (rest : List BinlogEvent) × (r : RowsEvent)
    × (events ≡ seen ++ (e ∷ rest))
    × OpenedBy thread seen
    × (e.body ≡ EventBody.rows r)
    × ((changes : List RowChange) × Yields r changes × Memᴰ c changes)

module _ (source : MetadataProvider) (reached : BinlogPosition → BinlogPosition → Bool) where
  open source use {World}

  abbrev Opened : ℕ → List BinlogEvent → Type 0
  Opened owner seen = (owner ≡ 0) ⊎ OpenedBy owner seen

  append-Opened :
      (owner : ℕ) (e : BinlogEvent) (seen : List BinlogEvent)
      → IsInside e
      → Opened owner seen
      → Opened owner (seen ++ (e ∷ []))
  append-Opened owner e seen inner (inl none_open) = inl none_open
  append-Opened owner e seen inner (inr (before, opening, inside, split, is_query, all)) = inr (
    before,
    opening,
    inside ++ (e ∷ []),
    rw split (append_assoc before (opening ∷ inside) (e ∷ [])),
    is_query,
    All-append IsInside inside (e ∷ []) all (inner, tt),
  )

  owner_after-Opened :
      (owner n : ℕ) (body : EventBody) (seen : List BinlogEvent)
      → Opened owner seen
      → Opened
          (owner_after source reached (record { log_pos = n; body = body }) owner)
          (seen ++ (record { log_pos = n; body = body } ∷ []))
  unfolding owner_after
  owner_after-Opened owner n (EventBody.query t) seen h =
      inr (seen, record { log_pos = n; body = EventBody.query t }, [], refl, refl, tt)
  owner_after-Opened owner n EventBody.xid seen h = inl refl
  owner_after-Opened owner n (EventBody.rotate name p) seen h =
      append-Opened owner (record { log_pos = n; body = EventBody.rotate name p }) seen
        ((λ t e. cc e), λ e. cc e) h
  owner_after-Opened owner n (EventBody.rows r) seen h =
      append-Opened owner (record { log_pos = n; body = EventBody.rows r }) seen
        ((λ t e. cc e), λ e. cc e) h
  owner_after-Opened owner n EventBody.other_event seen h =
      append-Opened owner (record { log_pos = n; body = EventBody.other_event }) seen
        ((λ t e. cc e), λ e. cc e) h

  module _ (thread : ℕ) (nonzero : thread ≢ 0) (end : BinlogPosition) (ending : Error)
      (events : List BinlogEvent) where
    abbrev Read : ℕ → List BinlogEvent → Type 0
    Read owner rest = (seen : List BinlogEvent) × (events ≡ seen ++ rest) × Opened owner seen

    rows-IsOwned :
        (owner : ℕ) (e : BinlogEvent) (rest : List BinlogEvent) (r : RowsEvent) (v : List RowChange)
        → Read owner (e ∷ rest)
        → e.body ≡ EventBody.rows r
        → owner ≡ thread
        → Yields r v
        → All (IsOwned thread events) v
    rows-IsOwned owner e rest r v (seen, split, inl none_open) is_rows own yields =
        absurd (nonzero (sym own ∙ none_open))
    rows-IsOwned owner e rest r v (seen, split, inr opened) is_rows own yields =
        All-Memᴰ (IsOwned thread events) v (λ c m. (
          seen,
          e,
          rest,
          r,
          split,
          subst (λ t. OpenedBy t seen) own opened,
          is_rows,
          (v, yields, m),
        ))

    collect_loop-IsOwned :
        (start : BinlogPosition) (w w' : World) (v : List RowChange)
        → collect_loop source reached thread end ending events start 0 [] w ≡ (ok v, w')
        → All (IsOwned thread events) v
    collect_loop-IsOwned start w w' v h =
        collect_loop-All source reached thread end ending (IsOwned thread events) Read
          (λ owner e rest (seen, split, opened). (
            seen ++ (e ∷ []),
            rw split (sym (append_assoc seen (e ∷ []) rest)),
            owner_after-Opened owner e.log_pos e.body seen opened,
          ))
          rows-IsOwned events start 0 [] w w' v ([], refl, inl refl) tt h

  -- Every change that `Collect` returns is one of a row event in a transaction of the thread: of the
  -- events before it, the last that begins or ends a transaction is one that the thread begins.
  pub collect-IsOwned :
      (stream : Stream) (start end : BinlogPosition) (thread expected : ℕ) (w w' : World)
      (v : List RowChange)
      → thread ≢ 0
      → collect source reached stream start end thread expected w ≡ (ok v, w')
      → All (IsOwned thread stream.events) v
  collect-IsOwned stream start end thread expected w w' v nonzero h =
      elim (collect_cases source reached stream start end thread expected w w' v h) [
        | inl nothing ↦ subst (All (IsOwned thread stream.events)) (sym nothing) tt
        | inr (loop, counted) ↦
            collect_loop-IsOwned thread nonzero end stream.ending stream.events start w w' v loop
      ]
