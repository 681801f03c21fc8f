-- ===== src/Backup/Capture/Loop.antt =====
-- internal/backup/binlogmysql/capture.go: what a predicate on the captured changes needs of the loop.
use goinception_plus.Prelude.{
  ℕ, Bool, ◌||◌, List, [], ◌∷◌, ◌++◌, ◌≡◌, refl, ◌⊎◌, inl, inr, length, nat_eq, ◌==◌, nat_beq_iff,
  All, All-append, subst, ap, sym, ◌∙◌, Bool-cases, Option-cases,
}
use goinception_plus.Strings.{Text}
use goinception_plus.Audit.Types.{Table, Error, Result, ok, err, Result-cases}
use goinception_plus.Metadata.Cache.{MetadataProvider}
use goinception_plus.Execution.{BinlogPosition}
use goinception_plus.Rollback.{RowChange}
use goinception_plus.Backup.Capture.{
  RowsEvent, EventBody, BinlogEvent, changes_of, table_changes, row_changes, position_after,
  owner_after, event_changes, collect_loop, Stream, same_position, counted, collect,
}

-- The changes of a row event are those of its images, for the metadata of a table of as many columns.
abbrev pub Yields : RowsEvent → List RowChange → Type 0
Yields r v = (t : Table) × (length t.columns ≡ r.column_count) × (changes_of r.kind t r.rows ≡ ok v)

table_changes-Yields :
    (r : RowsEvent) (schema name : Text) (loaded : Result Table) (v : List RowChange)
    → table_changes r schema name loaded ≡ ok v
    → Yields r v
unfolding table_changes
table_changes-Yields r schema name (err x) v h = absurd (cc h)
table_changes-Yields r schema name (ok t) v h =
    elim (Bool-cases (length t.columns == r.column_count)) [
      | inl wide ↦ (t, (nat_beq_iff (length t.columns) r.column_count).0 wide, rw wide at h)
      | inr narrow ↦ absurd (cc (rw narrow at h))
    ]

module _ (source : MetadataProvider) (reached : BinlogPosition → BinlogPosition → Bool) where
  open source use {World, load_table}

  result_of :
      {p : Result (List RowChange) × World} {r : Result (List RowChange)} {w : World}
      → p ≡ (r, w)
      → p.0 ≡ r
  result_of h = cc h

  ok_value : {v v' : List RowChange} → ok v ≡ ok v' → v ≡ v'
  ok_value e = cc e

  pair_of :
      {p : Result (List RowChange) × World} {r : Result (List RowChange)} → p.0 ≡ r → p ≡ (r, p.1)
  pair_of e = cc e

  pub row_changes-Yields :
      (r : RowsEvent) (w w' : World) (v : List RowChange)
      → row_changes source reached r w ≡ (ok v, w')
      → Yields r v
  unfolding row_changes
  row_changes-Yields r w w' v h = elim (Option-cases r.table) [
    | inl absent ↦ absurd (cc (result_of (rw absent at h)))
    | inr ((schema, name), e) ↦
        table_changes-Yields r schema name (load_table schema name w).0 v (result_of (rw e at h))
  ]

  -- What an event adds to the changes are those of its rows, in a transaction of the thread.
  body_changes_cases :
      (thread owner n : ℕ) (body : EventBody) (w w' : World) (v : List RowChange)
      → event_changes source reached thread owner (record { log_pos = n; body = body }) w
        ≡ (ok v, w')
      → (v ≡ []) ⊎ ((r : RowsEvent) × (body ≡ EventBody.rows r) × (owner ≡ thread) × Yields r v)
  unfolding event_changes
  body_changes_cases thread owner n (EventBody.rows r) w w' v h =
      elim (Bool-cases (owner == thread)) [
        | inl own ↦
            inr
              (r, refl, (nat_beq_iff owner thread).0 own, row_changes-Yields r w w' v (rw own at h))
        | inr foreign ↦ inl (cc (result_of (rw foreign at h)))
      ]
  body_changes_cases thread owner n (EventBody.rotate name position) w w' v h =
      inl (cc (result_of h))
  body_changes_cases thread owner n (EventBody.query t) w w' v h = inl (cc (result_of h))
  body_changes_cases thread owner n EventBody.xid w w' v h = inl (cc (result_of h))
  body_changes_cases thread owner n EventBody.other_event w w' v h = inl (cc (result_of h))

  counted_cases :
      (expected : ℕ) (found : Result (List RowChange)) (v : List RowChange)
      → counted expected found ≡ ok v
      → (found ≡ ok v) × (length v ≡ expected)
  unfolding counted
  counted_cases expected (err x) v h = absurd (cc h)
  counted_cases expected (ok changes) v h = elim (Bool-cases (length changes == expected)) [
    | inl all ↦
        let e : changes ≡ v = cc (rw all at h) in
        (ap ok e, ap length (sym e) ∙ (nat_beq_iff (length changes) expected).0 all)
    | inr short ↦ absurd (cc (rw short at h))
  ]

  -- What `Collect` returns are the changes of the loop, as many as expected, or none if none are
  -- expected or nothing was written.
  pub collect_cases :
      (stream : Stream) (start end : BinlogPosition) (thread expected : ℕ) (w w' : World)
      (v : List RowChange)
      → collect source reached stream start end thread expected w ≡ (ok v, w')
      → (v ≡ [])
        ⊎ ((collect_loop source reached thread end stream.ending stream.events start 0 [] w
              ≡ (ok v, w'))
            × (length v ≡ expected))
  unfolding collect
  collect_cases stream start end thread expected w w' v h =
      elim (Bool-cases (same_position start end || expected == 0)) [
        | inl idle ↦ inl (cc (result_of (rw (collect, idle) at h)))
        | inr busy ↦ elim (Option-cases stream.unstarted) [
          | inr (x, failed) ↦ absurd (cc (result_of (rw (collect, busy, failed) at h)))
          | inl started ↦
              let loop =
                collect_loop source reached thread end stream.ending stream.events start 0 [] w in
              let kept = rw (collect, busy, started) at h in
              let (e, all) = counted_cases expected loop.0 v (result_of kept) in
              inr (cc (e, kept), all)
        ]
      ]

  module _ (thread : ℕ) (end : BinlogPosition) (ending : Error) (P : RowChange → Type 0)
      (I : ℕ → List BinlogEvent → Type 0)
      (step : (owner : ℕ) (e : BinlogEvent) (rest : List BinlogEvent)
        → I owner (e ∷ rest)
        → I (owner_after source reached e owner) rest)
      (adds : (owner : ℕ) (e : BinlogEvent) (rest : List BinlogEvent) (r : RowsEvent)
          (v : List RowChange)
        → I owner (e ∷ rest)
        → e.body ≡ EventBody.rows r
        → owner ≡ thread
        → Yields r v
        → All P v) where
    pub collect_loop-All :
        (events : List BinlogEvent) (current : BinlogPosition) (owner : ℕ)
        (changes : List RowChange) (w w' : World) (v : List RowChange)
        → I owner events
        → All P changes
        → collect_loop source reached thread end ending events current owner changes w ≡ (ok v, w')
        → All P v
    unfolding collect_loop
    collect_loop-All [] current owner changes w w' v inv all h = absurd (cc (result_of h))
    collect_loop-All (e ∷ rest) current owner changes w w' v inv all h =
        let w1 = (event_changes source reached thread owner e w).1 in
        elim (Result-cases (event_changes source reached thread owner e w).0) [
          | inr (x, failed) ↦ absurd (cc (result_of (rw (collect_loop, failed) at h)))
          | inl (found, e1) ↦
              let more : All P (changes ++ found) =
                All-append P changes found all
                  (elim (body_changes_cases thread owner e.log_pos e.body w w1 found (pair_of e1)) [
                    | inl none_found ↦ rw none_found tt
                    | inr (r, is_rows, own, yields) ↦
                        adds owner e rest r found inv is_rows own yields
                  ]) in
              elim (Bool-cases (reached (position_after source reached e current) end)) [
                | inl here ↦ subst (All P) (cc (result_of (rw (collect_loop, e1, here) at h))) more
                | inr beyond ↦
                    collect_loop-All rest (position_after source reached e current)
                      (owner_after source reached e owner) (changes ++ found) w1 w' v
                      (step owner e rest inv) more (rw (collect_loop, e1, beyond) at h)
              ]
        ]
