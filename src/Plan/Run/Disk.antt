-- ===== src/Plan/Run/Disk.antt =====
-- src/migrator/phases/p30_plan.py, `run`: the batches and the free space of the disk.
use dropbox_mirror.Base.{
  subst, ℕ, ◌+◌, ◌≤◌, true, false, not, List, [], ◌∷◌, ◌≡◌, ◌≢◌, refl, ok, In, inl, inr, ltb,
  concat, Bool-cases, arith, All-In, In-keep, In-append_left, In-append_right, sum-append, ap,
}
use dropbox_mirror.Config.{Budget}
use dropbox_mirror.Plan.Pack.{pack}
use dropbox_mirror.Plan.Pack.Limits.{Fits, within, alone, pack-Fits}
use dropbox_mirror.Plan.Pack.Order.{concat-pack}
use dropbox_mirror.Plan.Run.{
  size_of, changed_rows, file_cap, is_stageable, disk_short, needed_bytes, largest_of, drop_planned,
  PlanOutputs, run, total_of, is_planned,
}
use dropbox_mirror.Plan.Run.Gates.{stageable, batches_of, run-Planned, from, In-insert_batches}
use dropbox_mirror.State.Runs.Laws.{update_run_lem}
use dropbox_mirror.State.Tables.{Db, DeltaChanged, Batch}
use mathlib.Core.List.{map-append}

total-concat :
    (batches : List (List DeltaChanged)) (rows : List DeltaChanged)
    → In rows batches
    → total_of rows ≤ total_of (concat batches)
total-concat [] rows m = elim m [ ]
total-concat (b ∷ batches) rows (inl e) = rw (e, map-append, sum-append) (omega arith)
total-concat (b ∷ batches) rows (inr m) =
    rw (map-append, sum-append) (omega (arith, total-concat batches rows m))

In-concat :
    (batches : List (List DeltaChanged)) (rows : List DeltaChanged) (r : DeltaChanged)
    → In rows batches
    → In r rows
    → In r (concat batches)
In-concat [] rows r m i = elim m [ ]
In-concat (b ∷ batches) rows r (inl e) i = In-append_left r b (concat batches) (rw e at i)
In-concat (b ∷ batches) rows r (inr m) i =
    In-append_right r b (concat batches) (In-concat batches rows r m i)

size-largest : (rows : List DeltaChanged) (r : DeltaChanged) → In r rows → r.size ≤ largest_of rows
unfolding largest_of
size-largest [] r m = elim m [ ]
size-largest (x ∷ rows) r (inl e) = rw e (omega arith)
size-largest (x ∷ rows) r (inr m) = omega (arith, size-largest rows r m)

total-zero : (rows : List DeltaChanged) → largest_of rows ≡ 0 → total_of rows ≡ 0
unfolding largest_of
total-zero [] h = refl
total-zero (x ∷ rows) h = omega (arith, total-zero rows (omega arith))

stageable_room :
    (budget : Budget) (free : ℕ) (r : DeltaChanged)
    → is_stageable (file_cap budget free) r ≡ true
    → (r.size + budget.headroom_bytes ≤ free) × (r.size ≤ budget.max_file_bytes)
unfolding file_cap
stageable_room budget free r h = ground arith

-- A batch needs at most what the gate asked of the disk.
batch_bound :
    (budget : Budget) (rows batch : List DeltaChanged)
    → In batch (pack size_of budget.batch_bytes budget.batch_files rows)
    → (batch ≢ [])
      × (total_of batch + budget.headroom_bytes ≤ needed_bytes budget rows)
      × (total_of batch ≤ total_of rows)
unfolding needed_bytes
batch_bound budget rows batch m =
    let batches = pack size_of budget.batch_bytes budget.batch_files rows in
    let whole : concat batches ≡ rows =
      concat-pack size_of budget.batch_bytes budget.batch_files rows in
    let small : total_of batch ≤ total_of rows =
      subst (λ l. total_of batch ≤ total_of l) whole (total-concat batches batch m) in
    elim (All-In (Fits size_of budget.batch_bytes budget.batch_files) batches batch
      (pack-Fits size_of budget.batch_bytes budget.batch_files rows) m) [
        | within some_row few_bytes few ↦ (some_row, omega arith, small)
        | alone r e big ↦
            let fits : r.size ≤ largest_of rows =
              size-largest rows r
                (subst (In r) whole (In-concat batches batch r m (rw e (inl refl)))) in
            let one : total_of batch ≡ r.size = rw e (omega arith) in
            (λ none_left. cc, omega arith, small)
      ]

true-false : true ≡ false → ⊥
true-false e = cc

gate_room :
    (budget : Budget) (free : ℕ) (rows : List DeltaChanged)
    → disk_short budget free rows ≡ false
    → ltb 0 (largest_of rows) ≡ true
    → needed_bytes budget rows ≤ free
unfolding disk_short
gate_room budget free rows h some_bytes = elim (Bool-cases (ltb free (needed_bytes budget rows))) [
  | inl short ↦ absurd (true-false (rw (some_bytes, short) at h))
  | inr enough ↦ ground arith
]

not_dropped :
    (db : Db) (b : Batch) → In b (drop_planned db).batches → is_planned b.status ≡ true → ⊥
unfolding drop_planned
not_dropped db b m live =
    let kept = (In-keep (λ (c : Batch). not (is_planned c.status)) b db.batches m).1 in
    true-false (ground arith)

-- The bound for the bytes of a batch of stageable rows, whether or not the gate was asked.
stageable_batch :
    (budget : Budget) (free run_id : ℕ) (db : Db) (batch : List DeltaChanged)
    → disk_short budget free (stageable budget free run_id db) ≡ false
    → In batch (batches_of budget free run_id db)
    → total_of batch + budget.headroom_bytes ≤ free
unfolding disk_short
stageable_batch budget free run_id db [] ok_disk m =
    absurd ((batch_bound budget (stageable budget free run_id db) [] m).0 refl)
stageable_batch budget free run_id db (r ∷ batch) ok_disk m =
    let rows = stageable budget free run_id db in
    let (_, need, small) = batch_bound budget rows (r ∷ batch) m in
    let whole : concat (batches_of budget free run_id db) ≡ rows =
      concat-pack size_of budget.batch_bytes budget.batch_files rows in
    let here : In r rows =
      subst (In r) whole
        (In-concat (batches_of budget free run_id db) (r ∷ batch) r m (inl refl)) in
    let (room, _) = stageable_room budget free r (In-keep _ r (changed_rows run_id db) here).1 in
    elim (Bool-cases (ltb 0 (largest_of rows))) [
      | inl some_bytes ↦ omega (arith, gate_room budget free rows ok_disk some_bytes)
      | inr no_bytes ↦ omega (arith, total-zero rows (ground arith))
    ]

-- Every batch that a successful plan leaves in the table to be run fits on the disk with the
-- headroom to spare.
pub planned_fits_disk :
    (budget : Budget) (free run_id : ℕ) (db after : Db) (out : PlanOutputs)
    → run budget free run_id db ≡ ok (out, after)
    → (b : Batch) → In b after.batches
    → is_planned b.status ≡ true
    → b.bytes + budget.headroom_bytes ≤ free
planned_fits_disk budget free run_id db after out h b m live =
    let p = run-Planned budget free run_id db after out h in
    let same : after.batches ≡ p.written.batches =
      ap (λ (d : Db). d.batches) (update_run_lem run_id _ p.written after p.finished) in
    elim (In-insert_batches run_id 1 (batches_of budget free run_id db) (drop_planned db) p.written
      b p.inserted (rw same at m)) [
        | inl old ↦ absurd (not_dropped db b old live)
        | inr (from rows r e c) ↦ rw e (stageable_batch budget free run_id db rows p.disk_holds r)
      ]
