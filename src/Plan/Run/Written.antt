-- ===== src/Plan/Run/Written.antt =====
-- src/migrator/phases/p30_plan.py, `run`: the rows that are written, and when.
use dropbox_mirror.Base.{
  ℕ, ◌+◌, ◌<◌, true, false, not, some, List, [], ◌∷◌, ◌++◌, map, ◌≡◌, refl, keep, length, ok, In,
  In-append, inl, inr, ltb, arith, any, nat_eq, nat_beq_iff, In-keep,
}
use dropbox_mirror.Base.Rows.{next_id}
use dropbox_mirror.Config.{Budget}
use dropbox_mirror.Plan.Run.{
  disk_short, drop_planned, new_item, new_batch, insert_batch, insert_batches, outputs_of, run,
  number_taken, tree_bytes, is_planned, changed_rows, is_oversized, file_cap,
}
use dropbox_mirror.Plan.Run.Gates.{stageable, batches_of}
use dropbox_mirror.State.Runs.{current_run, update_run, Assign, assign_at}
use dropbox_mirror.State.Tables.{Db, Run, DeltaChanged, Batch}

number_free :
    (run_id number : ℕ) (batches : List Batch)
    → ((b : Batch) → In b batches → b.run_id ≡ run_id → b.number < number)
    → number_taken run_id number batches ≡ false
unfolding any
number_free run_id number [] below = refl
number_free run_id number (b ∷ batches) below = ground (
  arith,
  below b (inl refl),
  nat_beq_iff b.run_id run_id,
  number_free run_id number batches (λ c m. below c (inr m)),
)

none_begun :
    (run_id : ℕ) (db : Db)
    → ((b : Batch) → In b db.batches → b.run_id ≡ run_id → is_planned b.status ≡ true)
    → (b : Batch) → In b (drop_planned db).batches
    → b.run_id ≡ run_id
    → b.number < 1
unfolding drop_planned
none_begun run_id db fresh b m own =
    let (old, kept) = In-keep (λ (c : Batch). not (is_planned c.status)) b db.batches m in
    ground (arith, fresh b old own)

below_snoc :
    (run_id number id : ℕ) (rows : List DeltaChanged) (batches : List Batch)
    → ((b : Batch) → In b batches → b.run_id ≡ run_id → b.number < number)
    → (b : Batch) → In b (batches ++ (new_batch id run_id number rows ∷ []))
    → b.run_id ≡ run_id
    → b.number < number + 1
below_snoc run_id number id rows batches below b m own =
    elim (In-append b batches (new_batch id run_id number rows ∷ []) m) [
      | inl old ↦ omega (arith, below b old own)
      | inr (inl e) ↦ rw e (omega arith)
      | inr (inr no_more) ↦ elim no_more [ ]
    ]

insert_batches_ok :
    (run_id number : ℕ) (batches : List (List DeltaChanged)) (db : Db)
    → ((b : Batch) → In b db.batches → b.run_id ≡ run_id → b.number < number)
    → (after : Db) × (insert_batches run_id number batches db ≡ ok after)
unfolding insert_batches insert_batch
insert_batches_ok run_id number [] db below = (db, refl)
insert_batches_ok run_id number (rows ∷ batches) db below =
    let id = next_id (λ (b : Batch). b.id) db.batches in
    rw (number_free run_id number db.batches below) (
      insert_batches_ok run_id (number + 1) batches
        (record db {
          batches = db.batches ++ (new_batch id run_id number rows ∷ []);
          batch_items = db.batch_items ++ map (new_item id) rows;
        })
        (below_snoc run_id number id rows db.batches below))

-- With a run in progress, a tree under the ceiling and a disk that holds a batch, the plan of a
-- run none of whose batches has begun succeeds; it reports the files that it planned and those
-- that it left out.
pub run_succeeds :
    (budget : Budget) (free run_id : ℕ) (db : Db) (r : Run)
    → current_run db ≡ ok r
    → ltb budget.ceiling_bytes (tree_bytes r.inventory_id db) ≡ false
    → disk_short budget free (stageable budget free run_id db) ≡ false
    → ((b : Batch) → In b db.batches → b.run_id ≡ run_id → is_planned b.status ≡ true)
    → (after : Db) × (run budget free run_id db
        ≡ ok (
          outputs_of budget free
              (tree_bytes r.inventory_id db)
              (keep (is_oversized (file_cap budget free)) (changed_rows run_id db))
              (stageable budget free run_id db)
              (batches_of budget free run_id db),
          after,
        ))
unfolding run update_run
run_succeeds budget free run_id db r started low room fresh =
    let (w, e) =
      insert_batches_ok run_id 1 (batches_of budget free run_id db) (drop_planned db)
        (none_begun run_id db fresh) in
    (
      record w {
        runs =
            map
              (assign_at run_id
                (Assign.planned_batches (some (length (batches_of budget free run_id db))) ∷ []))
              w.runs;
      },
      rw (started, low, room, e) refl,
    )
