-- ===== src/Plan/Run/Gates.antt =====
-- What a plan that succeeded has checked and written.
use dropbox_mirror.Base.{
  ℕ, ◌+◌, Bool, true, false, not, List, [], ◌∷◌, ◌++◌, ◌≡◌, refl, keep, length, ok, >>=-eq-ok,
  guard-eq-ok, In, In-append, inl, inr, ◌⊎◌, ltb, some, arith,
}
use dropbox_mirror.Base.Rows.{next_id}
use dropbox_mirror.Config.{Budget}
use dropbox_mirror.Plan.Pack.{pack}
use dropbox_mirror.Plan.Run.{
  size_of, changed_rows, file_cap, is_stageable, disk_short, drop_planned, new_batch, insert_batch,
  insert_batches, PlanOutputs, run, total_of, tree_bytes,
}
use dropbox_mirror.State.Runs.{current_run, update_run, Assign}
use dropbox_mirror.State.Tables.{Db, Run, DeltaChanged, Batch}

abbrev pub stageable : Budget → ℕ → ℕ → Db → List DeltaChanged
stageable budget free run_id db =
    keep (is_stageable (file_cap budget free)) (changed_rows run_id db)

abbrev pub batches_of : Budget → ℕ → ℕ → Db → List (List DeltaChanged)
batches_of budget free run_id db =
    pack size_of budget.batch_bytes budget.batch_files (stageable budget free run_id db)

-- The steps of a successful `run`.
pub record Planned (budget : Budget) (free run_id : ℕ) (db : Db) (after : Db) : Type 0 where
  pub current : Run
  pub in_progress : current_run db ≡ ok current
  pub under_ceiling : ltb budget.ceiling_bytes (tree_bytes current.inventory_id db) ≡ false
  pub disk_holds : disk_short budget free (stageable budget free run_id db) ≡ false
  pub written : Db
  pub inserted :
      insert_batches run_id 1 (batches_of budget free run_id db) (drop_planned db) ≡ ok written
  pub finished :
      update_run run_id
        (Assign.planned_batches (some (length (batches_of budget free run_id db))) ∷ [])
        written
      ≡ ok after

not-true : (b : Bool) → not b ≡ true → b ≡ false
not-true true h = cc
not-true false h = refl

pub run-Planned :
    (budget : Budget) (free run_id : ℕ) (db after : Db) (out : PlanOutputs)
    → run budget free run_id db ≡ ok (out, after)
    → Planned budget free run_id db after
unfolding run
run-Planned budget free run_id db after out h =
    let (r, e1, h1) = >>=-eq-ok (current_run db) _ h in
    let (e2, h2) = guard-eq-ok _ _ _ h1 in
    let (e3, h3) = guard-eq-ok _ _ _ h2 in
    let (w, e4, h4) =
      >>=-eq-ok (insert_batches run_id 1 (batches_of budget free run_id db) (drop_planned db)) _
        h3 in
    let (d, e5, h5) = >>=-eq-ok (update_run run_id _ w) _ h4 in
    record {
      current = r;
      in_progress = e1;
      under_ceiling = not-true _ e2;
      disk_holds = not-true _ e3;
      written = w;
      inserted = e4;
      finished = cc;
    }

-- The batches in the table after the insertions: the old ones, and one for each list of rows.
pub data Inserted (batches : List (List DeltaChanged)) (b : Batch) : Type 0 where
  from :
      (rows : List DeltaChanged)
      → In rows batches
      → b.bytes ≡ total_of rows
      → b.file_count ≡ length rows
      → Inserted batches b

Inserted-cons :
    (rows : List DeltaChanged) (batches : List (List DeltaChanged)) (b : Batch)
    → Inserted batches b
    → Inserted (rows ∷ batches) b
Inserted-cons rows batches b (from r m e c) = from r (inr m) e c

In-insert_batch :
    (run_id number : ℕ) (rows : List DeltaChanged) (batches : List (List DeltaChanged))
    (db after : Db) (b : Batch)
    → insert_batch run_id number rows db ≡ ok after
    → In b after.batches
    → In b db.batches ⊎ Inserted (rows ∷ batches) b
unfolding insert_batch
In-insert_batch run_id number rows batches db after b h m =
    let new = new_batch (next_id (λ (b : Batch). b.id) db.batches) run_id number rows in
    let same : after.batches ≡ db.batches ++ (new ∷ []) = ground arith in
    elim (In-append b db.batches (new ∷ []) (rw same at m)) [
      | inl old ↦ inl old
      | inr (inl e) ↦ inr (from rows (inl refl) (rw e refl) (rw e refl))
      | inr (inr no_more) ↦ elim no_more [ ]
    ]

pub In-insert_batches :
    (run_id number : ℕ) (batches : List (List DeltaChanged)) (db after : Db) (b : Batch)
    → insert_batches run_id number batches db ≡ ok after
    → In b after.batches
    → In b db.batches ⊎ Inserted batches b
unfolding insert_batches
In-insert_batches run_id number [] db after b h m = ground arith
In-insert_batches run_id number (rows ∷ batches) db after b h m =
    let (mid, e, k) =
      >>=-eq-ok (insert_batch run_id number rows db) (insert_batches run_id (number + 1) batches)
        h in
    elim (In-insert_batches run_id (number + 1) batches mid after b k m) [
      | inl old ↦ In-insert_batch run_id number rows batches db mid b e old
      | inr new ↦ inr (Inserted-cons rows batches b new)
    ]
