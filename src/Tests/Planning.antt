-- ===== src/Tests/Planning.antt =====
-- Examples of the delta and the plan.
use dropbox_mirror.Base.{
  ◌⊎◌, ◌++◌, sym, inr, ap, ◌∙◌, text_beq, ℕ, ◌+◌, ◌≤◌, false, none, some, [], ◌∷◌, keep, any, find,
  concat, In, All, Text, codes, nat_eq, text_eq, option_eq, ltb, ok, ◌≡◌, ◌≢◌, refl, inl, arith,
}
use dropbox_mirror.Base.Int.{pos}
use dropbox_mirror.Base.Rows.{latest}
use dropbox_mirror.Base.Sort.{sort_by}
use dropbox_mirror.Batch.Recorded.{Holds}
use dropbox_mirror.Delta.{run as delta_run}
use dropbox_mirror.Delta.Exact.{
  HasUniquePaths, Downloadable, run-changed_complete, run-changed_listed, run-disjoint,
  run-above_floor,
}
use dropbox_mirror.Delta.Rows.{Matches}
use dropbox_mirror.Plan.Pack.{pack}
use dropbox_mirror.Plan.Pack.Closing.{pack-Tight, Tight}
use dropbox_mirror.Plan.Pack.Limits.{pack-Fits, Fits}
use dropbox_mirror.Plan.Pack.Order.{concat-pack}
use dropbox_mirror.Plan.Run.{
  is_oversized, outputs_of, file_cap, changed_rows, drop_planned, disk_short, tree_bytes,
  PlanOutputs, insert_batches, run as plan_run,
}
use dropbox_mirror.Plan.Run.Disk.{planned_fits_disk}
use dropbox_mirror.Plan.Run.Gates.{batches_of, stageable}
use dropbox_mirror.Plan.Run.Items.{Fitting, Begun, IsItemOf, planned_complete, planned_items}
use dropbox_mirror.Plan.Run.Written.{run_succeeds}
use dropbox_mirror.State.Runs.{current_run, update_run}
use dropbox_mirror.State.Tables.{
  MirrorObject, Run, DropboxObject, ItemStatus, BatchStatus, Batch, DeltaChanged, BatchItem, Db,
}
use dropbox_mirror.Tests.{
  new_file, gone_row, changed_row, the_run, delta_outputs, budget, before_delta, after_delta,
}

abbrev same_number : ℕ → ℕ
same_number n = n

abbrev same_text : Text → Text
same_text s = s

delta_runs : delta_run same_number same_text 1 before_delta ≡ ok (delta_outputs, after_delta)
unfolding delta_run latest keep sort_by find text_beq
delta_runs = refl

delta_in_progress : current_run before_delta ≡ ok the_run
unfolding current_run latest keep
delta_in_progress = refl

keyed_before : HasUniquePaths before_delta.mirror
keyed_before m n (inl e) (inl f) same = e ∙ sym f
keyed_before m n (inr a) b same = elim a [ ]
keyed_before m n (inl e) (inr b) same = elim b [ ]

new_file_lacked : ¬ Holds before_delta.mirror (codes "/a") 3 (1 ∷ 2 ∷ 3 ∷ [])
new_file_lacked (m, inl e, path, size, hash) =
    omega (arith, ap (λ (x : MirrorObject). x.size) e, size)
new_file_lacked (m, inr a, path, size, hash) = elim a [ ]

run-changed_listed_example :
    (r : Run) × (id : ℕ) × (current_run before_delta ≡ ok r)
    × (r.inventory_id ≡ some id)
    × (d : DropboxObject) × In d before_delta.objects
    × Downloadable id d
    × Matches 1 d changed_row
    × ¬ Holds before_delta.mirror changed_row.path_lower changed_row.size changed_row.content_hash
run-changed_listed_example =
    run-changed_listed same_number same_text 1 before_delta after_delta delta_outputs delta_runs
      keyed_before changed_row (inl refl)

run-changed_complete_example :
    (c : DeltaChanged) × In c after_delta.delta_changed × Matches 1 new_file c
run-changed_complete_example =
    run-changed_complete same_number same_text 1 before_delta after_delta delta_outputs delta_runs
      the_run 1 delta_in_progress refl new_file (codes "/a") 3 (1 ∷ 2 ∷ 3 ∷ []) (inl refl)
      (refl, refl, refl) refl refl refl new_file_lacked

run-disjoint_example : codes "/a" ≢ codes "/b"
run-disjoint_example =
    run-disjoint same_number same_text 1 before_delta after_delta delta_outputs delta_runs
      changed_row gone_row (inl refl) (inl refl)

run-above_floor_example : (1 ≤ 1) × (1 ≤ 1)
run-above_floor_example =
    run-above_floor same_number same_text 1 before_delta after_delta delta_outputs delta_runs
      (omega arith)

abbrev planned_batch : Batch
planned_batch = record {
  id = 1;
  run_id = 1;
  number = 1;
  bytes = 3;
  file_count = 1;
  status = BatchStatus.planned;
  started_at = none;
  completed_at = none;
}

abbrev planned_item : BatchItem
planned_item = record {
  batch_id = 1;
  path_lower = codes "/a";
  path_display = codes "/A";
  size = 3;
  content_hash = 1 ∷ 2 ∷ 3 ∷ [];
  status = ItemStatus.planned;
  sha1 = none;
  sha256 = none;
}

abbrev after_plan : Db
after_plan = record after_delta {
  runs = (record the_run { planned_batches = some 1 }) ∷ [];
  batches = planned_batch ∷ [];
  batch_items = planned_item ∷ [];
}

abbrev plan_outputs : PlanOutputs
plan_outputs = record {
  batches = 1;
  files = 1;
  bytes = 3;
  largest_file = 3;
  tree_bytes = 3;
  free_bytes = 50;
  file_cap_bytes = pos 45;
  oversized_files = 0;
  oversized_bytes = 0;
}

plan_runs : plan_run budget 50 1 after_delta ≡ ok (plan_outputs, after_plan)
unfolding plan_run latest keep sort_by find text_beq any current_run tree_bytes disk_short
    changed_rows file_cap insert_batches pack drop_planned update_run outputs_of
plan_runs = refl

planned_fits_disk_example : 3 + 5 ≤ 50
planned_fits_disk_example =
    planned_fits_disk budget 50 1 after_delta after_plan plan_outputs plan_runs planned_batch
      (inl refl) refl

changed_row_fits : Fitting budget 50 1 after_delta changed_row
changed_row_fits = (inl refl, refl, omega arith, omega arith)

planned_complete_example : (i : BatchItem) × In i after_plan.batch_items × IsItemOf changed_row i
planned_complete_example =
    planned_complete budget 50 1 after_delta after_plan plan_outputs plan_runs changed_row
      changed_row_fits

-- The batch of an earlier run has landed.
abbrev landed_item : BatchItem
landed_item = record planned_item { status = ItemStatus.checkpointed }

abbrev landed_db : Db
landed_db = record after_delta {
  batches = (record planned_batch { run_id = 0; status = BatchStatus.checkpointed }) ∷ [];
  batch_items = landed_item ∷ [];
}

abbrev landed_plan : Db
landed_plan = record landed_db {
  runs = (record the_run { planned_batches = some 1 }) ∷ [];
  batches = landed_db.batches ++ ((record planned_batch { id = 2 }) ∷ []);
  batch_items = landed_item ∷ (record planned_item { batch_id = 2 }) ∷ [];
}

landed_runs : plan_run budget 50 1 landed_db ≡ ok (plan_outputs, landed_plan)
unfolding plan_run latest keep sort_by find text_beq any current_run tree_bytes disk_short
    changed_rows file_cap insert_batches pack drop_planned update_run outputs_of
landed_runs = refl

planned_items_example :
    (Begun landed_db landed_item → In landed_item landed_plan.batch_items)
    × (In landed_item landed_plan.batch_items
        → Begun landed_db landed_item
          ⊎ ((r : DeltaChanged) × Fitting budget 50 1 landed_db r × IsItemOf r landed_item))
planned_items_example =
    planned_items budget 50 1 landed_db landed_plan plan_outputs landed_runs landed_item

in_progress : current_run after_delta ≡ ok the_run
unfolding current_run latest keep
in_progress = refl

under_ceiling : ltb budget.ceiling_bytes (tree_bytes (some 1) after_delta) ≡ false
unfolding tree_bytes keep
under_ceiling = refl

disk_holds : disk_short budget 50 (stageable budget 50 1 after_delta) ≡ false
unfolding disk_short changed_rows file_cap keep sort_by
disk_holds = refl

run_succeeds_example :
    (after : Db) × (plan_run budget 50 1 after_delta
      ≡ ok (
        outputs_of budget 50
            (tree_bytes (some 1) after_delta)
            (keep (is_oversized (file_cap budget 50)) (changed_rows 1 after_delta))
            (stageable budget 50 1 after_delta)
            (batches_of budget 50 1 after_delta),
        after,
      ))
run_succeeds_example =
    run_succeeds budget 50 1 after_delta the_run in_progress under_ceiling disk_holds
      (λ b m. elim m [ ])

abbrev itself : ℕ → ℕ
itself n = n

concat-pack_example : concat (pack itself 10 2 (4 ∷ 5 ∷ 6 ∷ 20 ∷ 1 ∷ [])) ≡ 4 ∷ 5 ∷ 6 ∷ 20 ∷ 1 ∷ []
concat-pack_example = concat-pack itself 10 2 (4 ∷ 5 ∷ 6 ∷ 20 ∷ 1 ∷ [])

pack-Fits_example : All (Fits itself 10 2) (pack itself 10 2 (4 ∷ 5 ∷ 6 ∷ 20 ∷ 1 ∷ []))
pack-Fits_example = pack-Fits itself 10 2 (4 ∷ 5 ∷ 6 ∷ 20 ∷ 1 ∷ [])

pack-Tight_example : Tight itself 10 2 (pack itself 10 2 (4 ∷ 5 ∷ 6 ∷ 20 ∷ 1 ∷ []))
pack-Tight_example = pack-Tight itself 10 2 (4 ∷ 5 ∷ 6 ∷ 20 ∷ 1 ∷ [])
