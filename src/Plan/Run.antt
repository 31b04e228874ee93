-- ===== src/Plan/Run.antt =====
-- src/migrator/phases/p30_plan.py, `run`: the gates, the files that are left out, and the rows
-- that the plan writes. The free space of the disk is an argument.
pub mod Gates
pub mod Written
pub mod Items
pub mod Disk
use dropbox_mirror.Base.{
  ℕ, zero, suc, ◌+◌, Bool, true, false, ◌&&◌, ◌||◌, not, Option, none, some, List, [], ◌∷◌, ◌++◌,
  map, sum, length, keep, any, maximum, min, max, Text, ◌==◌, nat_eq, text_eq, option_eq,
  if◌then◌else◌, ltb, ok, err, ◌>>=◌, guard, ◌>>◌,
}
use dropbox_mirror.Base.Int.{ℤ, pos, sub_ℕ, ltb_ℤ}
use dropbox_mirror.Base.Rows.{next_id}
use dropbox_mirror.Base.Sort.{sort_by}
use dropbox_mirror.Config.{Budget}
use dropbox_mirror.Failure.{Failure, Outcome, over_ceiling, disk_cannot_hold_batch, integrity}
use dropbox_mirror.Plan.Pack.{pack}
use dropbox_mirror.State.Runs.{current_run, update_run, Assign}
use dropbox_mirror.State.Tables.{
  Db, Run, Tag, DropboxObject, DeltaChanged, Batch, BatchStatus, BatchItem, ItemStatus,
}

abbrev pub is_file : Tag → Bool
is_file Tag.file = true
is_file _ = false

-- `inventory_id=? AND tag='file' AND is_downloadable=1`; no row has the id NULL.
abbrev pub is_listed : Option ℕ → DropboxObject → Bool
is_listed inventory_id d =
    (some d.inventory_id == inventory_id) && is_file d.tag && d.is_downloadable

abbrev pub or_zero : Option ℕ → ℕ
or_zero none = 0
or_zero (some n) = n

-- `COALESCE(SUM(size), 0)`: SUM passes over NULL.
unfoldable pub tree_bytes : Option ℕ → Db → ℕ
tree_bytes inventory_id db =
    sum (map (λ (d : DropboxObject). or_zero d.size) (keep (is_listed inventory_id) db.objects))

abbrev pub size_of : DeltaChanged → ℕ
size_of row = row.size

-- `ORDER BY path_lower`
unfoldable pub changed_rows : ℕ → Db → List DeltaChanged
changed_rows run_id db =
    sort_by (λ (d : DeltaChanged). d.path_lower)
      (keep (λ (d : DeltaChanged). d.run_id == run_id) db.delta_changed)

abbrev pub min_ℤ : ℤ → ℤ → ℤ
min_ℤ a b = if ltb_ℤ b a then b else a

-- `min(budget.max_file_bytes, free - budget.headroom_bytes)`: below zero on a full disk.
unfoldable pub file_cap : Budget → ℕ → ℤ
file_cap budget free = min_ℤ (pos budget.max_file_bytes) (sub_ℕ free budget.headroom_bytes)

-- `int(r["size"]) <= file_cap`
abbrev pub is_stageable : ℤ → DeltaChanged → Bool
is_stageable cap row = not (ltb_ℤ cap (pos row.size))

abbrev pub is_oversized : ℤ → DeltaChanged → Bool
is_oversized cap row = ltb_ℤ cap (pos row.size)

unfoldable pub largest_of : List DeltaChanged → ℕ
largest_of rows = maximum (map size_of rows)

abbrev pub total_of : List DeltaChanged → ℕ
total_of rows = sum (map size_of rows)

unfoldable pub needed_bytes : Budget → List DeltaChanged → ℕ
unfolding largest_of
needed_bytes budget rows =
    max (largest_of rows) (min budget.batch_bytes (total_of rows)) + budget.headroom_bytes

-- `largest and free < needed`
unfoldable pub disk_short : Budget → ℕ → List DeltaChanged → Bool
unfolding needed_bytes
disk_short budget free rows = ltb 0 (largest_of rows) && ltb free (needed_bytes budget rows)

abbrev pub is_planned : BatchStatus → Bool
is_planned BatchStatus.planned = true
is_planned _ = false

-- `batch_id IN (SELECT id FROM batches WHERE status='PLANNED')`
abbrev pub in_planned : List Batch → BatchItem → Bool
in_planned batches i = any (λ (b : Batch). is_planned b.status && b.id == i.batch_id) batches

-- The two DELETE statements.
unfoldable pub drop_planned : Db → Db
drop_planned db = record db {
  batch_items = keep (λ (i : BatchItem). not (in_planned db.batches i)) db.batch_items;
  batches = keep (λ (b : Batch). not (is_planned b.status)) db.batches;
}

abbrev pub new_item : ℕ → DeltaChanged → BatchItem
new_item batch_id r = record {
  batch_id = batch_id;
  path_lower = r.path_lower;
  path_display = r.path_display;
  size = r.size;
  content_hash = r.content_hash;
  status = ItemStatus.planned;
  sha1 = none;
  sha256 = none;
}

abbrev pub new_batch : ℕ → ℕ → ℕ → List DeltaChanged → Batch
new_batch id run_id number rows = record {
  id = id;
  run_id = run_id;
  number = number;
  bytes = total_of rows;
  file_count = length rows;
  status = BatchStatus.planned;
  started_at = none;
  completed_at = none;
}

-- UNIQUE(run_id, number)
abbrev pub number_taken : ℕ → ℕ → List Batch → Bool
number_taken run_id number batches =
    any (λ (b : Batch). b.run_id == run_id && b.number == number) batches

-- The two INSERT statements of one round. The keys of `batch_items` are not tested: the id of the
-- batch is new, and the paths of a run are the primary key of `delta_changed`.
unfoldable pub insert_batch : ℕ → ℕ → List DeltaChanged → Db → Outcome Db
insert_batch run_id number rows db =
    let id = next_id (λ (b : Batch). b.id) db.batches in
    if number_taken run_id number db.batches
    then err integrity
    else ok (record db {
      batches = db.batches ++ (new_batch id run_id number rows ∷ []);
      batch_items = db.batch_items ++ map (new_item id) rows;
    })

-- `for number, batch in enumerate(batches, start=1)`
unfoldable pub insert_batches : ℕ → ℕ → List (List DeltaChanged) → Db → Outcome Db
unfolding insert_batch
insert_batches run_id number [] db = ok db
insert_batches run_id number (rows ∷ batches) db =
    insert_batch run_id number rows db >>= insert_batches run_id (number + 1) batches

pub record PlanOutputs : Type 0 where
  pub batches : ℕ
  pub files : ℕ
  pub bytes : ℕ
  pub largest_file : ℕ
  pub tree_bytes : ℕ
  pub free_bytes : ℕ
  pub file_cap_bytes : ℤ
  pub oversized_files : ℕ
  pub oversized_bytes : ℕ

unfoldable pub outputs_of :
    Budget → ℕ → ℕ → List DeltaChanged → List DeltaChanged → List (List DeltaChanged) → PlanOutputs
outputs_of budget free tree oversized rows batches = record {
  batches = length batches;
  files = length rows;
  bytes = total_of rows;
  largest_file = largest_of rows;
  tree_bytes = tree;
  free_bytes = free;
  file_cap_bytes = file_cap budget free;
  oversized_files = length oversized;
  oversized_bytes = total_of oversized;
}

-- A transaction that raises leaves the database as it was: the state comes back only on success.
unfoldable pub run : Budget → ℕ → ℕ → Db → Outcome (PlanOutputs × Db)
run budget free run_id db = do
  r ← current_run db
  let tree = tree_bytes r.inventory_id db
  guard (not (ltb budget.ceiling_bytes tree)) over_ceiling
  let all_rows = changed_rows run_id db
  let oversized = keep (is_oversized (file_cap budget free)) all_rows
  let rows = keep (is_stageable (file_cap budget free)) all_rows
  guard (not (disk_short budget free rows)) disk_cannot_hold_batch
  let batches = pack size_of budget.batch_bytes budget.batch_files rows
  written ← insert_batches run_id 1 batches (drop_planned db)
  done ← update_run run_id (Assign.planned_batches (some (length batches)) ∷ []) written
  ok (outputs_of budget free tree oversized rows batches, done)
