-- ===== src/Reconcile/Run.antt =====
-- src/migrator/phases/p60_reconcile.py: the phase.
use dropbox_mirror.Base.{
  ℕ, ◌+◌, ◌*◌, Bool, true, not, Option, none, some, List, [], ◌∷◌, ◌++◌, length, find, Text, codes,
  ◌==◌, nat_eq, text_eq, option_eq, if◌then◌else◌, ltb, ok, err,
}
use dropbox_mirror.Base.Int.{ℤ, sub_ℕ}
use dropbox_mirror.Failure.{Failure, Outcome}
use dropbox_mirror.Reconcile.Mirror.{
  reconciled, planned_walk, skipped, partial, Corrections, folder_counts, Reconciler,
  prune_other_snapshots, correct_mirror, Reconciled,
}
use dropbox_mirror.Reconcile.Unknown.{stray_folders, stray_files, file_nodes, dropbox_files}
use dropbox_mirror.State.Runs.{current_run}
use dropbox_mirror.State.Tables.{Run, WalkStatus, ProtonSnapshot, Db}

abbrev pub known_of : Reconciler → Option ℕ → Corrections → Db → List Text
known_of services inventory_id c db = c.known ++ dropbox_files services inventory_id db

-- `if paths: proton.trash(paths, PHASE)`
abbrev pub trash_if : Reconciler → List Text → Db → Outcome (Unit {0}) × Db
trash_if services [] db = (ok tt, db)
trash_if services (path ∷ paths) db = services.trash (path ∷ paths) db

abbrev pub and_pass :
    Outcome (Unit {0}) × Db → (Db → Outcome Reconciled × Db) → Outcome Reconciled × Db
and_pass (err e, db) next = (err e, db)
and_pass (ok done, db) next = next db

abbrev pub push_then : Outcome (Unit {0}) → Reconciled → Db → Outcome Reconciled × Db
push_then (err e) result db = (err e, db)
push_then (ok done) result db = (ok result, db)

-- A walk that is finished: the mirror is corrected and what nothing knows is trashed.
unfoldable pub reconcile : Reconciler → Text → ℕ → Option ℕ → Db → Outcome Reconciled × Db
unfolding correct_mirror file_nodes dropbox_files stray_files stray_folders
reconcile services label snapshot_id inventory_id db =
    let nodes = file_nodes snapshot_id db in
    let (c, corrected) = correct_mirror services nodes db in
    let known = known_of services inventory_id c corrected in
    let strays = stray_files known nodes in
    and_pass (trash_if services strays corrected) (λ trashed.
      let folders = stray_folders services snapshot_id inventory_id known trashed in
      and_pass (trash_if services folders trashed) (λ after.
        push_then (services.push label after)
          (reconciled (record {
            snapshot_id = snapshot_id;
            proton_files = length nodes;
            dropped = c.dropped;
            uid_refreshed = c.refreshed;
            strays_trashed = length strays;
            folders_trashed = length folders;
            matched = c.matched;
            sha1_mismatch = c.sha1_mismatch;
          }))
          after))

abbrev pub status_at : ℕ → Db → Option WalkStatus
status_at snapshot_id db = elim (find (λ (s : ProtonSnapshot). s.id == snapshot_id) db.snapshots) [
  | none ↦ none
  | some s ↦ some s.status
]

-- A walk that was stopped is kept for the next time; a complete one is used.
unfoldable pub after_walk : Reconciler → Text → Option ℕ → Outcome ℕ × Db → Outcome Reconciled × Db
unfolding find prune_other_snapshots folder_counts reconcile
after_walk services label inventory_id (err e, db) = (err e, db)
after_walk services label inventory_id (ok snapshot_id, db) =
    by_status (status_at snapshot_id pruned)
  where
    pruned : Db
    pruned = prune_other_snapshots snapshot_id db

    by_status : Option WalkStatus → Outcome Reconciled × Db
    by_status none = (err Failure.other, pruned)
    by_status (some WalkStatus.running) =
        push_then (services.push label pruned) (partial (folder_counts snapshot_id pruned).1) pruned
    by_status (some WalkStatus.complete) = reconcile services label snapshot_id inventory_id pruned

-- `remaining_batches is None or int(remaining_batches) > 0`
abbrev pub batches_remain : Option ℕ → Bool
batches_remain none = true
batches_remain (some n) = ltb 0 n

abbrev pub skip_reason : Run → Option Text
skip_reason r =
    if not r.reconcile
    then some (codes "not a reconcile run")
    else if batches_remain r.remaining_batches
    then some (codes "batches remain")
    else none

unfoldable pub deadline_of : Run → ℤ
deadline_of r = sub_ℕ (r.start_epoch + r.budget_minutes * 60) 600

abbrev pub walk_then : Reconciler → Run → Outcome (Unit {0}) × Db → Outcome Reconciled × Db
walk_then services r (err e, db) = (err e, db)
walk_then services r (ok done, db) =
    after_walk services (services.digits r.start_epoch ++ codes "-reconcile") r.inventory_id
      (services.inventory (deadline_of r) db)

abbrev pub run_row : Reconciler → Db → Run → Option Text → Outcome Reconciled × Db
run_row services db r (some reason) = (ok (skipped reason), db)
run_row services db r none =
    if services.apply then walk_then services r (services.root_uid db) else (ok planned_walk, db)

-- `run`
unfoldable pub run : Reconciler → Db → Outcome Reconciled × Db
unfolding current_run after_walk deadline_of
run services db = of_row (current_run db)
  where
    of_row : Outcome Run → Outcome Reconciled × Db
    of_row (err e) = (err e, db)
    of_row (ok r) = run_row services db r (skip_reason r)
