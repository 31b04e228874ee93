-- ===== src/Trash/Phase.antt =====
-- src/migrator/phases/p50_trash.py, `run`. The database is returned with an exception, too: each
-- row is committed on its own.
use dropbox_mirror.Base.{
  ℕ, ◌+◌, Bool, true, false, ◌&&◌, not, Option, none, some, List, [], ◌∷◌, map, length, keep, any,
  Text, ◌==◌, nat_eq, text_eq, option_eq, if◌then◌else◌, ltb, ok, err,
}
use dropbox_mirror.Base.Sort.{sort_by}
use dropbox_mirror.Batch.Staging.{distinct, parent_cli_path}
use dropbox_mirror.Failure.{key_missing, proton_cli_error, class, Outcome, FailureClass}
use dropbox_mirror.State.Runs.{current_run}
use dropbox_mirror.State.Tables.{Run, MirrorObject, Deletion, DeltaDeleted, DeletionStatus, Db}
use dropbox_mirror.Trash.{Fields, targets_of, Calls, Targets, Counts, record_deletion}

abbrev pub record_all : ℕ → Text → DeletionStatus → List DeltaDeleted → Db → Db
record_all run_id now status [] db = db
record_all run_id now status (row ∷ rows) db =
    record_all run_id now status rows (record_deletion run_id now row status none db)

abbrev pub record_trashed : ℕ → Text → List (DeltaDeleted × Text) → Db → Db
record_trashed run_id now [] db = db
record_trashed run_id now (f ∷ found) db =
    record_trashed run_id now found
      (record_deletion run_id now (f.0) DeletionStatus.trashed (some (f.1)) db)

abbrev add_counts : ℕ → ℕ → Counts → Counts
add_counts trashed not_found c = record c {
  trashed = c.trashed + trashed;
  not_found = c.not_found + not_found;
  folders = c.folders + 1;
}

-- `proton.trash(targets, PHASE)` has returned or raised.
abbrev pub after_trash : ℕ → Text → Targets → Counts → Db → Outcome (Unit {0}) → Outcome Counts × Db
after_trash run_id now t c db (err e) = (err e, db)
after_trash run_id now t c db (ok done) =
    (ok (add_counts (length t.found) (length t.missing) c), record_trashed run_id now t.found db)

-- A folder that has been listed.
unfoldable pub trash_listed : Calls → ℕ → Targets → Counts → Db → Outcome Counts × Db
unfolding record_deletion
trash_listed calls run_id t c db =
    let recorded = record_all run_id calls.now DeletionStatus.not_found t.missing db in
    if t.lacks_uid
    then (err key_missing, recorded)
    else if length t.paths == 0
    then (ok (add_counts 0 (length t.missing) c), recorded)
    else after_trash run_id calls.now t c recorded (calls.trash t.paths)

abbrev pub is_cli_error : FailureClass → Bool
is_cli_error proton_cli_error = true
is_cli_error _ = false

-- One round of `for parent, group`.
unfoldable pub trash_group :
    Calls → ℕ → Text → List DeltaDeleted → Outcome (List Fields) → Counts → Db → Outcome Counts × Db
unfolding trash_listed targets_of record_deletion
trash_group calls run_id parent group (ok nodes) c db =
    trash_listed calls run_id (targets_of calls parent nodes group) c db
trash_group calls run_id parent group (err e) c db =
    if is_cli_error (class e)
    then (
      ok (record c { listing_failed = c.listing_failed + length group }),
      record_all run_id calls.now DeletionStatus.listing_failed group db,
    )
    else (err e, db)

abbrev pub in_folder : Text → Text → DeltaDeleted → Bool
in_folder destination parent r = parent_cli_path destination r.path_display == parent

abbrev pub next_group :
    (Counts → Db → Outcome Counts × Db) → Outcome Counts × Db → Outcome Counts × Db
next_group loop (ok c, db) = loop c db
next_group loop (err e, db) = (err e, db)

unfoldable pub trash_groups :
    Calls → ℕ → Text → List DeltaDeleted → List Text → Counts → Db → Outcome Counts × Db
unfolding trash_group parent_cli_path
trash_groups calls run_id destination rows [] c db = (ok c, db)
trash_groups calls run_id destination rows (parent ∷ parents) c db =
    next_group (trash_groups calls run_id destination rows parents) (
      trash_group calls run_id parent (keep (in_folder destination parent) rows)
        (calls.list_folder parent) c db)

abbrev pub is_gone : DeletionStatus → Bool
is_gone DeletionStatus.trashed = true
is_gone DeletionStatus.not_found = true
is_gone DeletionStatus.listing_failed = false

-- `path_lower IN (SELECT path_lower FROM deletions WHERE run_id=? AND status IN (...))`
abbrev pub gone_from : ℕ → List Deletion → Text → Bool
gone_from run_id deletions path_lower =
    any (λ (d : Deletion). (d.run_id == run_id) && is_gone d.status && (d.path_lower == path_lower))
      deletions

unfoldable pub forget_gone : ℕ → Db → Db
forget_gone run_id db = record db {
  mirror = keep (λ (m : MirrorObject). not (gone_from run_id db.deletions m.path_lower)) db.mirror;
}

-- What the phase returns: the counts, or why there are none.
pub data TrashResult : Type 0 where
  deferred : ℕ → TrashResult
  counted : ℕ → Counts → TrashResult

abbrev pub no_counts : Counts
no_counts = record { trashed = 0; not_found = 0; listing_failed = 0; folders = 0 }

abbrev pub after_push : ℕ → Counts → Db → Outcome (Unit {0}) → Outcome TrashResult × Db
after_push n c db (err e) = (err e, db)
after_push n c db (ok done) = (ok (counted n c), db)

unfoldable pub end_trash : Calls → ℕ → Text → ℕ → Outcome Counts × Db → Outcome TrashResult × Db
unfolding forget_gone
end_trash calls run_id label n (err e, db) = (err e, db)
end_trash calls run_id label n (ok c, db) =
    after_push n c (forget_gone run_id db) (calls.push label (forget_gone run_id db))

abbrev pub same_text : Text → Text
same_text s = s

abbrev pub trash_rows :
    Calls → ℕ → Text → Text → Outcome (Unit {0}) → List DeltaDeleted → Db → Outcome TrashResult × Db
trash_rows calls run_id label destination root [] db = (ok (counted 0 no_counts), db)
trash_rows calls run_id label destination (err e) (r ∷ rows) db = (err e, db)
trash_rows calls run_id label destination (ok done) (r ∷ rows) db =
    let parents =
      map (λ (d : DeltaDeleted). parent_cli_path destination d.path_display) (r ∷ rows) in
    end_trash calls run_id label (length (r ∷ rows)) (
      trash_groups calls run_id destination (r ∷ rows) (sort_by same_text (distinct parents))
        no_counts db)

-- `remaining_batches is None or > 0`
abbrev pub batches_remain : Option ℕ → Bool
batches_remain none = true
batches_remain (some n) = ltb 0 n

unfoldable pub deleted_rows_of : ℕ → Db → List DeltaDeleted
deleted_rows_of run_id db =
    sort_by (λ (d : DeltaDeleted). d.path_lower)
      (keep (λ (d : DeltaDeleted). d.run_id == run_id) db.delta_deleted)

abbrev pub with_run :
    Calls → ℕ → Text → Text → Outcome (Unit {0}) → Db → Outcome Run → Outcome TrashResult × Db
with_run calls run_id label destination root db (err e) = (err e, db)
with_run calls run_id label destination root db (ok r) =
    let rows = deleted_rows_of run_id db in
    if batches_remain r.remaining_batches
    then (ok (deferred (length rows)), db)
    else trash_rows calls run_id label destination root rows db

-- `run` with `apply`; `root` is what `proton.root_uid` comes to.
unfoldable pub run : Calls → ℕ → Text → Text → Outcome (Unit {0}) → Db → Outcome TrashResult × Db
unfolding current_run deleted_rows_of trash_groups end_trash parent_cli_path
run calls run_id label destination root db =
    with_run calls run_id label destination root db (current_run db)
