-- ===== src/Batch/Steps.antt =====
-- src/migrator/phases/batch.py: `upload`, `confirm` and `checkpoint`, and the five steps of a batch
-- in the order in which src/migrator/phases/p40_batches.py takes them.
use dropbox_mirror.Base.{
  ℕ, zero, suc, ◌-◌, Bool, Option, none, some, List, [], ◌∷◌, map, sum, length, keep, Text, ◌==◌,
  nat_eq, text_eq, option_eq, if◌then◌else◌, ok, err, ◌>>=◌,
}
use dropbox_mirror.Base.Json.{Fields}
use dropbox_mirror.Batch.Fetch.{fetch}
use dropbox_mirror.Batch.Items.{
  to, in_batch, set_item, Work, Step, Report, move_all, items, Services,
}
use dropbox_mirror.Batch.Staging.{no_files, top_level}
use dropbox_mirror.Batch.Summary.{
  read_summary, Summary, failed_names, last_summary, failed_rows, is_confirmed,
}
use dropbox_mirror.Batch.Verify.{verify}
use dropbox_mirror.Failure.{integrity, summary_missing, Outcome}
use dropbox_mirror.Hashing.{Sha}
use dropbox_mirror.State.Tables.{ItemStatus, Batch, Db, MirrorObject, BatchStatus, BatchItem}

pub record Uploaded : Type 0 where
  pub uploaded_files : ℕ
  pub uploaded_bytes : ℕ

abbrev item_bytes : List BatchItem → ℕ
item_bytes rows = sum (map (λ (i : BatchItem). i.size) rows)

-- `proton.upload_tree` has returned, or raised; the report replaces an earlier one of the batch.
-- The row that `record_artifact` adds for the report, and its failure, are left out.
abbrev pub end_upload : ℕ → List BatchItem → Work → Outcome Report × Db → Outcome Uploaded × Work
end_upload batch_id rows w (err e, db) = (err e, record w { db = db })
end_upload batch_id rows w (ok report, db) = (
  ok (record { uploaded_files = length rows; uploaded_bytes = item_bytes rows }),
  record w { db = db; reports = (batch_id, report) ∷ w.reports },
)

abbrev pub upload_rows : Services → Text → ℕ → List BatchItem → Step Uploaded
upload_rows sv destination batch_id [] w =
    (ok (record { uploaded_files = 0; uploaded_bytes = 0 }), w)
upload_rows sv destination batch_id (r ∷ rows) w =
    end_upload batch_id (r ∷ rows) w (sv.upload_tree (top_level w.staging) destination w.db)

unfoldable pub upload : Services → Text → ℕ → Step Uploaded
unfolding items top_level
upload sv destination batch_id w =
    upload_rows sv destination batch_id (items batch_id ItemStatus.verified w.db) w

-- The report of a batch; an empty one when there is none, which has no summary either.
abbrev pub report_of : ℕ → List (ℕ × Report) → Report
report_of batch_id [] = []
report_of batch_id (r ∷ reports) = if r.0 == batch_id then r.1 else report_of batch_id reports

pub record Confirmed : Type 0 where
  pub confirmed : ℕ
  pub skipped_identical : ℕ
  pub confirm_failed : ℕ

abbrev pub fail_items : List BatchItem → Db → Db
fail_items [] db = db
fail_items (r ∷ rows) db =
    fail_items rows (set_item r.batch_id r.path_lower (to ItemStatus.confirm_failed) db)

-- The transaction, and what is returned.
unfoldable pub settle : Services → ℕ → List BatchItem → Work → Summary → Outcome Confirmed × Work
unfolding is_confirmed failed_rows set_item move_all failed_names
settle sv batch_id rows w s =
    let failed = failed_rows (failed_names sv s.failures) rows in
    if is_confirmed sv s (length w.staging.folders) rows
    then (
      ok (record {
        confirmed = length rows - length failed;
        skipped_identical = s.skipped;
        confirm_failed = length failed;
      }),
      record w {
        db = move_all batch_id ItemStatus.verified ItemStatus.confirmed (fail_items failed w.db);
      },
    )
    else (
      ok (record { confirmed = 0; skipped_identical = 0; confirm_failed = length rows }),
      record w { db = move_all batch_id ItemStatus.verified ItemStatus.confirm_failed w.db },
    )

abbrev pub with_summary :
    Services → ℕ → List BatchItem → Work → Outcome Summary → Outcome Confirmed × Work
with_summary sv batch_id rows w (err e) = (err e, w)
with_summary sv batch_id rows w (ok s) = settle sv batch_id rows w s

abbrev pub confirm_rows :
    Services → ℕ → List BatchItem → Option Fields → Work → Outcome Confirmed × Work
confirm_rows sv batch_id [] summary w =
    (ok (record { confirmed = 0; skipped_identical = 0; confirm_failed = 0 }), w)
confirm_rows sv batch_id (r ∷ rows) none w = (err summary_missing, w)
confirm_rows sv batch_id (r ∷ rows) (some fields) w =
    with_summary sv batch_id (r ∷ rows) w (read_summary sv fields)

unfoldable pub confirm : Services → ℕ → Step Confirmed
unfolding items last_summary read_summary settle
confirm sv batch_id w =
    confirm_rows sv batch_id (items batch_id ItemStatus.verified w.db)
      (last_summary (report_of batch_id w.reports)) w

pub record Checkpointed : Type 0 where
  pub checkpointed : ℕ
  pub failed : ℕ

abbrev pub is_mirrored : Text → MirrorObject → Bool
is_mirrored path_lower m = m.path_lower == path_lower

abbrev pub mirror_row : ℕ → Text → BatchItem → Text → Text → MirrorObject
mirror_row run_id now r sha1 sha256 = record {
  path_lower = r.path_lower;
  path_display = r.path_display;
  size = r.size;
  content_hash = r.content_hash;
  sha1 = sha1;
  sha256 = sha256;
  proton_uid = none;
  run_id = run_id;
  mirrored_at = now;
}

-- ON CONFLICT(path_lower): the row keeps its place and its `proton_uid`.
abbrev pub upsert : MirrorObject → List MirrorObject → List MirrorObject
upsert new [] = new ∷ []
upsert new (m ∷ mirror) =
    if is_mirrored new.path_lower m
    then (record new { proton_uid = m.proton_uid }) ∷ mirror
    else m ∷ upsert new mirror

-- NOT NULL on the two hashes.
abbrev pub merge_hashed :
    ℕ
    → Text
    → BatchItem
    → Option Text
    → Option Text
    → List MirrorObject
    → Outcome (List MirrorObject)
merge_hashed run_id now r (some sha1) (some sha256) mirror =
    ok (upsert (mirror_row run_id now r sha1 sha256) mirror)
merge_hashed run_id now r _ _ mirror = err integrity

-- The `executemany`.
unfoldable pub merge : ℕ → Text → List BatchItem → List MirrorObject → Outcome (List MirrorObject)
merge run_id now [] mirror = ok mirror
merge run_id now (r ∷ rows) mirror =
    merge_hashed run_id now r r.sha1 r.sha256 mirror >>= merge run_id now rows

abbrev pub end_batch : ℕ → Text → BatchStatus → Batch → Batch
end_batch batch_id now status b =
    if b.id == batch_id then record b { status = status; completed_at = some now } else b

-- `"FAILED" if failed and not good else "CHECKPOINTED"`
abbrev batch_status : ℕ → List BatchItem → BatchStatus
batch_status zero good = BatchStatus.checkpointed
batch_status (suc n) [] = BatchStatus.failed
batch_status (suc n) (r ∷ good) = BatchStatus.checkpointed

abbrev pub failed_count : ℕ → Db → ℕ
failed_count batch_id db =
    length (keep (in_batch batch_id ItemStatus.confirm_failed) db.batch_items)

-- The transaction, once the rows are merged.
unfoldable pub end_checkpoint : ℕ → Text → List BatchItem → Db → List MirrorObject → Db
unfolding move_all
end_checkpoint batch_id now good db mirror =
    let moved = move_all batch_id ItemStatus.confirmed ItemStatus.checkpointed db in
    record moved {
      mirror = mirror;
      batches =
          map (end_batch batch_id now (batch_status (failed_count batch_id moved) good))
            moved.batches;
    }

-- `f"{history_label(ctx)}-{number}"` is an argument.
abbrev pub push_state :
    Services → Text → Checkpointed → Work → Outcome (Unit {0}) → Outcome Checkpointed × Work
push_state sv label c w (err e) = (err e, w)
push_state sv label c w (ok done) =
    (ok c, record w { staging = no_files; pushed = (label, w.db) ∷ w.pushed })

abbrev pub merged :
    Services
    → Text
    → ℕ
    → List BatchItem
    → Work
    → Outcome (List MirrorObject)
    → Outcome Checkpointed × Work
merged sv label batch_id good w (err e) = (err e, w)
merged sv label batch_id good w (ok mirror) =
    let db = end_checkpoint batch_id sv.now good w.db mirror in
    push_state sv label (record { checkpointed = length good; failed = failed_count batch_id db })
      (record w { db = db }) (sv.push label db)

unfoldable pub checkpoint : Services → ℕ → Text → ℕ → Step Checkpointed
unfolding items merge end_checkpoint
checkpoint sv run_id label batch_id w =
    let good = items batch_id ItemStatus.confirmed w.db in
    merged sv label batch_id good w (merge run_id sv.now good w.db.mirror)

abbrev pub continue : {A B : Type 0} → Step B → Outcome A × Work → Outcome B × Work
continue t (ok a, w) = t w
continue t (err e, w) = (err e, w)

-- A step and the next one, unless the first has raised.
infixl 5 ◌then◌
abbrev pub ◌then◌ : {A B : Type 0} → Step A → Step B → Step B
(s then t) w = continue t (s w)

-- `steps`
unfoldable pub run_steps : (sha256 sha1 : Sha) → Services → Text → ℕ → Text → ℕ → Step Checkpointed
unfolding fetch verify upload confirm checkpoint
run_steps sha256 sha1 sv destination run_id label batch_id =
    fetch sv batch_id
    then verify sha256 sha1 batch_id
    then upload sv destination batch_id
    then confirm sv batch_id
    then checkpoint sv run_id label batch_id
