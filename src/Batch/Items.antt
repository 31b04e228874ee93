-- ===== src/Batch/Items.antt =====
-- src/migrator/phases/batch.py: the rows of `batch_items`, and what a step reads and changes.
use dropbox_mirror.Base.{
  ℕ, Bool, ◌&&◌, Option, some, List, map, keep, Text, ◌==◌, nat_eq, text_eq, option_eq,
  if◌then◌else◌,
}
use dropbox_mirror.Base.Json.{Json}
use dropbox_mirror.Base.Sort.{sort_by}
use dropbox_mirror.Batch.Staging.{Staging}
use dropbox_mirror.Failure.{Outcome, Failure}
use dropbox_mirror.State.Tables.{Db, ItemStatus, BatchItem}

-- A JSON line of the upload's report; none is a line that `json.loads` refuses.
abbrev pub Report : Type 0
Report = List (Option Json)

-- What the steps change: the database, the staging directory, the upload reports by batch, and
-- the states that have been pushed to the store, each with its label, the latest first.
pub record Work : Type 0 where
  pub db : Db
  pub staging : Staging
  pub reports : List (ℕ × Report)
  pub pushed : List (Text × Db)

-- A step that raises leaves what it has changed.
abbrev pub Step : Type 0 → Type 0
Step A = Work → Outcome A × Work

-- `future.result()` of a download.
pub data Download : Type 0 where
  not_found : Download
  refused : Failure → Download
  content : List ℕ → Download

-- The other components and the builtins that the steps call: `dropbox.download`, one file at a
-- time, `proton.upload_tree` with its lines of output, `statefile.push` of a labelled state, the
-- clock, and `int` and `str` of JSON values that are no numbers or texts.
pub record Services : Type 0 where
  pub download : Text → Download
  pub upload_tree : List Text → Text → Db → Outcome Report × Db
  pub push : Text → Db → Outcome (Unit {0})
  pub now : Text
  pub int_of_text : Text → Option ℕ
  pub str_of : Json → Text

abbrev pub status_code : ItemStatus → ℕ
status_code ItemStatus.planned = 0
status_code ItemStatus.vanished = 1
status_code ItemStatus.fetched = 2
status_code ItemStatus.hash_mismatch = 3
status_code ItemStatus.verified = 4
status_code ItemStatus.confirmed = 5
status_code ItemStatus.confirm_failed = 6
status_code ItemStatus.checkpointed = 7

abbrev pub in_batch : ℕ → ItemStatus → BatchItem → Bool
in_batch batch_id status i =
    (i.batch_id == batch_id) && (status_code i.status == status_code status)

-- `items(ctx, batch_id, status)`
unfoldable pub items : ℕ → ItemStatus → Db → List BatchItem
items batch_id status db =
    sort_by (λ (i : BatchItem). i.path_lower) (keep (in_batch batch_id status) db.batch_items)

-- The columns that `_set_item` sets: the status, and the two hashes when they are given.
pub data Setting : Type 0 where
  to : ItemStatus → Setting
  hashed : Text → Text → Setting

abbrev pub apply : Setting → BatchItem → BatchItem
apply (to status) i = record i { status = status }
apply (hashed sha1 sha256) i = record i {
  status = ItemStatus.verified;
  sha1 = some sha1;
  sha256 = some sha256;
}

abbrev pub is_item : ℕ → Text → BatchItem → Bool
is_item batch_id path_lower i = (i.batch_id == batch_id) && (i.path_lower == path_lower)

abbrev pub set_at : ℕ → Text → Setting → BatchItem → BatchItem
set_at batch_id path_lower s i = if is_item batch_id path_lower i then apply s i else i

-- `_set_item`
unfoldable pub set_item : ℕ → Text → Setting → Db → Db
set_item batch_id path_lower s db = record db {
  batch_items = map (set_at batch_id path_lower s) db.batch_items;
}

abbrev pub change_status : ℕ → ItemStatus → ItemStatus → BatchItem → BatchItem
change_status batch_id old new i = if in_batch batch_id old i then record i { status = new } else i

-- `UPDATE batch_items SET status=? WHERE batch_id=? AND status=?`
unfoldable pub move_all : ℕ → ItemStatus → ItemStatus → Db → Db
move_all batch_id old new db = record db {
  batch_items = map (change_status batch_id old new) db.batch_items;
}
