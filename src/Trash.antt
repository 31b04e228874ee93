-- ===== src/Trash.antt =====
-- src/migrator/phases/p50_trash.py: the files that Dropbox no longer lists are trashed on Proton. The
-- calls of the provider and the push of the state are arguments.
pub mod Phase
pub mod Traced
pub mod Kept
use dropbox_mirror.Base.{
  if◌then◌else◌, ℕ, Bool, true, false, ◌&&◌, not, Option, none, some, List, [], ◌∷◌, ◌++◌, length,
  keep, find, Text, codes, ◌==◌, nat_eq, text_eq, option_eq, ltb,
}
use dropbox_mirror.Base.Json.{has_field, str, Json, Fields, get_field}
use dropbox_mirror.Batch.Staging.{base_name}
use dropbox_mirror.Failure.{Outcome}
use dropbox_mirror.Proton.Names.{unwrap, child_cli_path}
use dropbox_mirror.State.Tables.{Db, DeletionStatus, DeltaDeleted, Deletion}

-- A node of `list_folder`, whose fields are unwrapped by the caller.
pub record Calls : Type 0 where
  pub list_folder : Text → Outcome (List Fields)
  pub trash : List Text → Outcome (Unit {0})
  pub push : Text → Db → Outcome (Unit {0})
  pub casefold : Text → Text
  pub str_of : Json → Text
  pub now : Text

-- `str(unwrap(node.get(key)))`
unfoldable pub node_text : Calls → Text → Fields → Text
unfolding get_field unwrap
node_text calls key node = as_text (unwrap (get_field key node))
  where
    as_text : Json → Text
    as_text (str s) = s
    as_text value = calls.str_of value

-- `by_name.get(name, [])`
unfoldable pub candidates : Calls → Text → List Fields → List Fields
unfolding node_text
candidates calls name nodes = keep (λ (n : Fields). node_text calls (codes "name") n == name) nodes

unfoldable pub files_of : Calls → List Fields → List Fields
unfolding node_text
files_of calls nodes =
    keep (λ (n : Fields). calls.casefold (node_text calls (codes "type") n) == codes "file") nodes

abbrev pub head_of : List Fields → Option Fields
head_of [] = none
head_of (n ∷ ns) = some n

abbrev pub or_first : Option Fields → Option Fields → Option Fields
or_first (some n) first = some n
or_first none first = first

-- `next((n for n in files if uid(n) == row["proton_uid"]), next(iter(files), None))`
unfoldable pub choose : Calls → Option Text → List Fields → Option Fields
unfolding node_text
choose calls proton_uid files =
    or_first (find (λ (n : Fields). some (node_text calls (codes "uid") n) == proton_uid) files)
      (head_of files)

abbrev pub is_trashed : DeletionStatus → Bool
is_trashed DeletionStatus.trashed = true
is_trashed _ = false

abbrev pub same_deletion : ℕ → Text → Deletion → Bool
same_deletion run_id path_lower d = (d.run_id == run_id) && (d.path_lower == path_lower)

abbrev pub time_if : Bool → Text → Option Text
time_if true now = some now
time_if false now = none

-- `_record`: INSERT OR REPLACE.
unfoldable pub record_deletion : ℕ → Text → DeltaDeleted → DeletionStatus → Option Text → Db → Db
record_deletion run_id now row status uid db = record db {
  deletions =
      keep (λ (d : Deletion). not (same_deletion run_id row.path_lower d)) db.deletions
      ++ (record {
        run_id = run_id;
        path_lower = row.path_lower;
        path_display = row.path_display;
        proton_uid = uid;
        status = status;
        trashed_at = time_if (is_trashed status) now;
      }
          ∷ []);
}

pub record Counts : Type 0 where
  pub trashed : ℕ
  pub not_found : ℕ
  pub listing_failed : ℕ
  pub folders : ℕ

-- The targets of a folder and what was found for them. `lacks_uid` is that `node["uid"]` raised at a
-- row, so that the later rows were not reached.
pub record Targets : Type 0 where
  pub paths : List Text
  pub found : List (DeltaDeleted × Text)
  pub missing : List DeltaDeleted
  pub lacks_uid : Bool

abbrev pub more_than_one : List Fields → Bool
more_than_one nodes = ltb 1 (length nodes)

abbrev pub add_target :
    Calls → Text → DeltaDeleted → List Fields → Option Fields → Targets → Targets
add_target calls parent row nodes none t = record t { missing = row ∷ t.missing }
add_target calls parent row nodes (some node) t =
    let uid = node_text calls (codes "uid") node in
    if has_field (codes "uid") node
    then record t {
      paths =
          child_cli_path parent (base_name row.path_display) uid (more_than_one nodes) ∷ t.paths;
      found = (row, uid) ∷ t.found;
    }
    else record { paths = []; found = []; missing = []; lacks_uid = true }

-- `for row in group`: the rows without a node are recorded as they are met, the others later.
unfoldable pub targets_of : Calls → Text → List Fields → List DeltaDeleted → Targets
unfolding candidates files_of choose node_text child_cli_path base_name
targets_of calls parent nodes [] = record {
  paths = [];
  found = [];
  missing = [];
  lacks_uid = false;
}
targets_of calls parent nodes (row ∷ rows) =
    let named = candidates calls (base_name row.path_display) nodes in
    add_target calls parent row named (choose calls row.proton_uid (files_of calls named))
      (targets_of calls parent nodes rows)
