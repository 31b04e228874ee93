-- ===== src/Proton/Snapshots.antt =====
-- src/migrator/providers/proton_cli.py: the snapshots of the destination and the rows of their folder
-- queue. The comparison key of a path and `str` of a JSON value that is no text are arguments. A
-- claimed size that is no number and a digest that is no text are read as NULL.
pub mod Children
pub mod Counted
use dropbox_mirror.Base.{
  ◌≡◌, refl, ok-injective, ℕ, ◌+◌, Bool, true, false, ◌&&◌, not, Option, none, some, List, [], ◌∷◌,
  ◌++◌, map, length, keep, any, Text, codes, ◌==◌, nat_eq, text_eq, option_eq, if◌then◌else◌, ltb,
  ok, err, guard, ◌>>◌,
}
use dropbox_mirror.Base.Json.{get_field, Fields, truthy, Json, null, num, obj, str}
use dropbox_mirror.Base.Rows.{next_id, latest}
use dropbox_mirror.Base.Strings.{join}
use dropbox_mirror.Failure.{proton_no_name, proton_no_uid, proton_queue, other, Outcome}
use dropbox_mirror.Proton.Names.{
  text_or_empty, python_str, child_cli_path, slash, section_root, unwrap,
}
use dropbox_mirror.State.Tables.{
  ProtonFolder, WalkStatus, FolderStatus, Db, ProtonNode, ProtonSnapshot,
}

pub record Naming : Type 0 where
  pub destination : Text
  pub now : Text
  pub comparison_key : Text → Text
  pub str_of : Json → Text

abbrev pub root_mark : Text
root_mark = codes "__ROOT__"

abbrev pub is_ours : Naming → Text → ProtonSnapshot → Bool
is_ours naming purpose s = (s.purpose == purpose) && (s.destination_root == naming.destination)

abbrev pub is_complete : WalkStatus → Bool
is_complete WalkStatus.complete = true
is_complete WalkStatus.running = false

abbrev pub is_done : FolderStatus → Bool
is_done FolderStatus.complete = true
is_done FolderStatus.pending = false

abbrev pub key_of : ProtonSnapshot → ℕ
key_of s = s.id

-- `_latest_complete`: without a row the code fails on None.
unfoldable pub latest_complete : Naming → Text → Db → Outcome ℕ
unfolding latest keep
latest_complete naming purpose db = id_of (
    latest key_of (
      keep (λ (s : ProtonSnapshot). is_ours naming purpose s && is_complete s.status) db.snapshots))
  where
    id_of : Option ProtonSnapshot → Outcome ℕ
    id_of none = err other
    id_of (some s) = ok s.id

-- `_new_snapshot`
unfoldable pub new_snapshot : Naming → Text → Text → Db → ℕ × Db
new_snapshot naming purpose cli_version db =
    let id = next_id key_of db.snapshots in
    (
      id,
      record db {
        snapshots =
            db.snapshots
            ++ (record {
              id = id;
              purpose = purpose;
              started_at = naming.now;
              completed_at = none;
              status = WalkStatus.running;
              destination_root = naming.destination;
              cli_version = cli_version;
            }
                ∷ []);
        folders =
            db.folders
            ++ (record {
              snapshot_id = id;
              uid = root_mark;
              parent_uid = none;
              visible_segments = [];
              cli_path = naming.destination;
              status = FolderStatus.pending;
              attempt_count = 0;
              last_error_category = none;
            }
                ∷ []);
      },
    )

abbrev pub some_first : ℕ × Db → Option ℕ × Db
some_first (id, db) = (some id, db)

-- The rest of `_open_snapshot`, from the row it found. Every status is RUNNING or COMPLETE.
unfoldable pub resume_snapshot :
    Naming → Text → Bool → Text → Db → Option ProtonSnapshot → Option ℕ × Db
unfolding new_snapshot
resume_snapshot naming purpose reuse_complete cli_version db none =
    some_first (new_snapshot naming purpose cli_version db)
resume_snapshot naming purpose reuse_complete cli_version db (some s) =
    if is_complete s.status
    then (if reuse_complete
        then (none, db)
        else some_first (new_snapshot naming purpose cli_version db))
    else (some s.id, db)

-- `_open_snapshot` after the version is known: `none` says that a complete walk is reused.
unfoldable pub open_snapshot : Naming → Text → Bool → Text → Db → Option ℕ × Db
unfolding latest keep resume_snapshot
open_snapshot naming purpose reuse_complete cli_version db =
    resume_snapshot naming purpose reuse_complete cli_version db
      (latest key_of (keep (is_ours naming purpose) db.snapshots))

abbrev pub of_snapshot : ℕ → ProtonFolder → Bool
of_snapshot snapshot_id f = f.snapshot_id == snapshot_id

abbrev pub close_row : Text → ℕ → ProtonSnapshot → ProtonSnapshot
close_row now snapshot_id s =
    if s.id == snapshot_id
    then record s { status = WalkStatus.complete; completed_at = some now }
    else s

-- `_close_snapshot`
unfoldable pub close_snapshot : Naming → ℕ → Db → Outcome (Unit {0}) × Db
unfolding any
close_snapshot naming snapshot_id db =
    if any (λ (f : ProtonFolder). of_snapshot snapshot_id f && not (is_done f.status)) db.folders
    then (err proton_queue, db)
    else (ok tt, record db { snapshots = map (close_row naming.now snapshot_id) db.snapshots })

-- `list_path`
unfoldable pub list_path : Naming → ProtonFolder → Text
unfolding section_root
list_path naming folder =
    if folder.uid == root_mark
    then folder.cli_path
    else section_root naming.destination ++ (slash ∷ folder.uid)

abbrev node_of_row : ℕ → Text → ProtonNode → Bool
node_of_row snapshot_id uid n = (n.snapshot_id == snapshot_id) && (n.uid == uid)

abbrev pub is_folder_row : ℕ → Text → ProtonFolder → Bool
is_folder_row snapshot_id uid f = (f.snapshot_id == snapshot_id) && (f.uid == uid)

abbrev as_number : Json → Option ℕ
as_number (num n) = some n
as_number _ = none

abbrev as_text : Json → Option Text
as_text (str s) = some s
as_text _ = none

abbrev as_flag : Json → Option Bool
as_flag null = none
as_flag value = some (truthy value)

-- `unwrap(value.get(key))` if the value is a dict, and NULL otherwise.
abbrev within : Text → Json → Json
within key (obj fields) = unwrap (get_field key fields)
within key _ = null

-- `Counter(names)`: the names that stand at more than one child.
abbrev occurrences : Text → List Text → ℕ
occurrences name names = length (keep (λ n. n == name) names)

abbrev pub field_text : Naming → Text → Fields → Text
field_text naming key node = python_str naming.str_of (unwrap (get_field key node))

-- The row of a child.
unfoldable pub node_of : Naming → ℕ → ProtonFolder → List Text → Fields → ProtonNode
unfolding unwrap get_field child_cli_path join keep truthy text_or_empty
node_of naming snapshot_id folder names node =
    let name = field_text naming (codes "name") node in
    let uid = field_text naming (codes "uid") node in
    let segments = folder.visible_segments ++ (name ∷ []) in
    let relative = join slash segments in
    let active = unwrap (get_field (codes "activeRevision") node) in
    let digests = within (codes "claimedDigests") active in
    record {
      snapshot_id = snapshot_id;
      uid = uid;
      parent_uid = folder.uid;
      visible_segments = segments;
      relative_path = relative;
      cli_path = child_cli_path folder.cli_path name uid (ltb 1 (occurrences name names));
      comparison_key = naming.comparison_key relative;
      name = name;
      node_type = text_or_empty naming.str_of (unwrap (get_field (codes "type") node));
      claimed_size = as_number (within (codes "claimedSize") active);
      sha1 = as_text (within (codes "sha1") digests);
      sha1_verified = as_flag (within (codes "sha1Verified") digests);
    }

-- `INSERT OR REPLACE INTO proton_nodes`
unfoldable pub put_node : ProtonNode → List ProtonNode → List ProtonNode
unfolding keep
put_node n nodes =
    keep (λ (m : ProtonNode). not (node_of_row n.snapshot_id n.uid m)) nodes ++ (n ∷ [])

abbrev pub queue_row : ProtonNode → ProtonFolder
queue_row n = record {
  snapshot_id = n.snapshot_id;
  uid = n.uid;
  parent_uid = some n.parent_uid;
  visible_segments = n.visible_segments;
  cli_path = n.cli_path;
  status = FolderStatus.pending;
  attempt_count = 0;
  last_error_category = none;
}

-- `INSERT OR IGNORE INTO proton_folders`, and the UIDs it queued.
unfoldable pub put_folder :
    ProtonNode → List Text × List ProtonFolder → List Text × List ProtonFolder
unfolding any
put_folder n (queued, folders) =
    if any (is_folder_row n.snapshot_id n.uid) folders
    then (queued, folders)
    else (queued ++ (n.uid ∷ []), folders ++ (queue_row n ∷ []))

-- A child without a UID or without a name is refused.
unfoldable pub check_child : Fields → Outcome (Unit {0})
unfolding unwrap get_field truthy
check_child node =
    guard (truthy (unwrap (get_field (codes "uid") node))) proton_no_uid
    >> guard (is_named (unwrap (get_field (codes "name") node))) proton_no_name
  where
    is_named : Json → Bool
    is_named null = false
    is_named _ = true

pub record Committed : Type 0 where
  pub nodes : List ProtonNode
  pub queued : List Text
  pub folders : List ProtonFolder

-- The statements for one child.
unfoldable pub put_child : ProtonNode → Committed → Committed
unfolding put_node put_folder
put_child n c =
    let (queued, folders) =
      if n.node_type == codes "folder"
      then put_folder n (c.queued, c.folders)
      else (c.queued, c.folders) in
    record { nodes = put_node n c.nodes; queued = queued; folders = folders }

-- `for node in children`
unfoldable pub put_children :
    Naming → ℕ → ProtonFolder → List Text → List Fields → Committed → Outcome Committed
unfolding check_child put_child node_of
put_children naming snapshot_id folder names [] c = ok c
put_children naming snapshot_id folder names (node ∷ children) c =
    check_child node
    >> put_children naming snapshot_id folder names children
        (put_child (node_of naming snapshot_id folder names node) c)

abbrev pub finish_row : ℕ → Text → ProtonFolder → ProtonFolder
finish_row snapshot_id uid f =
    if is_folder_row snapshot_id uid f
    then record f { status = FolderStatus.complete; attempt_count = f.attempt_count + 1 }
    else f

abbrev pub commit : ℕ → ProtonFolder → Db → Committed → List Text × Db
commit snapshot_id folder db c = (
  c.queued,
  record db { nodes = c.nodes; folders = map (finish_row snapshot_id folder.uid) c.folders },
)

abbrev pub map_outcome {ℓ κ} : {A : Type ℓ} {B : Type κ} → (A → B) → Outcome A → Outcome B
map_outcome f (ok a) = ok (f a)
map_outcome f (err e) = err e

pub map_outcome-eq-ok {ℓ κ} :
    {A : Type ℓ} {B : Type κ} (f : A → B) (o : Outcome A) {b : B}
    → map_outcome f o ≡ ok b
    → (a : A) × (o ≡ ok a) × (f a ≡ b)
map_outcome-eq-ok f (ok a) h = (a, refl, ok-injective h)
map_outcome-eq-ok f (err e) h = cc

-- `_commit_listing`: one transaction, of which a refused child leaves nothing.
unfoldable pub commit_listing :
    Naming → ℕ → ProtonFolder → List Fields → Db → Outcome (List Text × Db)
unfolding put_children unwrap get_field
commit_listing naming snapshot_id folder children db = map_outcome (commit snapshot_id folder db) (
    put_children naming snapshot_id folder (map (field_text naming (codes "name")) children)
      children (record { nodes = db.nodes; queued = []; folders = db.folders }))

abbrev pub note_row : ℕ → Text → Text → ProtonFolder → ProtonFolder
note_row snapshot_id uid category f =
    if is_folder_row snapshot_id uid f
    then record f { attempt_count = f.attempt_count + 1; last_error_category = some category }
    else f

-- `_note_failure`
unfoldable pub note_failure : ℕ → Text → Text → Db → Db
note_failure snapshot_id uid category db = record db {
  folders = map (note_row snapshot_id uid category) db.folders;
}
