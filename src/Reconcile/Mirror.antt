-- ===== src/Reconcile/Mirror.antt =====
-- src/migrator/phases/p60_reconcile.py: the calls of the phase, the pruning of old walks, and the
-- correction of the mirror by the nodes of a walk.
use dropbox_mirror.Base.{
  ℕ, ◌+◌, Bool, true, false, ◌&&◌, not, Option, none, some, List, [], ◌∷◌, map, length, keep, any,
  find, Text, ◌==◌, nat_eq, text_eq, option_eq, if◌then◌else◌,
}
use dropbox_mirror.Base.Int.{ℤ}
use dropbox_mirror.Failure.{Outcome}
use dropbox_mirror.Proton.Snapshots.{of_snapshot, is_done}
use dropbox_mirror.State.Tables.{ProtonFolder, ProtonNode, MirrorObject, ProtonSnapshot, Db}

pub record Reconciler : Type 0 where
  pub apply : Bool
  pub comparison_key : Text → Text
  pub casefold : Text → Text
  pub digits : ℕ → Text
  pub root_uid : Db → Outcome (Unit {0}) × Db
  pub inventory : ℤ → Db → Outcome ℕ × Db
  pub trash : List Text → Db → Outcome (Unit {0}) × Db
  pub push : Text → Db → Outcome (Unit {0})

pub record Figures : Type 0 where
  pub snapshot_id : ℕ
  pub proton_files : ℕ
  pub dropped : ℕ
  pub uid_refreshed : ℕ
  pub strays_trashed : ℕ
  pub folders_trashed : ℕ
  pub matched : ℕ
  pub sha1_mismatch : ℕ

-- The outputs of the phase.
pub data Reconciled : Type 0 where
  skipped : Text → Reconciled
  planned_walk : Reconciled
  partial : ℕ → Reconciled
  reconciled : Figures → Reconciled

abbrev pub of_other : ℕ → ℕ → Bool
of_other snapshot_id id = not (id == snapshot_id)

abbrev pub is_stale : ℕ → List ProtonSnapshot → ℕ → Bool
is_stale snapshot_id snapshots id =
    any (λ (s : ProtonSnapshot). of_other snapshot_id s.id && (s.id == id)) snapshots

-- `_prune_other_snapshots`
unfoldable pub prune_other_snapshots : ℕ → Db → Db
unfolding any keep
prune_other_snapshots snapshot_id db =
    let stale = is_stale snapshot_id db.snapshots in
    record db {
      nodes = keep (λ (n : ProtonNode). not (stale n.snapshot_id)) db.nodes;
      folders = keep (λ (f : ProtonFolder). not (stale f.snapshot_id)) db.folders;
      snapshots = keep (λ (s : ProtonSnapshot). not (stale s.id)) db.snapshots;
    }

-- `_folder_counts`
unfoldable pub folder_counts : ℕ → Db → ℕ × ℕ
unfolding keep
folder_counts snapshot_id db = (
  length (keep (λ (f : ProtonFolder). of_snapshot snapshot_id f && is_done f.status) db.folders),
  length
      (keep (λ (f : ProtonFolder). of_snapshot snapshot_id f && not (is_done f.status)) db.folders),
)

abbrev pub key_of : Reconciler → MirrorObject → Text
key_of services row = services.comparison_key row.path_display

-- `nodes.get(key)`
abbrev pub node_at : Text → List ProtonNode → Option ProtonNode
node_at key nodes = find (λ (n : ProtonNode). n.comparison_key == key) nodes

-- What is wrong with a row of the mirror, or the UID of its node.
pub data Check : Type 0 where
  wrong_size wrong_digest : Check
  same : Text → Check

abbrev pub digest_differs : Reconciler → Option Text → Text → Bool
digest_differs services none recorded = false
digest_differs services (some sha1) recorded =
    not (services.casefold sha1 == services.casefold recorded)

abbrev pub check_node : Reconciler → MirrorObject → Option ProtonNode → Check
check_node services row none = wrong_size
check_node services row (some node) =
    if not (node.claimed_size == some row.size)
    then wrong_size
    else if digest_differs services node.sha1 row.sha1
    then wrong_digest
    else same node.uid

unfoldable pub check : Reconciler → List ProtonNode → MirrorObject → Check
unfolding find
check services nodes row = check_node services row (node_at (key_of services row) nodes)

pub record Corrections : Type 0 where
  pub dropped : ℕ
  pub refreshed : ℕ
  pub matched : ℕ
  pub sha1_mismatch : ℕ
  pub known : List Text

abbrev pub other_path : Text → MirrorObject → Bool
other_path path_lower r = not (r.path_lower == path_lower)

abbrev pub set_uid : Text → Text → MirrorObject → MirrorObject
set_uid path_lower uid r =
    if r.path_lower == path_lower then record r { proton_uid = some uid } else r

abbrev pub drop_row : MirrorObject → List MirrorObject → List MirrorObject
drop_row row mirror = keep (other_path row.path_lower) mirror

-- The row is right; its UID is set if the recorded one is another.
abbrev pub refresh :
    MirrorObject → Text → Bool → List MirrorObject → Corrections → List MirrorObject × Corrections
refresh row uid true mirror c = (mirror, record c { matched = c.matched + 1 })
refresh row uid false mirror c = (
  map (set_uid row.path_lower uid) mirror,
  record c { matched = c.matched + 1; refreshed = c.refreshed + 1 },
)

-- The statements for one row, after its key is known.
abbrev pub correct :
    MirrorObject → Check → List MirrorObject → Corrections → List MirrorObject × Corrections
correct row wrong_size mirror c = (drop_row row mirror, record c { dropped = c.dropped + 1 })
correct row wrong_digest mirror c =
    (drop_row row mirror, record c { dropped = c.dropped + 1; sha1_mismatch = c.sha1_mismatch + 1 })
correct row (same uid) mirror c = refresh row uid (row.proton_uid == some uid) mirror c

abbrev pub know : Text → Corrections → Corrections
know key c = record c { known = key ∷ c.known }

-- `for row in connection.execute("SELECT * FROM mirror_objects").fetchall()`
unfoldable pub correct_rows :
    Reconciler
    → List ProtonNode
    → List MirrorObject
    → List MirrorObject
    → Corrections
    → List MirrorObject × Corrections
unfolding check keep
correct_rows services nodes [] mirror c = (mirror, c)
correct_rows services nodes (row ∷ rows) mirror c =
    let (after, counted) =
      correct row (check services nodes row) mirror (know (key_of services row) c) in
    correct_rows services nodes rows after counted

abbrev pub nothing_corrected : Corrections
nothing_corrected = record {
  dropped = 0;
  refreshed = 0;
  matched = 0;
  sha1_mismatch = 0;
  known = [];
}

-- `_correct_mirror`
unfoldable pub correct_mirror : Reconciler → List ProtonNode → Db → Corrections × Db
unfolding correct_rows
correct_mirror services nodes db =
    let (mirror, c) = correct_rows services nodes db.mirror db.mirror nothing_corrected in
    (c, record db { mirror = mirror })
