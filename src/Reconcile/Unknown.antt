-- ===== src/Reconcile/Unknown.antt =====
-- src/migrator/phases/p60_reconcile.py: the files and folders of Proton that neither the mirror
-- nor Dropbox knows.
use dropbox_mirror.Base.{
  ℕ, ◌+◌, Bool, true, false, ◌&&◌, not, Option, none, some, List, [], ◌∷◌, ◌++◌, map, keep, any,
  Text, codes, ◌==◌, nat_eq, text_eq, option_eq, if◌then◌else◌, leb,
}
use dropbox_mirror.Base.Sort.{sort_by}
use dropbox_mirror.Proton.Names.{slash}
use dropbox_mirror.Reconcile.Mirror.{Reconciler}
use dropbox_mirror.State.Tables.{DropboxObject, ProtonNode, Db, Tag}
use mathlib.Core.List.{reverse}

-- SQL's LOWER, which folds the letters of ASCII.
abbrev pub lower_letter : ℕ → ℕ
lower_letter c = if leb 65 c && leb c 90 then c + 32 else c

abbrev pub is_type : Text → ℕ → ProtonNode → Bool
is_type name snapshot_id n =
    (n.snapshot_id == snapshot_id) && (map lower_letter n.node_type == name)

-- A later row of the same key takes the place of the earlier one.
unfoldable pub set_node : ProtonNode → List ProtonNode → List ProtonNode
set_node n [] = n ∷ []
set_node n (m ∷ nodes) =
    let rest = set_node n nodes in
    if m.comparison_key == n.comparison_key then n ∷ nodes else m ∷ rest

unfoldable pub index_nodes : List ProtonNode → List ProtonNode → List ProtonNode
unfolding set_node
index_nodes [] indexed = indexed
index_nodes (n ∷ rows) indexed = index_nodes rows (set_node n indexed)

unfoldable pub file_nodes : ℕ → Db → List ProtonNode
unfolding keep index_nodes
file_nodes snapshot_id db = index_nodes (keep (is_type (codes "file") snapshot_id) db.nodes) []

abbrev pub text_or : Option Text → Text
text_or none = codes "None"
text_or (some s) = s

abbrev pub is_file_tag : Tag → Bool
is_file_tag Tag.file = true
is_file_tag _ = false

abbrev pub is_folder_tag : Tag → Bool
is_folder_tag Tag.folder = true
is_folder_tag _ = false

abbrev pub in_inventory : Option ℕ → DropboxObject → Bool
in_inventory inventory_id o = some o.inventory_id == inventory_id

-- The keys of the files that Dropbox lists and lets download.
unfoldable pub dropbox_files : Reconciler → Option ℕ → Db → List Text
unfolding keep
dropbox_files services inventory_id db =
    map (λ (o : DropboxObject). services.comparison_key (text_or o.path_display))
      (keep
        (λ (o : DropboxObject).
          in_inventory inventory_id o && is_file_tag o.tag && o.is_downloadable)
        db.objects)

abbrev pub is_member : Text → List Text → Bool
is_member key keys = any (λ k. k == key) keys

-- The paths of the files that nothing knows, sorted.
unfoldable pub stray_files : List Text → List ProtonNode → List Text
unfolding any keep sort_by
stray_files known nodes =
    sort_by (λ p. p)
      (map (λ (n : ProtonNode). n.cli_path)
        (keep (λ (n : ProtonNode). not (is_member n.comparison_key known)) nodes))

-- The keys above a key: `key.rsplit("/", 1)[0]` as long as there is a slash. The early `break`
-- leaves out keys whose own ancestors are there already.
unfoldable pub ancestors_from : Text → List Text
ancestors_from [] = []
ancestors_from (c ∷ before) =
    let rest = ancestors_from before in if c == slash then reverse before ∷ rest else rest

unfoldable pub ancestors : Text → List Text
unfolding ancestors_from
ancestors key = ancestors_from (reverse key)

-- `occupied`, as the list of its elements.
unfoldable pub occupied : List Text → List Text
unfolding ancestors
occupied [] = []
occupied (key ∷ known) = ancestors key ++ occupied known

unfoldable pub dropbox_folders : Reconciler → Option ℕ → Db → List Text
unfolding keep
dropbox_folders services inventory_id db =
    map (λ (o : DropboxObject). services.comparison_key (text_or o.path_display))
      (keep (λ (o : DropboxObject). in_inventory inventory_id o && is_folder_tag o.tag) db.objects)

-- The folders that Dropbox lacks and that hold nothing known.
unfoldable pub unknown_folders : Reconciler → ℕ → Option ℕ → List Text → Db → List ProtonNode
unfolding occupied dropbox_folders any keep
unknown_folders services snapshot_id inventory_id known db =
    let listed = dropbox_folders services inventory_id db in
    let held = occupied known in
    keep
      (λ (n : ProtonNode).
        not (is_member n.comparison_key listed) && not (is_member n.comparison_key held))
      (keep (is_type (codes "folder") snapshot_id) db.nodes)

-- `_stray_folders`: the topmost of them.
unfoldable pub stray_folders : Reconciler → ℕ → Option ℕ → List Text → Db → List Text
unfolding unknown_folders sort_by
stray_folders services snapshot_id inventory_id known db =
    let strays = unknown_folders services snapshot_id inventory_id known db in
    sort_by (λ p. p)
      (map (λ (n : ProtonNode). n.cli_path)
        (keep
          (λ (n : ProtonNode).
            not (is_member n.parent_uid (map (λ (s : ProtonNode). s.uid) strays)))
          strays))
