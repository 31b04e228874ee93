-- ===== src/Tests/Reconcile.antt =====
-- Examples of a correction of the mirror and of strays.
use dropbox_mirror.Base.{
  text_beq, true, none, some, [], ◌∷◌, ◌++◌, In, Text, codes, nat_eq, text_eq, option_eq, ok, ◌≡◌,
  ◌≢◌, refl, sym, subst, inl, map,
}
use dropbox_mirror.Proton.Names.{slash}
use dropbox_mirror.Reconcile.Corrected.{correct_mirror-Checked, IsBacked}
use dropbox_mirror.Reconcile.Mirror.{key_of, Reconciler, correct_mirror}
use dropbox_mirror.Reconcile.Run.{known_of}
use dropbox_mirror.Reconcile.Strays.{stray_folders-Unheld, stray_files-Unrecorded}
use dropbox_mirror.Reconcile.Unknown.{
  unknown_folders, dropbox_files, stray_folders, stray_files, file_nodes, dropbox_folders,
  lower_letter,
}
use dropbox_mirror.State.Tables.{Db, MirrorObject, ProtonNode}
use dropbox_mirror.Tests.{blank}

abbrev kept_row : MirrorObject
kept_row = record {
  path_lower = codes "/a";
  path_display = codes "/a";
  size = 3;
  content_hash = [];
  sha1 = codes "ff";
  sha256 = [];
  proton_uid = none;
  run_id = 1;
  mirrored_at = codes "t0";
}

abbrev short_row : MirrorObject
short_row = record kept_row { path_lower = codes "/b"; path_display = codes "/b"; size = 9 }

abbrev node : Text → Text → ProtonNode
node key node_type = record {
  snapshot_id = 1;
  uid = codes "u" ++ key;
  parent_uid = codes "__ROOT__";
  visible_segments = [];
  relative_path = key;
  cli_path = codes "/my-files" ++ key;
  comparison_key = key;
  name = key;
  node_type = node_type;
  claimed_size = some 3;
  sha1 = some (codes "ff");
  sha1_verified = none;
}

abbrev walked_db : Db
walked_db = record blank {
  mirror = kept_row ∷ short_row ∷ [];
  nodes =
      node (codes "/a") (codes "file")
      ∷ node (codes "/b") (codes "file")
      ∷ node (codes "/c") (codes "file")
      ∷ node (codes "/d") (codes "Folder")
      ∷ [];
}

abbrev services : Reconciler
services = record {
  apply = true;
  comparison_key = λ s. s;
  casefold = λ s. s;
  digits = λ n. codes "1";
  root_uid = λ db. (ok tt, db);
  inventory = λ deadline db. (ok 1, db);
  trash = λ paths db. (ok tt, db);
  push = λ label db. ok tt;
}

abbrev refreshed_row : MirrorObject
refreshed_row = record kept_row { proton_uid = some (codes "u/a") }

corrected :
    (correct_mirror services (file_nodes 1 walked_db) walked_db).1.mirror ≡ refreshed_row ∷ []
unfolding correct_mirror file_nodes text_beq
corrected = refl

correct_mirror-Checked_example :
    (s : MirrorObject) × In s walked_db.mirror
    × (s.path_lower ≡ refreshed_row.path_lower)
    × IsBacked services (file_nodes 1 walked_db) s
correct_mirror-Checked_example =
    correct_mirror-Checked services (file_nodes 1 walked_db) walked_db refreshed_row
      (subst (In refreshed_row) (sym corrected) (inl refl))

strays :
    stray_files
      (known_of services
        (some 1)
        (correct_mirror services (file_nodes 1 walked_db) walked_db).0
        (correct_mirror services (file_nodes 1 walked_db) walked_db).1)
      (file_nodes 1 walked_db)
    ≡ codes "/my-files/c" ∷ []
unfolding stray_files correct_mirror file_nodes dropbox_files text_beq
strays = refl

stray_files-Unrecorded_example :
    (n : ProtonNode) × In n (file_nodes 1 walked_db)
    × (codes "/my-files/c" ≡ n.cli_path)
    × ((r : MirrorObject) → In r walked_db.mirror → key_of services r ≢ n.comparison_key)
    × ¬ In n.comparison_key (
        dropbox_files services
          (some 1)
          (correct_mirror services (file_nodes 1 walked_db) walked_db).1)
stray_files-Unrecorded_example =
    stray_files-Unrecorded services 1 (some 1) walked_db (codes "/my-files/c")
      (subst (In (codes "/my-files/c")) (sym strays) (inl refl))

folders : stray_folders services 1 (some 1) (codes "/a" ∷ []) walked_db ≡ codes "/my-files/d" ∷ []
unfolding stray_folders text_beq
folders = refl

stray_folders-Unheld_example :
    (n : ProtonNode) × In n walked_db.nodes
    × (codes "/my-files/d" ≡ n.cli_path)
    × (n.snapshot_id ≡ 1)
    × (map lower_letter n.node_type ≡ codes "folder")
    × ¬ In n.comparison_key (dropbox_folders services (some 1) walked_db)
    × ((k rest : Text) → In k (codes "/a" ∷ []) → k ≢ n.comparison_key ++ (slash ∷ rest))
    × ((s : ProtonNode)
        → In s (unknown_folders services 1 (some 1) (codes "/a" ∷ []) walked_db)
        → s.uid ≢ n.parent_uid)
stray_folders-Unheld_example =
    stray_folders-Unheld services 1 (some 1) (codes "/a" ∷ []) walked_db (codes "/my-files/d")
      (subst (In (codes "/my-files/d")) (sym folders) (inl refl))
