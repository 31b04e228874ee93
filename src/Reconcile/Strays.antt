-- ===== src/Reconcile/Strays.antt =====
-- src/migrator/phases/p60_reconcile.py: which files and folders of Proton are taken for strays.
use dropbox_mirror.Base.{
  In-map_of, In-keep, In-append_right, In-map, any_of_In, In-append_left, ℕ, Bool, true, false,
  ◌&&◌, not, Option, List, [], ◌∷◌, map, keep, In, Text, codes, ◌==◌, nat_eq, text_eq, option_eq,
  text_iff, ◌≡◌, ◌≢◌, refl, subst, inl, inr, Bool-cases, nat_beq_iff, ◌++◌,
}
use dropbox_mirror.Base.Sort.{In-sort_by}
use dropbox_mirror.Proton.Names.{slash}
use dropbox_mirror.Reconcile.Corrected.{correct_mirror-known}
use dropbox_mirror.Reconcile.Mirror.{key_of, correct_mirror, Reconciler}
use dropbox_mirror.Reconcile.Run.{known_of}
use dropbox_mirror.Reconcile.Unknown.{
  dropbox_files, is_type, dropbox_folders, file_nodes, unknown_folders, ancestors, stray_files,
  stray_folders, is_member, occupied, ancestors_from, lower_letter,
}
use dropbox_mirror.State.Tables.{MirrorObject, Db, ProtonNode}
use mathlib.Core.List.{reverse, reverse-append, reverse-cons, reverse-reverse, append_assoc}

not_member : (key : Text) (keys : List Text) → is_member key keys ≡ false → ¬ In key keys
not_member key keys h m = cc (h, any_of_In (λ k. k == key) key keys m ((text_iff key key).1 refl))

stray_files-unknown :
    (known : List Text) (nodes : List ProtonNode) (path : Text)
    → In path (stray_files known nodes)
    → (n : ProtonNode) × In n nodes × (path ≡ n.cli_path) × ¬ In n.comparison_key known
unfolding stray_files
stray_files-unknown known nodes path m =
    let strays = keep (λ (n : ProtonNode). not (is_member n.comparison_key known)) nodes in
    let (n, mn, e) =
      In-map (λ (n : ProtonNode). n.cli_path) path strays
        (In-sort_by (λ p. p) path (map (λ (n : ProtonNode). n.cli_path) strays) m) in
    let (there, unknown) =
      In-keep (λ (n : ProtonNode). not (is_member n.comparison_key known)) n nodes mn in
    (
      n,
      there,
      e,
      not_member n.comparison_key known (not_false (is_member n.comparison_key known) unknown),
    )
  where
    not_false : (b : Bool) → not b ≡ true → b ≡ false
    not_false true h = cc
    not_false false h = refl

-- A path that the reconcile phase trashes as a stray file is that of a file of the walk whose key is
-- neither that of a row which the mirror had before its correction, a row dropped by it among
-- them, nor that of a file which Dropbox lists and lets download.
pub stray_files-Unrecorded :
    (services : Reconciler) (snapshot_id : ℕ) (inventory_id : Option ℕ) (db : Db) (path : Text)
    → let nodes = file_nodes snapshot_id db in
      let (c, corrected) = correct_mirror services nodes db in
      In path (stray_files (known_of services inventory_id c corrected) nodes)
      → (n : ProtonNode) × In n (file_nodes snapshot_id db)
        × (path ≡ n.cli_path)
        × ((r : MirrorObject) → In r db.mirror → key_of services r ≢ n.comparison_key)
        × ¬ In n.comparison_key (
            dropbox_files services inventory_id
              (correct_mirror services (file_nodes snapshot_id db) db).1)
stray_files-Unrecorded services snapshot_id inventory_id db path m =
    let nodes = file_nodes snapshot_id db in
    let (c, corrected) = correct_mirror services nodes db in
    let listed = dropbox_files services inventory_id corrected in
    let (n, there, e, unknown) =
      stray_files-unknown (known_of services inventory_id c corrected) nodes path m in
    (
      n,
      there,
      e,
      λ r mr same. unknown (
          In-append_left n.comparison_key c.known listed
            (subst (λ k. In k c.known) same (correct_mirror-known services nodes db r mr))),
      λ k. unknown (In-append_right n.comparison_key c.known listed k),
    )

In-occupied :
    (key k : Text) (known : List Text) → In k known → In key (ancestors k) → In key (occupied known)
unfolding occupied
In-occupied key k [] mk m = elim mk [ ]
In-occupied key k (x ∷ known) (inl e) m =
    In-append_left key (ancestors x) (occupied known) (subst (λ y. In key (ancestors y)) e m)
In-occupied key k (x ∷ known) (inr later) m =
    In-append_right key (ancestors x) (occupied known) (In-occupied key k known later m)

both_false : (a b : Bool) → (not a && not b) ≡ true → (a ≡ false) × (b ≡ false)
both_false true b h = cc
both_false false true h = cc
both_false false false h = (refl, refl)

-- What is below a key is below it at any depth.
above_from :
    (before suffix : Text) → In (reverse before) (ancestors_from (suffix ++ (slash ∷ before)))
unfolding ancestors_from
above_from before [] = inl refl
above_from before (c ∷ suffix) = elim (Bool-cases (c == slash)) [
  | inl t ↦ rw t (inr (above_from before suffix))
  | inr f ↦ rw f (above_from before suffix)
]

In-ancestors : (key rest : Text) → In key (ancestors (key ++ (slash ∷ rest)))
unfolding ancestors
In-ancestors key rest =
    let turned : reverse (key ++ (slash ∷ rest)) ≡ reverse rest ++ (slash ∷ reverse key) =
      simp (reverse-append, reverse-cons, append_assoc) in
    rw turned (
      subst (λ k. In k (ancestors_from (reverse rest ++ (slash ∷ reverse key))))
        (reverse-reverse key) (above_from (reverse key) (reverse rest)))

is_type_iff :
    (n : ProtonNode) (snapshot_id : ℕ)
    → is_type (codes "folder") snapshot_id n ≡ true
    → (n.snapshot_id ≡ snapshot_id) × (map lower_letter n.node_type ≡ codes "folder")
is_type_iff n snapshot_id t =
    let (same, folder) = both_true (n.snapshot_id == snapshot_id) _ t in
    (
      (nat_beq_iff n.snapshot_id snapshot_id).0 same,
      (text_iff (map lower_letter n.node_type) (codes "folder")).0 folder,
    )
  where
    both_true : (a b : Bool) → (a && b) ≡ true → (a ≡ true) × (b ≡ true)
    both_true true b h = (refl, h)
    both_true false b h = cc

-- A path that is trashed as a stray folder is that of a node which the walk found to be a folder,
-- which is no folder of the Dropbox listing, below which nothing known lies at any depth, and whose
-- parent is not trashed as a stray folder itself.
pub stray_folders-Unheld :
    (services : Reconciler) (snapshot_id : ℕ) (inventory_id : Option ℕ) (known : List Text)
    (db : Db) (path : Text)
    → In path (stray_folders services snapshot_id inventory_id known db)
    → (n : ProtonNode) × In n db.nodes
      × (path ≡ n.cli_path)
      × (n.snapshot_id ≡ snapshot_id)
      × (map lower_letter n.node_type ≡ codes "folder")
      × ¬ In n.comparison_key (dropbox_folders services inventory_id db)
      × ((k rest : Text) → In k known → k ≢ n.comparison_key ++ (slash ∷ rest))
      × ((s : ProtonNode)
          → In s (unknown_folders services snapshot_id inventory_id known db)
          → s.uid ≢ n.parent_uid)
unfolding stray_folders unknown_folders
stray_folders-Unheld services snapshot_id inventory_id known db path m =
    let strays = unknown_folders services snapshot_id inventory_id known db in
    let uids = map (λ (s : ProtonNode). s.uid) strays in
    let topmost = λ (n : ProtonNode). not (is_member n.parent_uid uids) in
    let folders = keep (is_type (codes "folder") snapshot_id) db.nodes in
    let listed = dropbox_folders services inventory_id db in
    let unknown = λ (n : ProtonNode).
      not (is_member n.comparison_key listed)
      && not (is_member n.comparison_key (occupied known)) in
    let (n, mn, e) =
      In-map (λ (n : ProtonNode). n.cli_path) path (keep topmost strays)
        (In-sort_by (λ p. p) path (map (λ (n : ProtonNode). n.cli_path) (keep topmost strays)) m) in
    let (stray, top) = In-keep topmost n strays mn in
    let (folder, apart) = In-keep unknown n folders stray in
    let (there, typed) = In-keep (is_type (codes "folder") snapshot_id) n db.nodes folder in
    let (not_listed, not_held) =
      both_false (is_member n.comparison_key listed) (is_member n.comparison_key (occupied known))
        apart in
    (
      n,
      there,
      e,
      (is_type_iff n snapshot_id typed).0,
      (is_type_iff n snapshot_id typed).1,
      not_member n.comparison_key listed not_listed,
      λ k rest mk below.
          not_member n.comparison_key (occupied known) not_held (
            In-occupied n.comparison_key k known mk
              (rw below (In-ancestors n.comparison_key rest))),
      λ s ms same.
          not_member n.parent_uid uids
            (both_false (is_member n.parent_uid uids) false (rw top refl)).0
            (subst (λ u. In u uids) same (In-map_of (λ (x : ProtonNode). x.uid) s strays ms)),
    )
