-- ===== src/Proton/Inventory/Closed.antt =====
-- The snapshots of src/migrator/providers/proton_cli.py: what a complete one means.
use dropbox_mirror.Base.{
  >>=-eq-ok, In-append, ok-injective, In-map, ℕ, List, [], ◌∷◌, map, any, In, Text, codes, ◌==◌,
  nat_eq, text_eq, option_eq, nat_beq_iff, ok, ◌≡◌, ◌≢◌, refl, sym, ap, subst, ◌∙◌, ◌⊎◌, inl, inr,
  Bool-cases,
}
use dropbox_mirror.Base.Json.{Fields}
use dropbox_mirror.Proton.Snapshots.{
  queue_row, check_child, is_folder_row, field_text, Committed, Naming, finish_row, note_row,
  node_of, put_folder, put_children, put_child, note_failure,
}
use dropbox_mirror.Proton.Snapshots.Children.{commit_listing-ok}
use dropbox_mirror.Proton.Walk.Finished.{AllListed}
use dropbox_mirror.Proton.Walk.Stable.{Stable}
use dropbox_mirror.State.Tables.{ProtonNode, WalkStatus, ProtonSnapshot, ProtonFolder, Db}

-- Ids are unique, and every folder of a complete snapshot is listed.
pub record IsClosed (db : Db) : Type 0 where
  pub unique : (s t : ProtonSnapshot) → In s db.snapshots → In t db.snapshots → s.id ≡ t.id → s ≡ t
  pub listed :
      (s : ProtonSnapshot) → In s db.snapshots → s.status ≡ WalkStatus.complete → AllListed s.id db

-- What the walk of a snapshot leaves of the others.
pub record Others (snapshot_id : ℕ) (before after : Db) : Type 0 where
  pub same_snapshots : after.snapshots ≡ before.snapshots
  pub same_folders :
      (f : ProtonFolder) → In f after.folders → f.snapshot_id ≢ snapshot_id → In f before.folders

put_child-owner :
    (n : ProtonNode) (c : Committed) (f : ProtonFolder)
    → In f (put_child n c).folders
    → In f c.folders ⊎ (f.snapshot_id ≡ n.snapshot_id)
unfolding put_child put_folder
put_child-owner n c f = elim (Bool-cases (n.node_type == codes "folder")) [
  | inl t ↦ elim (Bool-cases (any (is_folder_row n.snapshot_id n.uid) c.folders)) [
    | inl known ↦ rw (t, known) (λ m. inl m)
    | inr new ↦
        rw (t, new)
          (λ m. elim (In-append f c.folders (queue_row n ∷ []) m) [
            | inl old ↦ inl old
            | inr (inl e) ↦ inr (ap (λ (x : ProtonFolder). x.snapshot_id) e)
            | inr (inr none_left) ↦ absurd none_left
          ])
  ]
  | inr g ↦ rw g (λ m. inl m)
]

put_children-owner :
    (naming : Naming) (snapshot_id : ℕ) (folder : ProtonFolder) (names : List Text)
    (children : List Fields) (c d : Committed) (f : ProtonFolder)
    → put_children naming snapshot_id folder names children c ≡ ok d
    → In f d.folders
    → In f c.folders ⊎ (f.snapshot_id ≡ snapshot_id)
unfolding put_children node_of
put_children-owner naming snapshot_id folder names [] c d f h m =
    inl (subst (λ (x : Committed). In f x.folders) (sym (ok-injective h)) m)
put_children-owner naming snapshot_id folder names (node ∷ children) c d f h m =
    let n = node_of naming snapshot_id folder names node in
    let (checked, _, rest) =
      >>=-eq-ok (check_child node)
        (λ _. put_children naming snapshot_id folder names children (put_child n c)) h in
    elim (put_children-owner naming snapshot_id folder names children (put_child n c) d f rest m) [
      | inl old ↦ put_child-owner n c f old
      | inr ours ↦ inr ours
    ]

note_row-other :
    (snapshot_id : ℕ) (uid category : Text) (f : ProtonFolder)
    → ((note_row snapshot_id uid category f).snapshot_id ≡ f.snapshot_id)
      × (f.snapshot_id ≢ snapshot_id → note_row snapshot_id uid category f ≡ f)
note_row-other snapshot_id uid category f = elim (Bool-cases (f.snapshot_id == snapshot_id)) [
  | inl t ↦ elim (Bool-cases (f.uid == uid)) [
    | inl u ↦
        rw (t, u) (refl, λ apart. absurd (apart ((nat_beq_iff f.snapshot_id snapshot_id).0 t)))
    | inr n ↦ rw (t, n) (refl, λ apart. refl)
  ]
  | inr g ↦ rw g (refl, λ apart. refl)
]

finish_row-other :
    (snapshot_id : ℕ) (uid : Text) (f : ProtonFolder)
    → ((finish_row snapshot_id uid f).snapshot_id ≡ f.snapshot_id)
      × (f.snapshot_id ≢ snapshot_id → finish_row snapshot_id uid f ≡ f)
finish_row-other snapshot_id uid f = elim (Bool-cases (f.snapshot_id == snapshot_id)) [
  | inl t ↦ elim (Bool-cases (f.uid == uid)) [
    | inl u ↦
        rw (t, u) (refl, λ apart. absurd (apart ((nat_beq_iff f.snapshot_id snapshot_id).0 t)))
    | inr n ↦ rw (t, n) (refl, λ apart. refl)
  ]
  | inr g ↦ rw g (refl, λ apart. refl)
]

In-map_other :
    (change : ProtonFolder → ProtonFolder) (snapshot_id : ℕ) (f : ProtonFolder)
    (folders : List ProtonFolder)
    → ((g : ProtonFolder)
        → ((change g).snapshot_id ≡ g.snapshot_id) × (g.snapshot_id ≢ snapshot_id → change g ≡ g))
    → In f (map change folders)
    → f.snapshot_id ≢ snapshot_id
    → In f folders
In-map_other change snapshot_id f folders other m apart =
    let (g, mg, e) = In-map change f folders m in
    let owner : f.snapshot_id ≡ g.snapshot_id =
      ap (λ (x : ProtonFolder). x.snapshot_id) e ∙ (other g).0 in
    subst (λ x. In x folders) (sym (e ∙ (other g).1 (λ same. apart (owner ∙ same)))) mg

pub Others-Stable : (snapshot_id : ℕ) (before : Db) → Stable snapshot_id (Others snapshot_id before)
unfolding note_failure
Others-Stable snapshot_id before = record {
  commands =
      λ db rows o. record { same_snapshots = o.same_snapshots; same_folders = o.same_folders };
  note = λ uid category db o. record {
    same_snapshots = o.same_snapshots;
    same_folders = λ f m apart.
        o.same_folders f
          (In-map_other (note_row snapshot_id uid category) snapshot_id f db.folders
            (λ g. note_row-other snapshot_id uid category g) m apart)
          apart;
  };
  listing = λ naming folder children db queued after h o.
      let (d, put, e) = commit_listing-ok naming snapshot_id folder children db queued after h in
      subst (λ (r : List Text × Db). Others snapshot_id before r.1) e
        (record {
          same_snapshots = o.same_snapshots;
          same_folders = λ f m apart.
              let old =
                In-map_other (finish_row snapshot_id folder.uid) snapshot_id f d.folders
                  (λ g. finish_row-other snapshot_id folder.uid g) m apart in
              elim (put_children-owner naming snapshot_id folder
                (map (field_text naming (codes "name")) children) children
                (record { nodes = db.nodes; queued = []; folders = db.folders }) d f put old) [
                  | inl older ↦ o.same_folders f older apart
                  | inr ours ↦ absurd (apart ours)
                ];
        });
}

-- No complete row has this id.
abbrev pub IsOpen : ℕ → Db → Type 0
IsOpen snapshot_id db =
    (s : ProtonSnapshot) → In s db.snapshots → s.status ≡ WalkStatus.complete → s.id ≢ snapshot_id

pub walked-IsClosed :
    (snapshot_id : ℕ) (before after : Db)
    → IsOpen snapshot_id before
    → IsClosed before
    → Others snapshot_id before after
    → IsClosed after
walked-IsClosed snapshot_id before after opened c o = record {
  unique = λ s t ms mt.
      c.unique s t (subst (In s) o.same_snapshots ms) (subst (In t) o.same_snapshots mt);
  listed = λ s ms complete f mf ours.
      let old = subst (In s) o.same_snapshots ms in
      c.listed s old complete f (o.same_folders f mf (λ e. opened s old complete (sym ours ∙ e)))
        ours;
}
