-- ===== src/Proton/Snapshots/Children.antt =====
-- The rows that a listing adds to the folder queue of its snapshot.
use dropbox_mirror.Base.{
  map, In-append_left, In-append_right, >>=-eq-ok, In-append, ok-injective, ℕ, List, [], ◌∷◌, any,
  In, Text, codes, ◌==◌, nat_eq, text_eq, option_eq, ok, ◌≡◌, ap, subst, ◌⊎◌, inl, inr, Bool-cases,
}
use dropbox_mirror.Proton.Snapshots.{
  map_outcome-eq-ok, commit, field_text, Db, commit_listing, check_child, queue_row, node_of,
  is_folder_row, Fields, ProtonNode, Naming, put_folder, ProtonFolder, put_child, put_children,
  Committed,
}

-- Every row is an old one or is queued, and what was queued still is.
pub record Grown (before after : Committed) : Type 0 where
  pub found : (g : ProtonFolder) → In g after.folders → In g before.folders ⊎ In g.uid after.queued
  pub queued_kept : (u : Text) → In u before.queued → In u after.queued

Grown-trans : (a b c : Committed) → Grown a b → Grown b c → Grown a c
Grown-trans a b c ab bc = record {
  found = λ g m. elim (bc.found g m) [
    | inl old ↦ elim (ab.found g old) [
      | inl older ↦ inl older
      | inr q ↦ inr (bc.queued_kept g.uid q)
    ]
    | inr q ↦ inr q
  ];
  queued_kept = λ u m. bc.queued_kept u (ab.queued_kept u m);
}

put_child-Grown : (n : ProtonNode) (c : Committed) → Grown c (put_child n c)
unfolding put_child put_folder
put_child-Grown n c = elim (Bool-cases (n.node_type == codes "folder")) [
  | inl t ↦ elim (Bool-cases (any (is_folder_row n.snapshot_id n.uid) c.folders)) [
    | inl known ↦ rw (t, known) (record { found = λ g m. inl m; queued_kept = λ u m. m })
    | inr new ↦
        rw (t, new)
          (record {
            found = λ g m. elim (In-append g c.folders (queue_row n ∷ []) m) [
              | inl old ↦ inl old
              | inr (inl e) ↦ inr (
                  In-append_right g.uid c.queued (n.uid ∷ [])
                    (inl (ap (λ (f : ProtonFolder). f.uid) e)))
              | inr (inr none_left) ↦ absurd none_left
            ];
            queued_kept = λ u m. In-append_left u c.queued (n.uid ∷ []) m;
          })
  ]
  | inr f ↦ rw f (record { found = λ g m. inl m; queued_kept = λ u m. m })
]

pub put_children-Grown :
    (naming : Naming) (snapshot_id : ℕ) (folder : ProtonFolder) (names : List Text)
    (children : List Fields) (c d : Committed)
    → put_children naming snapshot_id folder names children c ≡ ok d
    → Grown c d
unfolding put_children
put_children-Grown naming snapshot_id folder names [] c d h =
    subst (Grown c) (ok-injective h) (record { found = λ g m. inl m; queued_kept = λ u m. m })
put_children-Grown naming snapshot_id folder names (node ∷ children) c d h =
    let n = node_of naming snapshot_id folder names node in
    let (checked, _, rest) =
      >>=-eq-ok (check_child node)
        (λ _. put_children naming snapshot_id folder names children (put_child n c)) h in
    Grown-trans c (put_child n c) d (put_child-Grown n c)
      (put_children-Grown naming snapshot_id folder names children (put_child n c) d rest)

-- What a committed listing went through.
pub commit_listing-ok :
    (naming : Naming) (snapshot_id : ℕ) (folder : ProtonFolder) (children : List Fields) (db : Db)
    (queued : List Text) (after : Db)
    → commit_listing naming snapshot_id folder children db ≡ ok (queued, after)
    → (d : Committed) × (put_children naming snapshot_id folder
          (map (field_text naming (codes "name")) children)
          children
          (record { nodes = db.nodes; queued = []; folders = db.folders })
        ≡ ok d)
      × (commit snapshot_id folder db d ≡ (queued, after))
unfolding commit_listing
commit_listing-ok naming snapshot_id folder children db queued after h =
    map_outcome-eq-ok (commit snapshot_id folder db)
      (put_children naming snapshot_id folder (map (field_text naming (codes "name")) children)
        children (record { nodes = db.nodes; queued = []; folders = db.folders }))
      h
