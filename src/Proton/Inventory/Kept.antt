-- ===== src/Proton/Inventory/Kept.antt =====
-- The opening and the closing of a snapshot of src/migrator/providers/proton_cli.py.
use dropbox_mirror.Base.{
  Option-cases, In-keep, In-map, In-append, any_of_In, ℕ, Bool, true, false, ◌&&◌, not, Option,
  none, some, List, [], ◌∷◌, keep, any, In, Text, ◌==◌, nat_eq, text_eq, option_eq, nat_beq_iff, ok,
  err, ◌≡◌, ◌≢◌, refl, sym, ap, subst, ◌∙◌, inl, inr, arith, Bool-cases,
}
use dropbox_mirror.Base.Rows.{latest-In, latest, next_id_fresh, next_id}
use dropbox_mirror.Failure.{Outcome}
use dropbox_mirror.Proton.Inventory.{open_snapshot, close_finished, walk_opened, inventory}
use dropbox_mirror.Proton.Inventory.Closed.{
  Others-Stable, Others, walked-IsClosed, IsOpen, IsClosed,
}
use dropbox_mirror.Proton.Landing.{World}
use dropbox_mirror.Proton.Snapshots.{
  open_snapshot, resume_snapshot, is_complete, is_done, is_ours, of_snapshot, key_of, close_row,
  close_snapshot, new_snapshot, Naming,
}
use dropbox_mirror.Proton.Walk.{run}
use dropbox_mirror.Proton.Walk.Finished.{run-AllListed, status_of_not_pending}
use dropbox_mirror.Proton.Walk.Rounds.{IsOrder}
use dropbox_mirror.Proton.Walk.Stable.{run-holds}
use dropbox_mirror.State.Tables.{FolderStatus, Db, ProtonFolder, ProtonSnapshot}

new_id-apart :
    (s : ProtonSnapshot) (snapshots : List ProtonSnapshot)
    → In s snapshots
    → s.id ≢ next_id key_of snapshots
new_id-apart s snapshots m e = omega (arith, next_id_fresh key_of s snapshots m, e)

pub new_snapshot-IsClosed :
    (naming : Naming) (purpose cli_version : Text) (db : Db)
    → IsClosed db
    → IsClosed (new_snapshot naming purpose cli_version db).1
      × IsOpen
          (new_snapshot naming purpose cli_version db).0
          (new_snapshot naming purpose cli_version db).1
unfolding new_snapshot
new_snapshot-IsClosed naming purpose cli_version db c =
    let id = next_id key_of db.snapshots in
    (
      record {
        unique = λ s t ms mt e. elim (In-append s db.snapshots _ ms) [
          | inl old ↦ elim (In-append t db.snapshots _ mt) [
            | inl other ↦ c.unique s t old other e
            | inr (inl new) ↦ absurd (new_id-apart s db.snapshots old (e ∙ ap key_of new))
            | inr (inr none_left) ↦ absurd none_left
          ]
          | inr (inl is_new) ↦ elim (In-append t db.snapshots _ mt) [
            | inl other ↦ absurd (new_id-apart t db.snapshots other (sym e ∙ ap key_of is_new))
            | inr (inl new) ↦ is_new ∙ sym new
            | inr (inr none_left) ↦ absurd none_left
          ]
          | inr (inr none_left) ↦ absurd none_left
        ];
        listed = λ s ms complete f mf ours. elim (In-append s db.snapshots _ ms) [
          | inl old ↦ elim (In-append f db.folders _ mf) [
            | inl folder ↦ c.listed s old complete f folder ours
            | inr (inl root) ↦ absurd (
                new_id-apart s db.snapshots old
                  (sym ours ∙ ap (λ (x : ProtonFolder). x.snapshot_id) root))
            | inr (inr none_left) ↦ absurd none_left
          ]
          | inr (inl new) ↦ cc (ap (λ (x : ProtonSnapshot). x.status) new, complete)
          | inr (inr none_left) ↦ absurd none_left
        ];
      },
      λ s ms complete. elim (In-append s db.snapshots _ ms) [
        | inl old ↦ new_id-apart s db.snapshots old
        | inr (inl new) ↦ cc (ap (λ (x : ProtonSnapshot). x.status) new, complete)
        | inr (inr none_left) ↦ absurd none_left
      ],
    )

resumed-IsOpen :
    (naming : Naming) (purpose : Text) (s : ProtonSnapshot) (db : Db)
    → IsClosed db
    → latest key_of (keep (is_ours naming purpose) db.snapshots) ≡ some s
    → is_complete s.status ≡ false
    → IsOpen s.id db
resumed-IsOpen naming purpose s db c found running t mt complete e =
    let ms =
      (In-keep (is_ours naming purpose) s db.snapshots
        (latest-In key_of (keep (is_ours naming purpose) db.snapshots) s found)).0 in
    cc (running, ap (λ (x : ProtonSnapshot). x.status) (c.unique t s mt ms e), complete)

any-false :
    (p : ProtonFolder → Bool) (f : ProtonFolder) (folders : List ProtonFolder)
    → any p folders ≡ false
    → In f folders
    → p f ≡ false
any-false p f folders h m = elim (Bool-cases (p f)) [
  | inl t ↦ cc (any_of_In p f folders m t, h)
  | inr n ↦ n
]

close_row-id : (now : Text) (id : ℕ) (s : ProtonSnapshot) → (close_row now id s).id ≡ s.id
close_row-id now id s = ground arith

close_row-other : (now : Text) (id : ℕ) (s : ProtonSnapshot) → s.id ≢ id → close_row now id s ≡ s
close_row-other now id s h = ground arith

-- A closed snapshot is one whose folders are all listed.
pub close_snapshot-IsClosed :
    (naming : Naming) (id : ℕ) (db : Db) → IsClosed db → IsClosed (close_snapshot naming id db).1
unfolding close_snapshot
close_snapshot-IsClosed naming id db c =
    let left = λ (f : ProtonFolder). of_snapshot id f && not (is_done f.status) in
    elim (Bool-cases (any left db.folders)) [
      | inl t ↦ rw t c
      | inr none_left ↦ rw none_left (record {
        unique = λ s t ms mt e.
            let (s', ms', es) = In-map (close_row naming.now id) s db.snapshots ms in
            let (t', mt', et) = In-map (close_row naming.now id) t db.snapshots mt in
            let same = c.unique s' t' ms' mt' (
              sym (close_row-id naming.now id s')
              ∙ ap key_of (sym es)
              ∙ e
              ∙ ap key_of et
              ∙ close_row-id naming.now id t') in
            es ∙ ap (close_row naming.now id) same ∙ sym et;
        listed = λ s ms complete f mf ours.
            let (s', ms', es) = In-map (close_row naming.now id) s db.snapshots ms in
            let owner : f.snapshot_id ≡ s'.id =
              ours ∙ ap key_of es ∙ close_row-id naming.now id s' in
            elim (Bool-cases (s'.id == id)) [
              | inl this ↦
                  let e : f.snapshot_id ≡ id = owner ∙ (nat_beq_iff s'.id id).0 this in
                  status_of_not_pending id f (λ p. cc (p, any-false left f db.folders none_left mf))
                    e
              | inr other ↦
                  let apart : s'.id ≢ id = λ e. cc (other, (nat_beq_iff s'.id id).1 e) in
                  c.listed s' ms'
                    (ap (λ (x : ProtonSnapshot). x.status)
                        (sym (es ∙ close_row-other naming.now id s' apart))
                      ∙ complete)
                    f mf owner
            ];
      })
    ]

abbrev ResultClosed : Option (Outcome ℕ × Db) → Type 0
ResultClosed none = Unit
ResultClosed (some (result, db)) = IsClosed db

close_finished-IsClosed :
    (naming : Naming) (id : ℕ) (result : Outcome Bool) (db : Db)
    → IsClosed db
    → IsClosed (close_finished naming id (result, db)).1
unfolding close_finished
close_finished-IsClosed naming id (err e) db c = c
close_finished-IsClosed naming id (ok false) db c = c
close_finished-IsClosed naming id (ok true) db c = close_snapshot-IsClosed naming id db c

walked-ResultClosed :
    (world : World) (purpose : Text) (walk_workers fuel id : ℕ) (db : Db)
    → IsClosed db
    → IsOpen id db
    → ResultClosed (walk_opened world purpose walk_workers fuel (some id, db))
unfolding walk_opened
walked-ResultClosed world purpose walk_workers fuel id db c opened =
    elim (Option-cases (run world id walk_workers fuel db)) [
      | inl e ↦ rw e tt
      | inr ((result, after), e) ↦ rw e (
          close_finished-IsClosed world.naming id result after (
            walked-IsClosed id db after opened c (
              run-holds world id (Others id db) (Others-Stable id db) walk_workers fuel db after
                result (record { same_snapshots = refl; same_folders = λ f m apart. m }) e)))
    ]

resume-ResultClosed :
    (world : World) (cli_version purpose : Text) (reuse_complete : Bool) (walk_workers fuel : ℕ)
    (db : Db) (o : Option ProtonSnapshot)
    → IsClosed db
    → latest key_of (keep (is_ours world.naming purpose) db.snapshots) ≡ o
    → ResultClosed (
        walk_opened world purpose walk_workers fuel
          (resume_snapshot world.naming purpose reuse_complete cli_version db o))
unfolding walk_opened resume_snapshot
resume-ResultClosed world cli_version purpose reuse walk_workers fuel db none c e =
    let (closed, opened) = new_snapshot-IsClosed world.naming purpose cli_version db c in
    walked-ResultClosed world purpose walk_workers fuel
      (new_snapshot world.naming purpose cli_version db).0
      (new_snapshot world.naming purpose cli_version db).1 closed opened
resume-ResultClosed world cli_version purpose reuse walk_workers fuel db (some s) c e =
    let (closed, opened) = new_snapshot-IsClosed world.naming purpose cli_version db c in
    elim (Bool-cases (is_complete s.status)) [
      | inl t ↦ rw t (elim (Bool-cases reuse) [
        | inl r ↦ rw r c
        | inr f ↦ rw f (
            walked-ResultClosed world purpose walk_workers fuel
              (new_snapshot world.naming purpose cli_version db).0
              (new_snapshot world.naming purpose cli_version db).1 closed opened)
      ])
      | inr f ↦ rw f (
          walked-ResultClosed world purpose walk_workers fuel s.id db c
            (resumed-IsOpen world.naming purpose s db c e f))
    ]

inventory-ResultClosed :
    (world : World) (version : Outcome Text) (purpose : Text) (reuse_complete : Bool)
    (walk_workers fuel : ℕ) (db : Db)
    → IsClosed db
    → ResultClosed (inventory world version purpose reuse_complete walk_workers fuel db)
unfolding inventory open_snapshot
inventory-ResultClosed world (err e) purpose reuse walk_workers fuel db c = c
inventory-ResultClosed world (ok cli_version) purpose reuse walk_workers fuel db c =
    resume-ResultClosed world cli_version purpose reuse walk_workers fuel db
      (latest key_of (keep (is_ours world.naming purpose) db.snapshots)) c refl

-- A snapshot is COMPLETE only if every folder that was found in it has been listed: the inventory
-- keeps this, and that the ids of snapshots are unique, whether it reuses, resumes or starts a
-- snapshot, and also when it is stopped or fails.
pub inventory-IsClosed :
    (world : World) (version : Outcome Text) (purpose : Text) (reuse_complete : Bool)
    (walk_workers fuel : ℕ) (db after : Db) (result : Outcome ℕ)
    → IsClosed db
    → inventory world version purpose reuse_complete walk_workers fuel db ≡ some (result, after)
    → IsClosed after
inventory-IsClosed world version purpose reuse walk_workers fuel db after result c h =
    subst ResultClosed h (inventory-ResultClosed world version purpose reuse walk_workers fuel db c)

any_none :
    (p : ProtonFolder → Bool) (folders : List ProtonFolder)
    → ((f : ProtonFolder) → In f folders → p f ≡ false)
    → any p folders ≡ false
unfolding any
any_none p [] h = refl
any_none p (f ∷ folders) h = rw (h f (inl refl)) (any_none p folders (λ g m. h g (inr m)))

not_left :
    (snapshot_id : ℕ) (f : ProtonFolder)
    → (f.snapshot_id ≡ snapshot_id → f.status ≡ FolderStatus.complete)
    → (of_snapshot snapshot_id f && not (is_done f.status)) ≡ false
not_left snapshot_id f h = elim (Bool-cases (f.snapshot_id == snapshot_id)) [
  | inl t ↦ rw (t, h ((nat_beq_iff f.snapshot_id snapshot_id).0 t)) refl
  | inr n ↦ rw n refl
]

-- The check before a snapshot is closed never refuses a walk that is finished.
pub close_snapshot-run :
    (world : World) (snapshot_id walk_workers fuel : ℕ) (db after : Db)
    → IsOrder world.order
    → run world snapshot_id walk_workers fuel db ≡ some (ok true, after)
    → (close_snapshot world.naming snapshot_id after).0 ≡ ok tt
unfolding close_snapshot
close_snapshot-run world snapshot_id walk_workers fuel db after o h =
    let listed = run-AllListed world snapshot_id walk_workers fuel db after o h in
    rw
      (any_none (λ (f : ProtonFolder). of_snapshot snapshot_id f && not (is_done f.status))
        after.folders (λ f m. not_left snapshot_id f (listed f m)))
      refl
