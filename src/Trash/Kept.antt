-- ===== src/Trash/Kept.antt =====
-- src/migrator/phases/p50_trash.py: what is trashed and what the mirror keeps.
use dropbox_mirror.Base.{
  nat_beq_iff, In-keep, ◌&&◌, any-In, arith, text_beq_refl, In-keep_of, find_of_In, ℕ, true, not,
  Option, none, some, List, [], ◌∷◌, map, length, keep, find, In, Text, codes, ◌==◌, nat_eq,
  text_eq, option_eq, text_iff, ok, err, ◌≡◌, refl, sym, subst, ◌∙◌, ◌⊎◌, inl, inr, Bool-cases,
}
use dropbox_mirror.Base.Json.{Fields}
use dropbox_mirror.Base.Sort.{In-sort_by, sort_by}
use dropbox_mirror.Batch.Staging.{distinct, parent_cli_path}
use dropbox_mirror.Failure.{class}
use dropbox_mirror.State.Runs.{current_run}
use dropbox_mirror.State.Tables.{Deletion, Run, Db, DeltaDeleted, DeletionStatus, MirrorObject}
use dropbox_mirror.Trash.{
  head_of, targets_of, node_text, or_first, Outcome, Counts, choose, Targets, record_deletion,
  Calls,
}
use dropbox_mirror.Trash.Phase.{
  is_gone, no_counts, same_text, in_folder, is_cli_error, deleted_rows_of, batches_remain, with_run,
  trash_rows, after_push, gone_from, next_group, after_trash, record_trashed, record_all, end_trash,
  forget_gone, trash_groups, trash_group, trash_listed, run,
}
use dropbox_mirror.Trash.Traced.{IsGone, groups-Traced, Traced, Answered}

record_all-mirror :
    (run_id : ℕ) (now : Text) (status : DeletionStatus) (rows : List DeltaDeleted) (db : Db)
    → (record_all run_id now status rows db).mirror ≡ db.mirror
unfolding record_deletion
record_all-mirror run_id now status [] db = refl
record_all-mirror run_id now status (row ∷ rows) db =
    record_all-mirror run_id now status rows (record_deletion run_id now row status none db)

record_trashed-mirror :
    (run_id : ℕ) (now : Text) (found : List (DeltaDeleted × Text)) (db : Db)
    → (record_trashed run_id now found db).mirror ≡ db.mirror
unfolding record_deletion
record_trashed-mirror run_id now [] db = refl
record_trashed-mirror run_id now (f ∷ found) db =
    record_trashed-mirror run_id now found
      (record_deletion run_id now (f.0) DeletionStatus.trashed (some (f.1)) db)

after_trash-mirror :
    (run_id : ℕ) (now : Text) (t : Targets) (c : Counts) (db : Db) (o : Outcome (Unit {0}))
    → (after_trash run_id now t c db o).1.mirror ≡ db.mirror
after_trash-mirror run_id now t c db (err e) = refl
after_trash-mirror run_id now t c db (ok done) = record_trashed-mirror run_id now t.found db

trash_listed-mirror :
    (calls : Calls) (run_id : ℕ) (t : Targets) (c : Counts) (db : Db)
    → (trash_listed calls run_id t c db).1.mirror ≡ db.mirror
unfolding trash_listed
trash_listed-mirror calls run_id t c db =
    let recorded = record_all run_id calls.now DeletionStatus.not_found t.missing db in
    let kept = record_all-mirror run_id calls.now DeletionStatus.not_found t.missing db in
    elim (Bool-cases t.lacks_uid) [
      | inl lacks ↦ rw lacks kept
      | inr all_there ↦ elim (Bool-cases (length t.paths == 0)) [
        | inl none_there ↦ rw (all_there, none_there) kept
        | inr some_there ↦
            rw (all_there, some_there)
              (after_trash-mirror run_id calls.now t c recorded (calls.trash t.paths) ∙ kept)
      ]
    ]

trash_group-mirror :
    (calls : Calls) (run_id : ℕ) (parent : Text) (group : List DeltaDeleted)
    (o : Outcome (List Fields)) (c : Counts) (db : Db)
    → (trash_group calls run_id parent group o c db).1.mirror ≡ db.mirror
unfolding trash_group
trash_group-mirror calls run_id parent group (ok nodes) c db =
    trash_listed-mirror calls run_id (targets_of calls parent nodes group) c db
trash_group-mirror calls run_id parent group (err e) c db =
    elim (Bool-cases (is_cli_error (class e))) [
      | inl t ↦ rw t (record_all-mirror run_id calls.now DeletionStatus.listing_failed group db)
      | inr f ↦ rw f refl
    ]

next_group-mirror :
    (loop : Counts → Db → Outcome Counts × Db) (o : Outcome Counts × Db)
    → ((c : Counts) → (loop c (o.1)).1.mirror ≡ o.1.mirror)
    → (next_group loop o).1.mirror ≡ o.1.mirror
next_group-mirror loop (ok c, db) kept = kept c
next_group-mirror loop (err e, db) kept = refl

groups-mirror :
    (calls : Calls) (run_id : ℕ) (destination : Text) (rows : List DeltaDeleted)
    (parents : List Text) (c : Counts) (db : Db)
    → (trash_groups calls run_id destination rows parents c db).1.mirror ≡ db.mirror
unfolding trash_groups
groups-mirror calls run_id destination rows [] c db = refl
groups-mirror calls run_id destination rows (parent ∷ parents) c db =
    let group = keep (in_folder destination parent) rows in
    let o = trash_group calls run_id parent group (calls.list_folder parent) c db in
    next_group-mirror (trash_groups calls run_id destination rows parents) o
      (λ d. groups-mirror calls run_id destination rows parents d (o.1))
    ∙ trash_group-mirror calls run_id parent group (calls.list_folder parent) c db

-- A mirrored row is still there, or this run has recorded its path as trashed or not found, by a
-- record that was there before or whose path has the property.
abbrev pub Accounted : List Deletion → (Text → Type 0) → ℕ → MirrorObject → Db → Type 0
Accounted before P run_id m after =
    In m after.mirror
    ⊎ ((d : Deletion) × In d after.deletions
        × (d.run_id ≡ run_id)
        × (d.path_lower ≡ m.path_lower)
        × IsGone d.status
        × (In d before ⊎ P m.path_lower))

is_gone_iff : (status : DeletionStatus) → is_gone status ≡ true → IsGone status
is_gone_iff DeletionStatus.trashed t = inl refl
is_gone_iff DeletionStatus.not_found t = inr refl
is_gone_iff DeletionStatus.listing_failed t = cc

deletion-IsGone :
    (run_id : ℕ) (d : Deletion) (path_lower : Text)
    → ((d.run_id == run_id) && is_gone d.status && (d.path_lower == path_lower)) ≡ true
    → (d.run_id ≡ run_id) × (d.path_lower ≡ path_lower) × IsGone d.status
deletion-IsGone run_id d path_lower t = (
  ground (arith, t, nat_beq_iff d.run_id run_id),
  (text_iff d.path_lower path_lower).0 (ground (arith, t)),
  is_gone_iff d.status (ground (arith, t)),
)

after_push-db :
    (n : ℕ) (c : Counts) (db : Db) (o : Outcome (Unit {0})) → (after_push n c db o).1 ≡ db
after_push-db n c db (err e) = refl
after_push-db n c db (ok done) = refl

module _ (before : List Deletion) (P : Text → Type 0) (run_id : ℕ) (m : MirrorObject) where
  forget_gone-Accounted :
      (db : Db)
      → Traced before P db
      → In m db.mirror
      → Accounted before P run_id m (forget_gone run_id db)
  unfolding forget_gone
  forget_gone-Accounted db traced there =
      elim (Bool-cases (gone_from run_id db.deletions m.path_lower)) [
        | inl gone ↦
            let is_record = λ (d : Deletion).
              (d.run_id == run_id) && is_gone d.status && (d.path_lower == m.path_lower) in
            let (d, md, t) = any-In is_record db.deletions gone in
            let (own, same, status) = deletion-IsGone run_id d m.path_lower t in
            inr (d, md, own, same, status, subst (λ p. In d before ⊎ P p) same (traced d md status))
        | inr stays ↦ inl (
            In-keep_of (λ (x : MirrorObject). not (gone_from run_id db.deletions x.path_lower)) m
              db.mirror there (rw stays refl))
      ]

  end_trash-Accounted :
      (calls : Calls) (label : Text) (n : ℕ) (o : Outcome Counts × Db)
      → Traced before P o.1
      → In m o.1.mirror
      → Accounted before P run_id m ((end_trash calls run_id label n o).1)
  unfolding end_trash
  end_trash-Accounted calls label n (err e, db) traced there = inl there
  end_trash-Accounted calls label n (ok c, db) traced there =
      rw after_push-db (forget_gone-Accounted db traced there)

trash_rows-Accounted :
    (calls : Calls) (run_id : ℕ) (label destination : Text) (root : Outcome (Unit {0}))
    (rows : List DeltaDeleted) (db : Db) (m : MirrorObject)
    → In m db.mirror
    → Accounted db.deletions
        (Answered calls destination rows)
        run_id
        m
        ((trash_rows calls run_id label destination root rows db).1)
trash_rows-Accounted calls run_id label destination root [] db m there = inl there
trash_rows-Accounted calls run_id label destination (err e) (r ∷ rows) db m there = inl there
trash_rows-Accounted calls run_id label destination (ok done) (r ∷ rows) db m there =
    let parents =
      map (λ (d : DeltaDeleted). parent_cli_path destination d.path_display) (r ∷ rows) in
    let sorted = sort_by same_text (distinct parents) in
    end_trash-Accounted db.deletions (Answered calls destination (r ∷ rows)) run_id m calls label
      (length (r ∷ rows)) (trash_groups calls run_id destination (r ∷ rows) sorted no_counts db)
      (groups-Traced calls run_id destination (r ∷ rows) db.deletions sorted no_counts db
        (λ d md gone. inl md))
      (subst (In m) (sym (groups-mirror calls run_id destination (r ∷ rows) sorted no_counts db))
        there)

-- The folder of a file that this run deletes, whose path this is, was listed.
abbrev pub Found : Calls → ℕ → Text → Db → Text → Type 0
Found calls run_id destination db path_lower =
    (r : DeltaDeleted) × In r db.delta_deleted
    × (r.run_id ≡ run_id)
    × (r.path_lower ≡ path_lower)
    × ((nodes : List Fields) × (calls.list_folder (parent_cli_path destination r.path_display)
          ≡ ok nodes))

Answered-Found :
    (calls : Calls) (run_id : ℕ) (destination : Text) (db : Db) (path_lower : Text)
    → Answered calls destination (deleted_rows_of run_id db) path_lower
    → Found calls run_id destination db path_lower
unfolding deleted_rows_of
Answered-Found calls run_id destination db path_lower (r, mr, same, listed) =
    let own = λ (d : DeltaDeleted). d.run_id == run_id in
    let (there, t) =
      In-keep own r db.delta_deleted
        (In-sort_by (λ (d : DeltaDeleted). d.path_lower) r (keep own db.delta_deleted) mr) in
    (r, there, (nat_beq_iff r.run_id run_id).0 t, same, listed)

Accounted-map :
    (before : List Deletion) (P Q : Text → Type 0) (run_id : ℕ) (m : MirrorObject) (after : Db)
    → ((p : Text) → P p → Q p)
    → Accounted before P run_id m after
    → Accounted before Q run_id m after
Accounted-map before P Q run_id m after f (inl there) = inl there
Accounted-map before P Q run_id m after f (inr (d, md, own, same, gone, inl old)) =
    inr (d, md, own, same, gone, inl old)
Accounted-map before P Q run_id m after f (inr (d, md, own, same, gone, inr p)) =
    inr (d, md, own, same, gone, inr (f m.path_lower p))

with_run-Accounted :
    (calls : Calls) (run_id : ℕ) (label destination : Text) (root : Outcome (Unit {0})) (db : Db)
    (o : Outcome Run) (m : MirrorObject)
    → In m db.mirror
    → Accounted db.deletions
        (Found calls run_id destination db)
        run_id
        m
        ((with_run calls run_id label destination root db o).1)
with_run-Accounted calls run_id label destination root db (err e) m there = inl there
with_run-Accounted calls run_id label destination root db (ok r) m there =
    elim (Bool-cases (batches_remain r.remaining_batches)) [
      | inl t ↦ rw t (inl there)
      | inr f ↦
          let rows = deleted_rows_of run_id db in
          rw f (
            Accounted-map db.deletions (Answered calls destination rows)
              (Found calls run_id destination db) run_id m
              (trash_rows calls run_id label destination root rows db).1
              (Answered-Found calls run_id destination db)
              (trash_rows-Accounted calls run_id label destination root rows db m there))
    ]

-- Wherever the phase stops, a row leaves the mirror only if there is a record of this run that its
-- path was trashed or not found; and unless the record was there before the phase, the folder of
-- the deleted file of that path was listed. So a folder that could not be listed loses no rows.
pub run-Accounted :
    (calls : Calls) (run_id : ℕ) (label destination : Text) (root : Outcome (Unit {0})) (db : Db)
    (m : MirrorObject)
    → In m db.mirror
    → Accounted db.deletions
        (Found calls run_id destination db)
        run_id
        m
        ((run calls run_id label destination root db).1)
unfolding run
run-Accounted calls run_id label destination root db =
    with_run-Accounted calls run_id label destination root db (current_run db)

choose_found : (o first : Option Fields) (c : Fields) → o ≡ some c → or_first o first ≡ some c
choose_found o first c e = rw e refl

-- The UID that was recorded when the file was mirrored decides: if one of the files of that name has
-- it, then the node that is chosen is one of them and has it, wherever it stands in the listing.
pub choose-uid :
    (calls : Calls) (uid : Text) (files : List Fields) (n : Fields)
    → In n files
    → node_text calls (codes "uid") n ≡ uid
    → (chosen : Fields) × (choose calls (some uid) files ≡ some chosen)
      × In chosen files
      × (node_text calls (codes "uid") chosen ≡ uid)
unfolding choose
choose-uid calls uid files n m e =
    let has_uid = λ (x : Fields). some (node_text calls (codes "uid") x) == some uid in
    let (c, found, mc, t) = find_of_In has_uid n files m (rw e (text_beq_refl uid)) in
    (c, choose_found (find has_uid files) (head_of files) c found, mc, (text_iff _ uid).0 t)
