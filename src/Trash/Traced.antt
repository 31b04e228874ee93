-- ===== src/Trash/Traced.antt =====
-- src/migrator/phases/p50_trash.py: which records of deletions the trash phase adds.
use dropbox_mirror.Base.{
  codes, In-keep, In-append, ℕ, not, Option, none, some, List, [], ◌∷◌, length, keep, In, Text,
  ◌==◌, nat_eq, text_eq, option_eq, text_iff, ok, err, ◌≡◌, refl, sym, ap, subst, ◌∙◌, ◌⊎◌, inl,
  inr, Bool-cases,
}
use dropbox_mirror.Batch.Staging.{base_name, parent_cli_path}
use dropbox_mirror.Failure.{class}
use dropbox_mirror.State.Tables.{Db, DeltaDeleted, Deletion, DeletionStatus}
use dropbox_mirror.Trash.{
  has_field, is_trashed, time_if, same_deletion, files_of, choose, Outcome, candidates, add_target,
  Counts, Fields, Calls, targets_of, Targets, record_deletion,
}
use dropbox_mirror.Trash.Phase.{
  next_group, is_cli_error, after_trash, in_folder, trash_group, trash_listed, record_trashed,
  record_all, trash_groups,
}

-- The statuses that say that a file is no longer on Proton.
abbrev pub IsGone : DeletionStatus → Type 0
IsGone status = (status ≡ DeletionStatus.trashed) ⊎ (status ≡ DeletionStatus.not_found)

-- Each record of a file that is gone was there before, or its path has the property.
abbrev pub Traced : List Deletion → (Text → Type 0) → Db → Type 0
Traced before P db =
    (d : Deletion) → In d db.deletions → IsGone d.status → In d before ⊎ P d.path_lower

-- The folder of a deleted file of this path was listed.
abbrev pub Answered : Calls → Text → List DeltaDeleted → Text → Type 0
Answered calls destination rows path_lower =
    (r : DeltaDeleted) × In r rows
    × (r.path_lower ≡ path_lower)
    × ((nodes : List Fields) × (calls.list_folder (parent_cli_path destination r.path_display)
          ≡ ok nodes))

module _ (before : List Deletion) (P : Text → Type 0) (run_id : ℕ) (now : Text) where
  record_deletion-Traced :
      (row : DeltaDeleted) (status : DeletionStatus) (uid : Option Text) (db : Db)
      → (IsGone status → P row.path_lower)
      → Traced before P db
      → Traced before P (record_deletion run_id now row status uid db)
  unfolding record_deletion
  record_deletion-Traced row status uid db answered traced d m gone =
      let others = λ (x : Deletion). not (same_deletion run_id row.path_lower x) in
      let new_record : Deletion = record {
        run_id = run_id;
        path_lower = row.path_lower;
        path_display = row.path_display;
        proton_uid = uid;
        status = status;
        trashed_at = time_if (is_trashed status) now;
      } in
      elim (In-append d (keep others db.deletions) (new_record ∷ []) m) [
        | inl old ↦ traced d (In-keep others d db.deletions old).0 gone
        | inr (inl new) ↦ inr (
            subst P (sym (ap (λ (x : Deletion). x.path_lower) new))
              (answered (subst IsGone (ap (λ (x : Deletion). x.status) new) gone)))
        | inr (inr no_more) ↦ elim no_more [ ]
      ]

  record_all-Traced :
      (status : DeletionStatus) (rows : List DeltaDeleted) (db : Db)
      → ((r : DeltaDeleted) → In r rows → IsGone status → P r.path_lower)
      → Traced before P db
      → Traced before P (record_all run_id now status rows db)
  record_all-Traced status [] db answered traced = traced
  record_all-Traced status (row ∷ rows) db answered traced =
      record_all-Traced status rows (record_deletion run_id now row status none db)
        (λ r m. answered r (inr m))
        (record_deletion-Traced row status none db (answered row (inl refl)) traced)

  record_trashed-Traced :
      (found : List (DeltaDeleted × Text)) (db : Db)
      → ((f : DeltaDeleted × Text) → In f found → P f.0.path_lower)
      → Traced before P db
      → Traced before P (record_trashed run_id now found db)
  record_trashed-Traced [] db answered traced = traced
  record_trashed-Traced (f ∷ found) db answered traced =
      record_trashed-Traced found
        (record_deletion run_id now (f.0) DeletionStatus.trashed (some (f.1)) db)
        (λ g m. answered g (inr m))
        (record_deletion-Traced (f.0) DeletionStatus.trashed (some (f.1)) db
          (λ _. answered f (inl refl)) traced)

-- What was found and what is missing are rows of the group.
abbrev Among : List DeltaDeleted → Targets → Type 0
Among rows t =
    ((r : DeltaDeleted) → In r t.missing → In r rows)
    × ((f : DeltaDeleted × Text) → In f t.found → In (f.0) rows)

add_target-Among :
    (calls : Calls) (parent : Text) (row : DeltaDeleted) (nodes : List Fields) (o : Option Fields)
    (t : Targets) (rows : List DeltaDeleted)
    → Among rows t
    → Among (row ∷ rows) (add_target calls parent row nodes o t)
add_target-Among calls parent row nodes none t rows (missing, found) =
    (λ r m. elim m [ inl e ↦ inl e | inr old ↦ inr (missing r old) ], λ f m. inr (found f m))
add_target-Among calls parent row nodes (some node) t rows (missing, found) =
    elim (Bool-cases (has_field (codes "uid") node)) [
      | inr lacks ↦ rw lacks (λ r m. elim m [ ], λ f m. elim m [ ])
      | inl there ↦ rw there (
        λ r m. inr (missing r m),
        λ f m. elim m [
          | inl e ↦ inl (ap (λ (x : DeltaDeleted × Text). x.0) e)
          | inr old ↦ inr (found f old)
        ],
      )
    ]

targets_of-Among :
    (calls : Calls) (parent : Text) (nodes : List Fields) (rows : List DeltaDeleted)
    → Among rows (targets_of calls parent nodes rows)
unfolding targets_of
targets_of-Among calls parent nodes [] = (λ r m. m, λ f m. elim m [ ])
targets_of-Among calls parent nodes (row ∷ rows) =
    let named = candidates calls (base_name row.path_display) nodes in
    add_target-Among calls parent row named (choose calls row.proton_uid (files_of calls named))
      (targets_of calls parent nodes rows) rows (targets_of-Among calls parent nodes rows)

module _ (calls : Calls) (run_id : ℕ) (before : List Deletion) (P : Text → Type 0) where
  after_trash-Traced :
      (t : Targets) (c : Counts) (db : Db) (o : Outcome (Unit {0}))
      → ((f : DeltaDeleted × Text) → In f t.found → P f.0.path_lower)
      → Traced before P db
      → Traced before P (after_trash run_id calls.now t c db o).1
  after_trash-Traced t c db (err e) answered traced = traced
  after_trash-Traced t c db (ok done) answered traced =
      record_trashed-Traced before P run_id calls.now t.found db answered traced

  trash_listed-Traced :
      (t : Targets) (c : Counts) (db : Db) (rows : List DeltaDeleted)
      → Among rows t
      → ((r : DeltaDeleted) → In r rows → P r.path_lower)
      → Traced before P db
      → Traced before P (trash_listed calls run_id t c db).1
  unfolding trash_listed
  trash_listed-Traced t c db rows (missing, found) answered traced =
      let recorded = record_all run_id calls.now DeletionStatus.not_found t.missing db in
      let kept =
        record_all-Traced before P run_id calls.now DeletionStatus.not_found t.missing db
          (λ r m gone. answered r (missing r m)) traced in
      elim (Bool-cases t.lacks_uid) [
        | inl lacks ↦ rw lacks kept
        | inr all_there ↦ elim (Bool-cases (length t.paths == 0)) [
          | inl none_there ↦ rw (all_there, none_there) kept
          | inr some_there ↦
              rw (all_there, some_there)
                (after_trash-Traced t c recorded (calls.trash t.paths)
                  (λ f m. answered (f.0) (found f m)) kept)
        ]
      ]

  trash_group-Traced :
      (parent : Text) (group : List DeltaDeleted) (o : Outcome (List Fields)) (c : Counts) (db : Db)
      → ((nodes : List Fields) → o ≡ ok nodes → (r : DeltaDeleted) → In r group → P r.path_lower)
      → Traced before P db
      → Traced before P (trash_group calls run_id parent group o c db).1
  unfolding trash_group
  trash_group-Traced parent group (ok nodes) c db answered traced =
      trash_listed-Traced (targets_of calls parent nodes group) c db group
        (targets_of-Among calls parent nodes group) (answered nodes refl) traced
  trash_group-Traced parent group (err e) c db answered traced =
      elim (Bool-cases (is_cli_error (class e))) [
        | inl t ↦ rw t (
            record_all-Traced before P run_id calls.now DeletionStatus.listing_failed group db
              (λ r m gone. elim gone [ inl e ↦ cc (e) | inr e ↦ cc (e) ]) traced)
        | inr f ↦ rw f traced
      ]

  next_group-Traced :
      (loop : Counts → Db → Outcome Counts × Db) (o : Outcome Counts × Db)
      → ((c : Counts) → Traced before P (loop c (o.1)).1)
      → Traced before P o.1
      → Traced before P (next_group loop o).1
  next_group-Traced loop (ok c, db) rest traced = rest c
  next_group-Traced loop (err e, db) rest traced = traced

-- A record that says that a file is gone was there before the groups, or the folder of the file was
-- listed.
pub groups-Traced :
    (calls : Calls) (run_id : ℕ) (destination : Text) (rows : List DeltaDeleted)
    (before : List Deletion) (parents : List Text) (c : Counts) (db : Db)
    → Traced before (Answered calls destination rows) db
    → Traced before
        (Answered calls destination rows)
        (trash_groups calls run_id destination rows parents c db).1
unfolding trash_groups
groups-Traced calls run_id destination rows before [] c db traced = traced
groups-Traced calls run_id destination rows before (parent ∷ parents) c db traced =
    let P = Answered calls destination rows in
    let group = keep (in_folder destination parent) rows in
    let o = trash_group calls run_id parent group (calls.list_folder parent) c db in
    let first =
      trash_group-Traced calls run_id before P parent group (calls.list_folder parent) c db
        (λ nodes e r m.
          let (mr, t) = In-keep (in_folder destination parent) r rows m in
          let same = (text_iff (parent_cli_path destination r.path_display) parent).0 t in
          (r, mr, refl, (nodes, ap calls.list_folder same ∙ e)))
        traced in
    next_group-Traced calls run_id before P (trash_groups calls run_id destination rows parents) o
      (λ d. groups-Traced calls run_id destination rows before parents d (o.1) first) first
