-- ===== src/Proton/Walk/Covered.antt =====
-- The walk of src/migrator/providers/proton_cli.py: each pending folder of the snapshot stands in a
-- queue or is being listed.
use dropbox_mirror.Base.{
  In-map, ℕ, ◌<◌, true, List, [], ◌∷◌, map, length, concat, In, Text, codes, ◌==◌, nat_eq, text_eq,
  option_eq, text_iff, ◌≡◌, ◌≢◌, refl, sym, ap, subst, ◌∙◌, ◌⊎◌, inl, inr, Bool-cases,
}
use dropbox_mirror.Proton.Invoke.{Attempt}
use dropbox_mirror.Proton.Landing.{Walk, Flight}
use dropbox_mirror.Proton.Listing.{Reader, record_attempts}
use dropbox_mirror.Proton.Mutation.{category_text}
use dropbox_mirror.Proton.Snapshots.{note_row, is_folder_row, finish_row, note_failure}
use dropbox_mirror.Proton.Walk.{is_pending}
use dropbox_mirror.State.Records.{record_command_end, record_command_start}
use dropbox_mirror.State.Tables.{Db, ProtonFolder}

abbrev pub uid_of : Flight → Text
uid_of fl = fl.folder.uid

-- A UID is queued, or is that of a listing still to be collected, or of one under way.
abbrev pub Awaited : List Flight → Walk → Text → Type 0
Awaited extra w u =
    In u (concat w.queues) ⊎ (In u (map uid_of extra) ⊎ In u (map uid_of w.in_flight))

abbrev pub InRange : ℕ → List Flight → Type 0
InRange workers flights = (fl : Flight) → In fl flights → fl.worker < workers

pub record Covered (snapshot_id workers : ℕ) (extra : List Flight) (w : Walk) : Type 0 where
  pub found :
      (f : ProtonFolder)
      → In f w.db.folders
      → is_pending snapshot_id f ≡ true
      → Awaited extra w f.uid
  pub width : length w.queues ≡ workers
  pub extra_range : InRange workers extra
  pub range : InRange workers w.in_flight

pub record_attempts-folders :
    (reader : Reader) (operation : Text) (argv : List Text) (made : List Attempt) (db : Db)
    → (record_attempts reader operation argv made db).folders ≡ db.folders
unfolding record_attempts record_command_start record_command_end
record_attempts-folders reader operation argv [] db = refl
record_attempts-folders reader operation argv (a ∷ made) db =
    let (command_id, started) =
      record_command_start reader.now (codes "proton") operation argv a.attempt db in
    record_attempts-folders reader operation argv made (
      record_command_end reader.now command_id a.returncode (category_text reader.digits a.category)
        started)

pub note_row_same :
    (snapshot_id : ℕ) (uid category : Text) (f : ProtonFolder)
    → (is_pending snapshot_id (note_row snapshot_id uid category f) ≡ is_pending snapshot_id f)
      × ((note_row snapshot_id uid category f).uid ≡ f.uid)
note_row_same snapshot_id uid category f = elim (Bool-cases (is_folder_row snapshot_id uid f)) [
  | inl t ↦ rw t (refl, refl)
  | inr n ↦ rw n (refl, refl)
]

-- A pending row of the noted ones has the UID of a pending row.
pub note_failure-pending :
    (snapshot_id : ℕ) (uid category : Text) (db : Db) (g : ProtonFolder)
    → In g (note_failure snapshot_id uid category db).folders
    → is_pending snapshot_id g ≡ true
    → (f : ProtonFolder) × In f db.folders × (is_pending snapshot_id f ≡ true) × (g.uid ≡ f.uid)
unfolding note_failure
note_failure-pending snapshot_id uid category db g m p =
    let (f, mf, e) = In-map (note_row snapshot_id uid category) g db.folders m in
    let (same, uid_same) = note_row_same snapshot_id uid category f in
    (
      f,
      mf,
      sym same ∙ ap (is_pending snapshot_id) (sym e) ∙ p,
      ap (λ (x : ProtonFolder). x.uid) e ∙ uid_same,
    )

pub finish_row-pending_lem :
    (snapshot_id : ℕ) (uid : Text) (f : ProtonFolder)
    → is_pending snapshot_id (finish_row snapshot_id uid f) ≡ true
    → (finish_row snapshot_id uid f ≡ f) × (f.uid ≢ uid)
finish_row-pending_lem snapshot_id uid f = elim (Bool-cases (f.snapshot_id == snapshot_id)) [
  | inl ours ↦ elim (Bool-cases (f.uid == uid)) [
    | inl t ↦ rw (ours, t) (λ p. cc p)
    | inr n ↦ rw (ours, n) (λ p. (refl, λ e. cc (n, (text_iff f.uid uid).1 e)))
  ]
  | inr not_ours ↦ rw not_ours (λ p. cc p)
]

-- A pending row of the finished ones is one of another UID.
pub finish_row-pending :
    (snapshot_id : ℕ) (uid : Text) (folders : List ProtonFolder) (g : ProtonFolder)
    → In g (map (finish_row snapshot_id uid) folders)
    → is_pending snapshot_id g ≡ true
    → In g folders × (g.uid ≢ uid)
finish_row-pending snapshot_id uid folders g m p =
    let (f, mf, e) = In-map (finish_row snapshot_id uid) g folders m in
    let (same, apart) =
      finish_row-pending_lem snapshot_id uid f (ap (is_pending snapshot_id) (sym e) ∙ p) in
    (
      subst (λ x. In x folders) (sym (e ∙ same)) mf,
      λ u. apart (ap (λ (x : ProtonFolder). x.uid) (sym (e ∙ same)) ∙ u),
    )
