-- ===== src/Proton/Walk/Smaller.antt =====
-- The walk of src/migrator/providers/proton_cli.py over a drive of finitely many folders: what is left
-- to list falls with every listing that succeeds.
use dropbox_mirror.Base.{
  length-append, ℕ, zero, suc, ◌+◌, ◌≤◌, Bool, true, false, List, [], ◌∷◌, ◌++◌, length, concat, In,
  All, Text, codes, nat_eq, text_eq, option_eq, ok, ◌>>=◌, ◌≡◌, refl, ap, inl, inr, arith,
  Bool-cases,
}
use dropbox_mirror.Base.Json.{Fields}
use dropbox_mirror.Proton.Invoke.{Invoked}
use dropbox_mirror.Proton.Landing.{
  entries, went, worsen, raised, Step, Flight, Verdict, Walk, World, gave_up, session_died,
  went_well,
}
use dropbox_mirror.Proton.Listing.{array_of, parse}
use dropbox_mirror.Proton.Queues.{extend_at, return_to}
use dropbox_mirror.Proton.Snapshots.{
  field_text, commit, Committed, finish_row, note_row, is_folder_row, note_failure,
}
use dropbox_mirror.Proton.Snapshots.Counted.{room, unlisted-map, unlisted}
use dropbox_mirror.Proton.Walk.{is_well}
use dropbox_mirror.Proton.Walk.Dispatched.{load}
use dropbox_mirror.State.Tables.{Db, ProtonFolder}

-- Every UID that a listing shows is one of these.
abbrev pub Lists : List Text → World → Type 0
Lists universe world =
    (round : ℕ) (flight : Flight) (i : Invoked) (children : List Fields)
    → world.answer round flight ≡ ok i
    → (parse world.reader i >>= array_of >>= entries) ≡ ok children
    → All (λ node. In (field_text world.naming (codes "uid") node) universe) children

-- The UIDs without a row, the queued ones and those being listed.
abbrev pub left_over : List Text → ℕ → Walk → ℕ
left_over universe snapshot_id w = unlisted universe snapshot_id w.db.folders + load w

-- What a step leaves of a number of listings: at most that many more, and none if all went well.
pub record Smaller (universe : List Text) (snapshot_id extra : ℕ) (v : Verdict) (w : Walk)
    (v' : Verdict) (w' : Walk) : Type 0 where
  pub at_most : left_over universe snapshot_id w' ≤ left_over universe snapshot_id w + extra
  pub well :
      is_well v' ≡ true → left_over universe snapshot_id w' ≤ left_over universe snapshot_id w
  pub well_before : is_well v' ≡ true → is_well v ≡ true
  pub same_rescues : w'.rescues ≡ w.rescues

abbrev pub StepSmaller : List Text → ℕ → ℕ → Verdict → Walk → Step → Type 0
StepSmaller universe snapshot_id extra v w (raised e db) = Unit
StepSmaller universe snapshot_id extra v w (went v' w') =
    Smaller universe snapshot_id extra v w v' w'

pub concat-extend_at :
    (worker : ℕ) (uids : List Text) (queues : List (List Text))
    → length (concat (extend_at worker uids queues)) ≤ length (concat queues) + length uids
unfolding extend_at
concat-extend_at worker uids [] = omega arith
concat-extend_at zero uids (q ∷ queues) = omega (
  arith,
  length-append (q ++ uids) (concat queues),
  length-append q uids,
  length-append q (concat queues),
)
concat-extend_at (suc worker) uids (q ∷ queues) = omega (
  arith,
  concat-extend_at worker uids queues,
  length-append q (concat queues),
  length-append q (concat (extend_at worker uids queues)),
)

concat-return_to :
    (worker : ℕ) (uid : Text) (queues : List (List Text))
    → length (concat (return_to worker uid queues)) ≤ length (concat queues) + 1
unfolding return_to
concat-return_to worker uid [] = omega arith
concat-return_to zero uid (q ∷ queues) = omega arith
concat-return_to (suc worker) uid (q ∷ queues) = omega (
  arith,
  concat-return_to worker uid queues,
  length-append q (concat queues),
  length-append q (concat (return_to worker uid queues)),
)

note_row-uid :
    (snapshot_id : ℕ) (uid category u : Text) (g : ProtonFolder)
    → is_folder_row snapshot_id u (note_row snapshot_id uid category g)
      ≡ is_folder_row snapshot_id u g
note_row-uid snapshot_id uid category u g = elim (Bool-cases (is_folder_row snapshot_id uid g)) [
  | inl t ↦ rw t refl
  | inr f ↦ rw f refl
]

finish_row-uid :
    (snapshot_id : ℕ) (uid u : Text) (g : ProtonFolder)
    → is_folder_row snapshot_id u (finish_row snapshot_id uid g) ≡ is_folder_row snapshot_id u g
finish_row-uid snapshot_id uid u g = elim (Bool-cases (is_folder_row snapshot_id uid g)) [
  | inl t ↦ rw t refl
  | inr f ↦ rw f refl
]

worsen_not_well : (auth : Bool) (v : Verdict) → is_well (worsen auth v) ≡ false
worsen_not_well true went_well = refl
worsen_not_well true session_died = refl
worsen_not_well true gave_up = refl
worsen_not_well false v = refl

pub requeue-Smaller :
    (universe : List Text) (snapshot_id : ℕ) (flight : Flight) (auth : Bool) (v : Verdict)
    (w : Walk) (db : Db) (category : Text)
    → db.folders ≡ w.db.folders
    → Smaller universe snapshot_id 1 v w (worsen auth v) (record w {
      db = note_failure snapshot_id flight.folder.uid category db;
      queues = return_to flight.worker flight.folder.uid w.queues;
    })
unfolding note_failure
requeue-Smaller universe snapshot_id flight auth v w db category same =
    let bad = worsen_not_well auth v in
    record {
      at_most = omega (
        arith,
        unlisted-map universe snapshot_id (note_row snapshot_id flight.folder.uid category)
            db.folders (λ u g. note_row-uid snapshot_id flight.folder.uid category u g),
        ap (unlisted universe snapshot_id) same,
        concat-return_to flight.worker flight.folder.uid w.queues,
      );
      well = λ h. cc (h, bad);
      well_before = λ h. cc (h, bad);
      same_rescues = refl;
    }

pub commit-Smaller :
    (universe : List Text) (snapshot_id : ℕ) (flight : Flight) (v : Verdict) (w : Walk) (db : Db)
    (d : Committed)
    → room universe snapshot_id d ≤ unlisted universe snapshot_id w.db.folders
    → Smaller universe snapshot_id 1 v w v (record w {
      db = (commit snapshot_id flight.folder db d).1;
      queues = extend_at flight.worker d.queued w.queues;
    })
commit-Smaller universe snapshot_id flight v w db d fits =
    let less : left_over universe snapshot_id (record w {
      db = (commit snapshot_id flight.folder db d).1;
      queues = extend_at flight.worker d.queued w.queues;
    })
        ≤ left_over universe snapshot_id w =
      omega (
        arith,
        fits,
        unlisted-map universe snapshot_id (finish_row snapshot_id flight.folder.uid) d.folders
            (λ u g. finish_row-uid snapshot_id flight.folder.uid u g),
        concat-extend_at flight.worker d.queued w.queues,
      ) in
    record {
      at_most = omega (arith, less);
      well = λ h. less;
      well_before = λ h. h;
      same_rescues = refl;
    }
