-- ===== src/State/Runs/Laws.antt =====
-- src/migrator/state.py: the runs in progress around `start_run` and `finish_run`.
use dropbox_mirror.Base.{
  ℕ, Bool, false, some, List, [], ◌∷◌, ◌++◌, map, keep, Text, nat_eq, nat_beq_iff, ok, err, ◌≡◌,
  refl, arith, keep-append, In, inl, inr, Bool-cases,
}
use dropbox_mirror.Base.Rows.{next_id, latest}
use dropbox_mirror.Failure.{no_run_in_progress}
use dropbox_mirror.State.Runs.{
  update_run, is_running, RunStart, interrupt, new_run, start_run, current_run, Assign, status,
  assign_at, finish_run,
}
use dropbox_mirror.State.Tables.{Db, Run, RunStatus}

abbrev pub in_progress : Run → Bool
in_progress r = is_running r.status

keep-interrupt : (now : Text) (runs : List Run) → keep in_progress (map (interrupt now) runs) ≡ []
unfolding keep
keep-interrupt now [] = refl
keep-interrupt now (r ∷ runs) = ground (arith, keep-interrupt now runs)

-- After `start_run` the run in progress is the new one, with the id that was returned and the
-- arguments that were given, and no other run is in progress.
pub current_run-start_run :
    (now : Text) (s : RunStart) (db : Db)
    → let (id, after) = start_run now s db in
      (current_run after ≡ ok (new_run now id s))
      × (keep in_progress after.runs ≡ new_run now id s ∷ [])
unfolding start_run current_run
current_run-start_run now s db =
    let runs = db.runs in
    let only : keep in_progress
          (map (interrupt now) runs ++ (new_run now (next_id (λ (r : Run). r.id) runs) s ∷ []))
        ≡ new_run now (next_id (λ (r : Run). r.id) runs) s ∷ [] =
      rw (keep-append, keep-interrupt) (unfold keep in refl) in
    (rw only (unfold latest in refl), only)

ends-running :
    (final : RunStatus) (now : Text) (id : ℕ) (runs : List Run)
    → is_running final ≡ false
    → ((r : Run) → In r (keep in_progress runs) → r.id ≡ id)
    → keep in_progress
        (map (assign_at id (status final ∷ Assign.completed_at (some now) ∷ [])) runs)
      ≡ []
unfolding keep
ends-running final now id [] ended only = refl
ends-running final now id (r ∷ runs) ended only = elim (Bool-cases (is_running r.status)) [
  | inl t ↦
      let same : r.id ≡ id = only r (rw t (inl refl)) in
      let rest : keep in_progress
            (map (assign_at id (status final ∷ Assign.completed_at (some now) ∷ [])) runs)
          ≡ [] =
        ends-running final now id runs ended (λ q m. only q (rw t (inr m))) in
      ground (arith, nat_beq_iff r.id id)
  | inr f ↦
      let rest : keep in_progress
            (map (assign_at id (status final ∷ Assign.completed_at (some now) ∷ [])) runs)
          ≡ [] =
        ends-running final now id runs ended (λ q m. only q (rw f m)) in
      ground (arith, nat_beq_iff r.id id)
]

-- Finishing the only run in progress with a status other than RUNNING succeeds, and leaves none
-- in progress: the next `current_run` is refused.
pub current_run-finish_run :
    (final : RunStatus) (now : Text) (db : Db) (r : Run)
    → is_running final ≡ false
    → keep in_progress db.runs ≡ r ∷ []
    → (after : Db) × (finish_run r.id final now db ≡ ok after)
      × (current_run after ≡ err no_run_in_progress)
unfolding finish_run current_run
current_run-finish_run final now db r ended only =
    let runs = map (assign_at r.id (status final ∷ Assign.completed_at (some now) ∷ [])) db.runs in
    let none_left : keep in_progress runs ≡ [] =
      ends-running final now r.id db.runs ended (λ q m. elim_only q (rw only at m)) in
    (record db { runs = runs }, refl, rw none_left (unfold latest in refl))
  where
    elim_only : (q : Run) → In q (r ∷ []) → q.id ≡ r.id
    elim_only q (inl e) = rw e refl
    elim_only q (inr m) = elim m [ ]

-- `update_run` writes to the table of runs alone.
pub update_run_lem :
    (run_id : ℕ) (columns : List Assign) (db after : Db)
    → update_run run_id columns db ≡ ok after
    → after ≡ record db { runs = map (assign_at run_id columns) db.runs }
unfolding update_run
update_run_lem run_id columns db after h = ground arith
