-- ===== src/Proton/Walk/Finished.antt =====
-- The walk of src/migrator/providers/proton_cli.py, its end.
use dropbox_mirror.Base.{
  ℕ, zero, suc, ◌+◌, ◌<◌, Bool, true, false, Option, some, List, [], ◌∷◌, map, In, nat_eq, text_eq,
  option_eq, nat_beq_iff, ltb, ok, err, ◌≡◌, refl, subst, inl, inr, arith, Bool-cases,
}
use dropbox_mirror.Proton.Landing.{
  gave_up, session_died, went_well, went, raised, Step, Verdict, Walk, World, Flight,
}
use dropbox_mirror.Proton.Walk.{
  worker_count, load_pending, go_on, turn_dispatched, run, loop, Outcome, dispatch, turn_flying,
  is_done, again, is_pending, turn_of, settle, ended, turn, ProtonFolder, late, Turn, Db, listings,
}
use dropbox_mirror.Proton.Walk.Covered.{uid_of, Covered}
use dropbox_mirror.Proton.Walk.Dispatched.{dispatch_from-Dispatched, dispatch-idle}
use dropbox_mirror.Proton.Walk.Landed.{StepCovered}
use dropbox_mirror.Proton.Walk.Rounds.{listings-Covered, IsOrder}
use dropbox_mirror.Proton.Walk.Started.{dispatch_from-Covered, load_pending-Covered}
use dropbox_mirror.State.Tables.{FolderStatus}

-- Every folder of the snapshot is listed.
abbrev pub AllListed : ℕ → Db → Type 0
AllListed snapshot_id db =
    (f : ProtonFolder)
    → In f db.folders
    → f.snapshot_id ≡ snapshot_id
    → f.status ≡ FolderStatus.complete

abbrev TurnCovered : ℕ → ℕ → Turn → Type 0
TurnCovered snapshot_id workers (ended (ok true) db) = AllListed snapshot_id db
TurnCovered snapshot_id workers (ended _ db) = Unit
TurnCovered snapshot_id workers (again w) = Covered snapshot_id workers [] w

late-Covered :
    (world : World) (snapshot_id workers round : ℕ) (w : Walk)
    → Covered snapshot_id workers [] w
    → TurnCovered snapshot_id workers (late world round w)
late-Covered world snapshot_id workers round w c = elim (Bool-cases (world.past_last round)) [
  | inl t ↦ rw t tt
  | inr f ↦ rw f c
]

settle-Covered :
    (world : World) (snapshot_id workers round : ℕ) (v : Verdict) (w : Walk)
    → Covered snapshot_id workers [] w
    → TurnCovered snapshot_id workers (settle world round v w)
settle-Covered world snapshot_id workers round gave_up w c = tt
settle-Covered world snapshot_id workers round went_well w c =
    late-Covered world snapshot_id workers round w c
settle-Covered world snapshot_id workers round session_died w c =
    elim (Bool-cases (ltb 3 (w.rescues + 1))) [
      | inl t ↦ rw t tt
      | inr f ↦ rw f (
          late-Covered world snapshot_id workers round (record w { rescues = w.rescues + 1 })
            (record {
              found = c.found;
              width = c.width;
              extra_range = c.extra_range;
              range = c.range;
            }))
    ]

turn_of-Covered :
    (world : World) (snapshot_id workers round : ℕ) (s : Step)
    → StepCovered snapshot_id workers [] s
    → TurnCovered snapshot_id workers (turn_of world round s)
turn_of-Covered world snapshot_id workers round (raised e db) c = tt
turn_of-Covered world snapshot_id workers round (went v w) c =
    settle-Covered world snapshot_id workers round v w c

done_status : (status : FolderStatus) → is_done status ≡ true → status ≡ FolderStatus.complete
done_status FolderStatus.complete h = refl
done_status FolderStatus.pending h = cc

pub status_of_not_pending :
    (snapshot_id : ℕ) (f : ProtonFolder)
    → ¬ (is_pending snapshot_id f ≡ true)
    → f.snapshot_id ≡ snapshot_id
    → f.status ≡ FolderStatus.complete
status_of_not_pending snapshot_id f h e =
    let ours = (nat_beq_iff f.snapshot_id snapshot_id).1 e in
    elim (Bool-cases (is_done f.status)) [
      | inl t ↦ done_status f.status t
      | inr n ↦ absurd (h (rw (ours, n) refl))
    ]

turn_flying-Covered :
    (world : World) (snapshot_id workers round : ℕ) (w : Walk) (flights : List Flight)
    → IsOrder world.order
    → Covered snapshot_id workers [] w
    → (flights ≡ [] → AllListed snapshot_id w.db)
    → TurnCovered snapshot_id workers (turn_flying world snapshot_id round w flights)
turn_flying-Covered world snapshot_id workers round w [] o c idle = idle refl
turn_flying-Covered world snapshot_id workers round w (flight ∷ flights) o c idle =
    turn_of-Covered world snapshot_id workers round (listings world snapshot_id round w)
      (listings-Covered world snapshot_id workers round w o c)

turn_dispatched-Covered :
    (world : World) (snapshot_id workers round : ℕ) (w : Walk) (d : Outcome Walk)
    → IsOrder world.order
    → Covered snapshot_id (suc workers) [] w
    → dispatch snapshot_id (suc workers) w ≡ d
    → TurnCovered snapshot_id (suc workers) (turn_dispatched world snapshot_id round w d)
unfolding dispatch
turn_dispatched-Covered world snapshot_id workers round w (err e) o c h = tt
turn_dispatched-Covered world snapshot_id workers round w (ok x) o c h =
    turn_flying-Covered world snapshot_id (suc workers) round x x.in_flight o
      (dispatch_from-Covered snapshot_id (suc workers) w.in_flight (suc workers) 0 w x (omega arith)
        c h)
      (λ idle f m ours.
        let (not_flying, none_queued) = dispatch-idle snapshot_id workers w x h idle in
        let d = dispatch_from-Dispatched snapshot_id w.in_flight (suc workers) 0 w x h in
        status_of_not_pending snapshot_id f
          (λ p. elim (c.found f (subst (λ (db : Db). In f db.folders) d.same_db m) p) [
            | inl queued ↦ subst (λ l. In f.uid l) none_queued queued
            | inr (inl none_left) ↦ none_left
            | inr (inr flying) ↦ subst (λ l. In f.uid (map uid_of l)) not_flying flying
          ])
          ours)

pub turn-Covered :
    (world : World) (snapshot_id workers round : ℕ) (w : Walk)
    → IsOrder world.order
    → Covered snapshot_id (suc workers) [] w
    → TurnCovered snapshot_id (suc workers) (turn world snapshot_id (suc workers) round w)
unfolding turn
turn-Covered world snapshot_id workers round w o c =
    turn_dispatched-Covered world snapshot_id workers round w (dispatch snapshot_id (suc workers) w)
      o c refl

Finished : ℕ → Option (Outcome Bool × Db) → Type 0
Finished snapshot_id (some (ok true, db)) = AllListed snapshot_id db
Finished snapshot_id _ = Unit

go_on-Finished :
    (snapshot_id workers : ℕ) (t : Turn) (rest : Walk → Option (Outcome Bool × Db))
    → TurnCovered snapshot_id workers t
    → ((w : Walk) → Covered snapshot_id workers [] w → Finished snapshot_id (rest w))
    → Finished snapshot_id (go_on t rest)
unfolding Finished
go_on-Finished snapshot_id workers (ended (ok true) db) rest c h = c
go_on-Finished snapshot_id workers (ended (ok false) db) rest c h = tt
go_on-Finished snapshot_id workers (ended (err e) db) rest c h = tt
go_on-Finished snapshot_id workers (again w) rest c h = h w c

loop-Finished :
    (world : World) (snapshot_id workers fuel round : ℕ) (w : Walk)
    → IsOrder world.order
    → Covered snapshot_id (suc workers) [] w
    → Finished snapshot_id (loop world snapshot_id (suc workers) fuel round w)
unfolding Finished loop
loop-Finished world snapshot_id workers zero round w o c = tt
loop-Finished world snapshot_id workers (suc fuel) round w o c =
    go_on-Finished snapshot_id (suc workers) (turn world snapshot_id (suc workers) round w)
      (λ x. loop world snapshot_id (suc workers) fuel (round + 1) x)
      (turn-Covered world snapshot_id workers round w o c)
      (λ x cx. loop-Finished world snapshot_id workers fuel (round + 1) x o cx)

-- The same for any number of workers that is not zero.
started-Finished :
    (world : World) (snapshot_id workers fuel : ℕ) (db : Db)
    → 0 < workers
    → IsOrder world.order
    → Finished snapshot_id
        (loop world snapshot_id workers fuel 0 (load_pending world snapshot_id workers db))
started-Finished world snapshot_id zero fuel db positive o = absurd (omega (arith, positive))
started-Finished world snapshot_id (suc workers) fuel db positive o =
    loop-Finished world snapshot_id workers fuel 0 (load_pending world snapshot_id (suc workers) db)
      o (load_pending-Covered world snapshot_id workers db)

-- A walk that ends without an error and before its deadline has listed every folder of its
-- snapshot: no row of the folder queue is left pending, whatever the order in which the workers'
-- listings arrive, however often a listing failed and a session was rescued, and also for the
-- folders that were queued on the way.
pub run-AllListed :
    (world : World) (snapshot_id walk_workers fuel : ℕ) (db after : Db)
    → IsOrder world.order
    → run world snapshot_id walk_workers fuel db ≡ some (ok true, after)
    → AllListed snapshot_id after
unfolding run Finished
run-AllListed world snapshot_id walk_workers fuel db after o h =
    subst (Finished snapshot_id) h
      (started-Finished world snapshot_id (worker_count walk_workers) fuel db (omega arith) o)
