-- ===== src/Proton/Walk.antt =====
-- src/migrator/providers/proton_cli.py, `_Walk`: the walk over the folders of a snapshot, with a queue
-- for each worker and at most one listing under way for each. The copies of the session and the
-- log are left out.
pub mod Covered
pub mod Landed
pub mod Rounds
pub mod Started
pub mod Dispatched
pub mod Finished
pub mod Smaller
pub mod Collected
pub mod Ends
pub mod Stable
use dropbox_mirror.Base.{
  ◌%◌, ℕ, zero, suc, ◌+◌, max, Bool, true, false, ◌&&◌, not, Option, none, some, List, [], ◌∷◌,
  ◌++◌, keep, any, find, Text, ◌==◌, nat_eq, text_eq, option_eq, if◌then◌else◌, ltb, ok, err, ◌>>=◌,
}
use dropbox_mirror.Base.Sort.{sort_by}
use dropbox_mirror.Failure.{proton_retries, proton_session, other, Outcome}
use dropbox_mirror.Proton.Landing.{
  gave_up, session_died, went_well, and_then, went, raised, Step, World, Verdict, Flight, collect,
  Walk,
}
use dropbox_mirror.Proton.Queues.{empty_queues, extend_at, next_uid}
use dropbox_mirror.Proton.Snapshots.{is_folder_row, is_done}
use dropbox_mirror.State.Tables.{ProtonFolder, Db}

-- `_load_pending`: the rows by their segments and their UID, spread by the top-level folder.
abbrev pub is_pending : ℕ → ProtonFolder → Bool
is_pending snapshot_id f = (f.snapshot_id == snapshot_id) && not (is_done f.status)

abbrev pub top_of : List Text → Text
top_of [] = []
top_of (segment ∷ segments) = segment

unfoldable pub pending_rows : World → ℕ → Db → List ProtonFolder
unfolding sort_by keep
pending_rows world snapshot_id db =
    sort_by (λ (f : ProtonFolder). world.segments_key f.visible_segments)
      (sort_by (λ (f : ProtonFolder). f.uid) (keep (is_pending snapshot_id) db.folders))

unfoldable pub spread : World → ℕ → List ProtonFolder → List (List Text) → List (List Text)
unfolding extend_at
spread world workers [] queues = queues
spread world workers (f ∷ rows) queues =
    spread world workers rows
      (extend_at (world.crc32 (top_of f.visible_segments) % workers) (f.uid ∷ []) queues)

-- `max(1, int(walk_workers))`
abbrev pub worker_count : ℕ → ℕ
worker_count walk_workers = max 1 walk_workers

unfoldable pub load_pending : World → ℕ → ℕ → Db → Walk
unfolding pending_rows spread
load_pending world snapshot_id workers db = record {
  db = db;
  queues = spread world workers (pending_rows world snapshot_id db) (empty_queues workers);
  in_flight = [];
  rescues = 0;
}

abbrev pub fly : ℕ → List (List Text) → Walk → Option ProtonFolder → Outcome Walk
fly worker queues walk none = err other
fly worker queues walk (some folder) =
    let flight : Flight = record { worker = worker; folder = folder } in
    ok (record walk { queues = queues; in_flight = walk.in_flight ++ (flight ∷ []) })

-- A free worker takes a folder, if there is one. A UID without a row is an error of the code.
unfoldable pub start_next : ℕ → ℕ → Walk → Option (Text × List (List Text)) → Outcome Walk
unfolding find
start_next snapshot_id worker walk none = ok walk
start_next snapshot_id worker walk (some (uid, queues)) =
    fly worker queues walk (find (is_folder_row snapshot_id uid) walk.db.folders)

abbrev pub is_busy : ℕ → List Flight → Bool
is_busy worker flights = any (λ (fl : Flight). fl.worker == worker) flights

-- `for worker in range(worker, worker + left)`, with the workers that were busy before.
unfoldable pub dispatch_from : ℕ → List Flight → ℕ → ℕ → Walk → Outcome Walk
unfolding start_next next_uid any
dispatch_from snapshot_id busy zero worker walk = ok walk
dispatch_from snapshot_id busy (suc left) worker walk =
    let next =
      if is_busy worker busy
      then ok walk
      else start_next snapshot_id worker walk (next_uid worker walk.queues) in
    next >>= dispatch_from snapshot_id busy left (worker + 1)

unfoldable pub dispatch : ℕ → ℕ → Walk → Outcome Walk
unfolding dispatch_from
dispatch snapshot_id workers walk = dispatch_from snapshot_id walk.in_flight workers 0 walk

-- What a turn of the loop leaves: the result of `run` and the database, or the walk to go on with.
pub data Turn : Type 0 where
  ended : Outcome Bool → Db → Turn
  again : Walk → Turn

abbrev pub late : World → ℕ → Walk → Turn
late world round walk = if world.past_last round then ended (ok false) walk.db else again walk

-- `_rescue`, with RESCUES = 3.
abbrev pub rescue : World → ℕ → Walk → Turn
rescue world round walk =
    if ltb 3 (walk.rescues + 1)
    then ended (err proton_session) walk.db
    else late world round (record walk { rescues = walk.rescues + 1 })

abbrev pub settle : World → ℕ → Verdict → Walk → Turn
settle world round gave_up walk = ended (err proton_retries) walk.db
settle world round session_died walk = rescue world round walk
settle world round went_well walk = late world round walk

abbrev pub turn_of : World → ℕ → Step → Turn
turn_of world round (raised e db) = ended (err e) db
turn_of world round (went verdict walk) = settle world round verdict walk

abbrev pub is_well : Verdict → Bool
is_well went_well = true
is_well _ = false

-- `outcome if outcome != "ok" else drained`
abbrev pub first_trouble : Verdict → Verdict → Verdict
first_trouble went_well drained = drained
first_trouble verdict drained = verdict

-- The listings under way, after trouble or past the deadline.
unfoldable pub drain : World → ℕ → ℕ → Verdict → Walk → Step
unfolding collect
drain world snapshot_id round verdict walk =
    if is_well verdict && not (world.past_first round)
    then went verdict walk
    else and_then
        (collect world snapshot_id round (world.order round walk.in_flight) went_well
          (record walk { in_flight = [] }))
        (λ drained w. went (first_trouble verdict drained) w)

-- `wait(..., return_when=FIRST_COMPLETED)` and what follows.
unfoldable pub listings : World → ℕ → ℕ → Walk → Step
unfolding collect drain keep
listings world snapshot_id round walk =
    let done = world.order round (keep (world.is_ready round) walk.in_flight) in
    let under_way = keep (λ (fl : Flight). not (world.is_ready round fl)) walk.in_flight in
    and_then
      (collect world snapshot_id round done went_well (record walk { in_flight = under_way }))
      (λ v w. drain world snapshot_id round v w)

-- The end where nothing is under way, or a round of listings.
abbrev pub turn_flying : World → ℕ → ℕ → Walk → List Flight → Turn
turn_flying world snapshot_id round walk [] = ended (ok true) walk.db
turn_flying world snapshot_id round walk (flight ∷ flights) =
    turn_of world round (listings world snapshot_id round walk)

abbrev pub turn_dispatched : World → ℕ → ℕ → Walk → Outcome Walk → Turn
turn_dispatched world snapshot_id round walk (err e) = ended (err e) walk.db
turn_dispatched world snapshot_id round walk (ok w) =
    turn_flying world snapshot_id round w w.in_flight

-- `while True`, one turn.
unfoldable pub turn : World → ℕ → ℕ → ℕ → Walk → Turn
unfolding dispatch listings
turn world snapshot_id workers round walk =
    turn_dispatched world snapshot_id round walk (dispatch snapshot_id workers walk)

abbrev pub go_on : Turn → (Walk → Option (Outcome Bool × Db)) → Option (Outcome Bool × Db)
go_on (ended result db) rest = some (result, db)
go_on (again w) rest = rest w

-- The loop on fuel: the result and the database.
unfoldable pub loop : World → ℕ → ℕ → ℕ → ℕ → Walk → Option (Outcome Bool × Db)
unfolding turn
loop world snapshot_id workers zero round walk = none
loop world snapshot_id workers (suc fuel) round walk =
    go_on (turn world snapshot_id workers round walk)
      (λ w. loop world snapshot_id workers fuel (round + 1) w)

-- `run`
unfoldable pub run : World → ℕ → ℕ → ℕ → Db → Option (Outcome Bool × Db)
unfolding load_pending loop
run world snapshot_id walk_workers fuel db =
    let workers = worker_count walk_workers in
    loop world snapshot_id workers fuel 0 (load_pending world snapshot_id workers db)
