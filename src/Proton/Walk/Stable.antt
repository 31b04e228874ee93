-- ===== src/Proton/Walk/Stable.antt =====
-- The walk of src/migrator/providers/proton_cli.py: what its three kinds of writes keep, the walk
-- keeps, whatever its end.
use dropbox_mirror.Base.{
  >>=-eq-ok, Option-cases, ◌>>=◌, ℕ, zero, suc, ◌+◌, Bool, ◌&&◌, not, Option, none, some, List, [],
  ◌∷◌, keep, Text, codes, nat_eq, text_eq, option_eq, ltb, ok, err, ◌≡◌, refl, sym, subst, inl, inr,
  Bool-cases,
}
use dropbox_mirror.Base.Json.{Fields}
use dropbox_mirror.Failure.{Outcome}
use dropbox_mirror.Proton.Invoke.{Attempt, Invoked}
use dropbox_mirror.Proton.Landing.{
  entries, last_category, and_then, after_commit, went, commit_output, Verdict, raised, Walk,
  collect, land, Flight, Step, World, gave_up, session_died, went_well,
}
use dropbox_mirror.Proton.Listing.{
  array_of, parse, last_attempt, list_argv, Reader, record_attempts,
}
use dropbox_mirror.Proton.Mutation.{category_text}
use dropbox_mirror.Proton.Snapshots.{commit_listing, list_path, Naming, note_failure}
use dropbox_mirror.Proton.Walk.{
  worker_count, first_trouble, ProtonFolder, load_pending, turn, is_well, again, run, loop, go_on,
  turn_dispatched, turn_flying, turn_of, late, ended, drain, dispatch, Turn, listings,
}
use dropbox_mirror.Proton.Walk.Dispatched.{dispatch_from-Dispatched}
use dropbox_mirror.State.Records.{record_command_end, record_command_start}
use dropbox_mirror.State.Tables.{Command, Db}

-- A property of the database that the writes of the walk keep.
pub record Stable (snapshot_id : ℕ) (P : Db → Type 0) : Type 0 where
  pub commands : (db : Db) (rows : List Command) → P db → P (record db { commands = rows })
  pub note : (uid category : Text) (db : Db) → P db → P (note_failure snapshot_id uid category db)
  pub listing :
      (naming : Naming) (folder : ProtonFolder) (children : List Fields) (db : Db)
      (queued : List Text) (after : Db)
      → commit_listing naming snapshot_id folder children db ≡ ok (queued, after)
      → P db
      → P after

module _ (world : World) (snapshot_id : ℕ) (P : Db → Type 0) (stable : Stable snapshot_id P) where
  abbrev StepHolds : Step → Type 0
  StepHolds (raised e db) = P db
  StepHolds (went v w) = P w.db

  abbrev TurnHolds : Turn → Type 0
  TurnHolds (ended result db) = P db
  TurnHolds (again w) = P w.db

  record_attempts-holds :
      (reader : Reader) (operation : Text) (argv : List Text) (made : List Attempt) (db : Db)
      → P db
      → P (record_attempts reader operation argv made db)
  unfolding record_attempts record_command_start record_command_end
  record_attempts-holds reader operation argv [] db h = h
  record_attempts-holds reader operation argv (a ∷ made) db h =
      let (command_id, started) =
        record_command_start reader.now (codes "proton") operation argv a.attempt db in
      let finished =
        record_command_end reader.now command_id a.returncode
          (category_text reader.digits a.category) started in
      record_attempts-holds reader operation argv made finished
        (stable.commands db finished.commands h)

  after_commit-holds :
      (flight : Flight) (v : Verdict) (w : Walk) (o : Outcome (List Text × Db))
      → P w.db
      → ((queued : List Text) (db : Db) → o ≡ ok (queued, db) → P db)
      → StepHolds (after_commit flight v w o)
  after_commit-holds flight v w (err e) h committed = h
  after_commit-holds flight v w (ok (queued, db)) h committed = committed queued db refl

  land-holds :
      (flight : Flight) (o : Outcome Invoked) (v : Verdict) (w : Walk)
      → P w.db
      → StepHolds (land world snapshot_id flight o v w)
  unfolding land commit_output
  land-holds flight (err e) v w h = stable.note flight.folder.uid (world.name_of_failure e) w.db h
  land-holds flight (ok i) v w h =
      let argv = list_argv world.reader (list_path world.naming flight.folder) in
      let recorded = record_attempts world.reader (codes "filesystem_list") argv i.made w.db in
      let kept : P recorded =
        record_attempts-holds world.reader (codes "filesystem_list") argv i.made w.db h in
      elim (Option-cases i.stdout) [
        | inl e ↦ rw e (
            stable.note flight.folder.uid (last_category world.reader (last_attempt i.made))
              recorded kept)
        | inr (stdout, e) ↦ rw e (
            let j : Invoked = record i { stdout = some stdout } in
            after_commit-holds flight v (record w { db = recorded })
              (parse world.reader j >>= array_of >>= entries >>= λ children.
                commit_listing world.naming snapshot_id flight.folder children recorded)
              kept
              (λ queued db c.
                let (children, _, committed) =
                  >>=-eq-ok (parse world.reader j >>= array_of >>= entries)
                    (λ children.
                      commit_listing world.naming snapshot_id flight.folder children recorded)
                    c in
                stable.listing world.naming flight.folder children recorded queued db committed
                  kept))
      ]

  and_then-holds :
      (s : Step) (next : Verdict → Walk → Step)
      → StepHolds s
      → ((v : Verdict) (w : Walk) → P w.db → StepHolds (next v w))
      → StepHolds (and_then s next)
  and_then-holds (raised e db) next h step = h
  and_then-holds (went v w) next h step = step v w h

  collect-holds :
      (round : ℕ) (done : List Flight) (v : Verdict) (w : Walk)
      → P w.db
      → StepHolds (collect world snapshot_id round done v w)
  unfolding collect
  collect-holds round [] v w h = h
  collect-holds round (flight ∷ done) v w h =
      and_then-holds (land world snapshot_id flight (world.answer round flight) v w)
        (λ v' x. collect world snapshot_id round done v' x)
        (land-holds flight (world.answer round flight) v w h)
        (λ v' x hx. collect-holds round done v' x hx)

  drain-holds :
      (round : ℕ) (v : Verdict) (w : Walk) → P w.db → StepHolds (drain world snapshot_id round v w)
  unfolding drain
  drain-holds round v w h = elim (Bool-cases (is_well v && not (world.past_first round))) [
    | inl t ↦ rw t h
    | inr f ↦ rw f (
        and_then-holds
          (collect world snapshot_id round (world.order round w.in_flight) went_well
            (record w { in_flight = [] }))
          (λ d x. went (first_trouble v d) x)
          (collect-holds round (world.order round w.in_flight) went_well
            (record w { in_flight = [] }) h)
          (λ d x hx. hx))
  ]

  listings-holds : (round : ℕ) (w : Walk) → P w.db → StepHolds (listings world snapshot_id round w)
  unfolding listings
  listings-holds round w h =
      let ready = keep (world.is_ready round) w.in_flight in
      let start : Walk = record w {
        in_flight = keep (λ (fl : Flight). not (world.is_ready round fl)) w.in_flight;
      } in
      and_then-holds (collect world snapshot_id round (world.order round ready) went_well start)
        (λ v x. drain world snapshot_id round v x)
        (collect-holds round (world.order round ready) went_well start h)
        (λ v x hx. drain-holds round v x hx)

  late-holds : (round : ℕ) (w : Walk) → P w.db → TurnHolds (late world round w)
  late-holds round w h = elim (Bool-cases (world.past_last round)) [
    | inl t ↦ rw t h
    | inr f ↦ rw f h
  ]

  turn_of-holds : (round : ℕ) (s : Step) → StepHolds s → TurnHolds (turn_of world round s)
  turn_of-holds round (raised e db) h = h
  turn_of-holds round (went gave_up w) h = h
  turn_of-holds round (went went_well w) h = late-holds round w h
  turn_of-holds round (went session_died w) h = elim (Bool-cases (ltb 3 (w.rescues + 1))) [
    | inl t ↦ rw t h
    | inr f ↦ rw f (late-holds round (record w { rescues = w.rescues + 1 }) h)
  ]

  turn_flying-holds :
      (round : ℕ) (w : Walk) (flights : List Flight)
      → P w.db
      → TurnHolds (turn_flying world snapshot_id round w flights)
  turn_flying-holds round w [] h = h
  turn_flying-holds round w (flight ∷ flights) h =
      turn_of-holds round (listings world snapshot_id round w) (listings-holds round w h)

  turn_dispatched-holds :
      (workers round : ℕ) (w : Walk) (d : Outcome Walk)
      → dispatch snapshot_id workers w ≡ d
      → P w.db
      → TurnHolds (turn_dispatched world snapshot_id round w d)
  unfolding dispatch
  turn_dispatched-holds workers round w (err e) c h = h
  turn_dispatched-holds workers round w (ok x) c h =
      let d = dispatch_from-Dispatched snapshot_id w.in_flight workers 0 w x c in
      turn_flying-holds round x x.in_flight (subst P (sym d.same_db) h)

  abbrev EndHolds : Option (Outcome Bool × Db) → Type 0
  EndHolds none = Unit
  EndHolds (some (result, db)) = P db

  go_on-holds :
      (t : Turn) (rest : Walk → Option (Outcome Bool × Db))
      → TurnHolds t
      → ((w : Walk) → P w.db → EndHolds (rest w))
      → EndHolds (go_on t rest)
  go_on-holds (ended result db) rest h step = h
  go_on-holds (again w) rest h step = step w h

  loop-holds :
      (workers fuel round : ℕ) (w : Walk)
      → P w.db
      → EndHolds (loop world snapshot_id workers fuel round w)
  unfolding loop turn
  loop-holds workers zero round w h = tt
  loop-holds workers (suc fuel) round w h =
      go_on-holds (turn_dispatched world snapshot_id round w (dispatch snapshot_id workers w))
        (λ x. loop world snapshot_id workers fuel (round + 1) x)
        (turn_dispatched-holds workers round w (dispatch snapshot_id workers w) refl h)
        (λ x hx. loop-holds workers fuel (round + 1) x hx)

  pub run-holds :
      (walk_workers fuel : ℕ) (db after : Db) (result : Outcome Bool)
      → P db
      → run world snapshot_id walk_workers fuel db ≡ some (result, after)
      → P after
  unfolding run load_pending
  run-holds walk_workers fuel db after result h e = subst EndHolds e (
      loop-holds (worker_count walk_workers) fuel 0
        (load_pending world snapshot_id (worker_count walk_workers) db) h)
