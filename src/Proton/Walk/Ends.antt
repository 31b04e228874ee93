-- ===== src/Proton/Walk/Ends.antt =====
-- The walk of src/migrator/providers/proton_cli.py over a drive of finitely many folders: its loop
-- ends.
use dropbox_mirror.Base.{
  length-keep-le, ◌%◌, ℕ, zero, suc, ◌+◌, ◌-◌, ◌≤◌, ◌<◌, Bool, true, ◌&&◌, not, Option, some, List,
  [], ◌∷◌, length, keep, concat, Text, nat_eq, text_eq, option_eq, ltb, ok, err, ◌≡◌, refl, ap, inl,
  inr, arith, Bool-cases,
}
use dropbox_mirror.Base.Sort.{length-sort_by}
use dropbox_mirror.Proton.Landing.{
  went, raised, and_then, collect, Step, Walk, Verdict, Flight, World, gave_up, session_died,
  went_well,
}
use dropbox_mirror.Proton.Snapshots.Counted.{is_unlisted, unlisted}
use dropbox_mirror.Proton.Walk.{
  sort_by, is_pending, top_of, worker_count, pending_rows, ProtonFolder, run, load_pending, spread,
  empty_queues, go_on, turn, turn_dispatched, again, loop, dispatch, turn_flying, listings, drain,
  ended, turn_of, late, Turn, extend_at, Db, Outcome, first_trouble, is_well,
}
use dropbox_mirror.Proton.Walk.Collected.{and_then-Smaller, collect-Smaller}
use dropbox_mirror.Proton.Walk.Dispatched.{load, dispatch_from-Dispatched}
use dropbox_mirror.Proton.Walk.Rounds.{IsOrder}
use dropbox_mirror.Proton.Walk.Smaller.{concat-extend_at, left_over, StepSmaller, Lists}

-- `wait` returns when one of the futures is done.
abbrev pub IsWait : World → Type 0
IsWait world =
    (round : ℕ) (flights : List Flight)
    → 0 < length flights
    → 0 < length (keep (world.is_ready round) flights)

length-keep_split :
    (p : Flight → Bool) (flights : List Flight)
    → length (keep p flights) + length (keep (λ fl. not (p fl)) flights) ≡ length flights
unfolding keep
length-keep_split p [] = omega arith
length-keep_split p (fl ∷ flights) = ground (arith, length-keep_split p flights)

well_first : (v drained : Verdict) → is_well (first_trouble v drained) ≡ true → is_well v ≡ true
well_first went_well drained h = refl
well_first session_died drained h = h
well_first gave_up drained h = h

well_second :
    (v drained : Verdict) → is_well (first_trouble v drained) ≡ true → is_well drained ≡ true
well_second went_well drained h = h
well_second session_died drained h = cc
well_second gave_up drained h = cc

module _ (universe : List Text) (world : World) (snapshot_id : ℕ) where
  -- A round: nothing grows, and all going well some listing is done.
  abbrev Round : Walk → Verdict → Walk → Type 0
  Round w v x =
      (left_over universe snapshot_id x ≤ left_over universe snapshot_id w)
      × (is_well v ≡ true → left_over universe snapshot_id x < left_over universe snapshot_id w)
      × (x.rescues ≡ w.rescues)

  abbrev StepRound : Walk → Step → Type 0
  StepRound w (raised e db) = Unit
  StepRound w (went v x) = Round w v x

  -- What bounds the further turns of the loop.
  abbrev measure : Walk → ℕ
  measure w = left_over universe snapshot_id w + (3 - w.rescues)

  abbrev TurnSmaller : Walk → Turn → Type 0
  TurnSmaller w (ended result db) = Unit
  TurnSmaller w (again x) = measure x < measure w

  late-Smaller :
      (round : ℕ) (w x : Walk) → measure x < measure w → TurnSmaller w (late world round x)
  late-Smaller round w x h = elim (Bool-cases (world.past_last round)) [
    | inl t ↦ rw t tt
    | inr f ↦ rw f h
  ]

  turn_of-Smaller :
      (round : ℕ) (w : Walk) (s : Step) → StepRound w s → TurnSmaller w (turn_of world round s)
  turn_of-Smaller round w (raised e db) c = tt
  turn_of-Smaller round w (went gave_up x) c = tt
  turn_of-Smaller round w (went went_well x) (most, well, same) =
      late-Smaller round w x (omega (arith, well refl, same))
  turn_of-Smaller round w (went session_died x) (most, well, same) =
      elim (Bool-cases (ltb 3 (x.rescues + 1))) [
        | inl t ↦ rw t tt
        | inr f ↦ rw f (
            late-Smaller round w (record x { rescues = x.rescues + 1 })
              (ground (arith, most, same, f)))
      ]

  module _ (lists : Lists universe world) where
    module _ (o : IsOrder world.order) (waits : IsWait world) where
      drain-Smaller :
          (round : ℕ) (v : Verdict) (w : Walk)
          → StepSmaller universe snapshot_id 0 v w (drain world snapshot_id round v w)
      unfolding drain
      drain-Smaller round v w = elim (Bool-cases (is_well v && not (world.past_first round))) [
        | inl t ↦ rw t (record {
          at_most = omega arith;
          well = λ h. omega arith;
          well_before = λ h. h;
          same_rescues = refl;
        })
        | inr f ↦ rw f (
            drained
              (collect world snapshot_id round (world.order round w.in_flight) went_well
                (record w { in_flight = [] }))
              (collect-Smaller universe world snapshot_id lists round
                (world.order round w.in_flight) went_well (record w { in_flight = [] })))
      ]
        where
          drained :
              (s : Step)
              → StepSmaller universe snapshot_id
                  (length (world.order round w.in_flight))
                  went_well
                  (record w { in_flight = [] })
                  s
              → StepSmaller universe snapshot_id 0 v w
                  (and_then s (λ d x. went (first_trouble v d) x))
          drained (raised e db) c = tt
          drained (went d x) c = record {
            at_most = omega (arith, c.at_most, o.size round w.in_flight);
            well = λ h. omega (arith, c.well (well_second v d h));
            well_before = λ h. well_first v d h;
            same_rescues = c.same_rescues;
          }

      listings-Round :
          (round : ℕ) (w : Walk)
          → 0 < length w.in_flight
          → StepRound w (listings world snapshot_id round w)
      unfolding listings
      listings-Round round w busy =
          let ready = keep (world.is_ready round) w.in_flight in
          let under_way = keep (λ (fl : Flight). not (world.is_ready round fl)) w.in_flight in
          let start = record w { in_flight = under_way } in
          counted
            (and_then (collect world snapshot_id round (world.order round ready) went_well start)
              (λ v x. drain world snapshot_id round v x))
            (and_then-Smaller universe world snapshot_id (length (world.order round ready)) 0
              went_well start
              (collect world snapshot_id round (world.order round ready) went_well start)
              (λ v x. drain world snapshot_id round v x)
              (collect-Smaller universe world snapshot_id lists round (world.order round ready)
                went_well start)
              (λ v x. drain-Smaller round v x))
        where
          counted :
              (s : Step)
              → StepSmaller universe snapshot_id
                  (length (world.order round (keep (world.is_ready round) w.in_flight)) + 0)
                  went_well
                  (record w {
                    in_flight = keep (λ (fl : Flight). not (world.is_ready round fl)) w.in_flight;
                  })
                  s
              → StepRound w s
          counted (raised e db) c = tt
          counted (went v x) c = (
            omega (
              arith,
              c.at_most,
              o.size round (keep (world.is_ready round) w.in_flight),
              length-keep_split (world.is_ready round) w.in_flight,
            ),
            λ h. omega (
              arith,
              c.well h,
              waits round w.in_flight busy,
              length-keep_split (world.is_ready round) w.in_flight,
            ),
            c.same_rescues,
          )

      turn_flying-Smaller :
          (round : ℕ) (w x : Walk) (flights : List Flight)
          → measure x ≡ measure w
          → x.in_flight ≡ flights
          → TurnSmaller w (turn_flying world snapshot_id round x flights)
      turn_flying-Smaller round w x [] same e = tt
      turn_flying-Smaller round w x (flight ∷ flights) same e =
          moved (turn_of world round (listings world snapshot_id round x)) (
            turn_of-Smaller round x (listings world snapshot_id round x)
              (listings-Round round x (omega (arith, ap (λ (l : List Flight). length l) e))))
        where
          moved : (t : Turn) → TurnSmaller x t → TurnSmaller w t
          moved (ended result db) h = tt
          moved (again y) h = omega (arith, h, same)

      turn_dispatched-Smaller :
          (workers round : ℕ) (w : Walk) (d : Outcome Walk)
          → dispatch snapshot_id workers w ≡ d
          → TurnSmaller w (turn_dispatched world snapshot_id round w d)
      unfolding dispatch
      turn_dispatched-Smaller workers round w (err e) h = tt
      turn_dispatched-Smaller workers round w (ok x) h =
          let d = dispatch_from-Dispatched snapshot_id w.in_flight workers 0 w x h in
          turn_flying-Smaller round w x x.in_flight
            (omega (
              arith,
              d.same_load,
              d.same_rescues,
              ap (λ (db : Db). unlisted universe snapshot_id db.folders) d.same_db,
            ))
            refl

      go_on_ends :
          (w : Walk) (t : Turn) (rest : Walk → Option (Outcome Bool × Db))
          → TurnSmaller w t
          → ((x : Walk)
              → measure x < measure w
              → (result : Outcome Bool × Db) × (rest x ≡ some result))
          → (result : Outcome Bool × Db) × (go_on t rest ≡ some result)
      go_on_ends w (ended result db) rest c h = ((result, db), refl)
      go_on_ends w (again x) rest c h = h x c

      loop_ends :
          (workers fuel round : ℕ) (w : Walk)
          → measure w < fuel
          → (result : Outcome Bool × Db) × (loop world snapshot_id workers fuel round w
              ≡ some result)
      unfolding loop turn
      loop_ends workers zero round w h = absurd (omega (arith, h))
      loop_ends workers (suc fuel) round w h =
          go_on_ends w (turn_dispatched world snapshot_id round w (dispatch snapshot_id workers w))
            (λ x. loop world snapshot_id workers fuel (round + 1) x)
            (turn_dispatched-Smaller workers round w (dispatch snapshot_id workers w) refl)
            (λ x c. loop_ends workers fuel (round + 1) x (omega (arith, c, h)))

concat-empty_queues : (n : ℕ) → concat (empty_queues n) ≡ []
concat-empty_queues zero = refl
concat-empty_queues (suc n) = concat-empty_queues n

concat-spread :
    (world : World) (workers : ℕ) (rows : List ProtonFolder) (queues : List (List Text))
    → length (concat (spread world workers rows queues)) ≤ length (concat queues) + length rows
unfolding spread
concat-spread world workers [] queues = omega arith
concat-spread world workers (f ∷ rows) queues =
    let place = world.crc32 (top_of f.visible_segments) % workers in
    omega (
      arith,
      concat-extend_at place (f.uid ∷ []) queues,
      concat-spread world workers rows (extend_at place (f.uid ∷ []) queues),
    )

load_pending-load :
    (world : World) (snapshot_id workers : ℕ) (db : Db)
    → load (load_pending world snapshot_id workers db) ≤ length db.folders
unfolding load_pending pending_rows
load_pending-load world snapshot_id workers db =
    let pending = keep (is_pending snapshot_id) db.folders in
    let by_uid = sort_by (λ (f : ProtonFolder). f.uid) pending in
    let rows = sort_by (λ (f : ProtonFolder). world.segments_key f.visible_segments) by_uid in
    omega (
      arith,
      concat-spread world workers rows (empty_queues workers),
      ap (λ (l : List Text). length l) (concat-empty_queues workers),
      length-sort_by (λ (f : ProtonFolder). world.segments_key f.visible_segments) by_uid,
      length-sort_by (λ (f : ProtonFolder). f.uid) pending,
      length-keep-le (is_pending snapshot_id) db.folders,
    )

-- The walk ends, with a result or an error: if all UIDs that any listing shows are among finitely
-- many, and a wait returns when a listing is done, then the loop takes at most as many turns as
-- there are such UIDs and folder rows, three more for the rescues of the session, and one more.
pub run_ends :
    (universe : List Text) (world : World) (snapshot_id walk_workers fuel : ℕ) (db : Db)
    → Lists universe world
    → IsOrder world.order
    → IsWait world
    → length universe + length db.folders + 3 < fuel
    → (result : Outcome Bool × Db) × (run world snapshot_id walk_workers fuel db ≡ some result)
unfolding run load_pending
run_ends universe world snapshot_id walk_workers fuel db lists o waits enough =
    let workers = worker_count walk_workers in
    loop_ends universe world snapshot_id lists o waits workers fuel 0
      (load_pending world snapshot_id workers db)
      (omega (
        arith,
        enough,
        load_pending-load world snapshot_id workers db,
        length-keep-le (is_unlisted snapshot_id db.folders) universe,
      ))
