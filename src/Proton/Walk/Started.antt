-- ===== src/Proton/Walk/Started.antt =====
-- The walk of src/migrator/providers/proton_cli.py as it starts and as its workers take folders.
use dropbox_mirror.Base.{
  find-true, >>=-eq-ok, In-append_left, In-append_right, ◌%◌, In-map_of, In-map, In-append,
  ok-injective, In-keep_of, ℕ, zero, suc, ◌+◌, ◌≤◌, ◌<◌, Bool, true, false, ◌&&◌, Option, none,
  some, List, [], ◌∷◌, ◌++◌, map, length, keep, find, concat, In, Text, ◌==◌, nat_eq, text_eq,
  option_eq, text_iff, if◌then◌else◌, ok, ◌≡◌, refl, subst, ◌∙◌, ◌⊎◌, inl, inr, arith, Bool-cases,
}
use dropbox_mirror.Base.Sort.{In-sort_by_of}
use dropbox_mirror.Proton.Landing.{World, Walk, Flight}
use dropbox_mirror.Proton.Queues.{next_uid, extend_at, empty_queues}
use dropbox_mirror.Proton.Queues.Laws.{next_uid-Popped, In-extend_at, length-extend_at, Popped}
use dropbox_mirror.Proton.Walk.{
  is_busy, is_folder_row, dispatch_from, start_next, sort_by, is_pending, fly, Db, top_of,
  pending_rows, spread, load_pending,
}
use dropbox_mirror.Proton.Walk.Covered.{uid_of, Covered}
use dropbox_mirror.State.Tables.{ProtonFolder}

spread-length :
    (world : World) (workers : ℕ) (rows : List ProtonFolder) (queues : List (List Text))
    → length (spread world workers rows queues) ≡ length queues
unfolding spread
spread-length world workers [] queues = refl
spread-length world workers (f ∷ rows) queues =
    spread-length world workers rows
      (extend_at (world.crc32 (top_of f.visible_segments) % workers) (f.uid ∷ []) queues)
    ∙ length-extend_at (world.crc32 (top_of f.visible_segments) % workers) (f.uid ∷ []) queues

In-spread :
    (world : World) (workers : ℕ) (u : Text) (rows : List ProtonFolder) (queues : List (List Text))
    → length queues ≡ suc workers
    → In u (concat queues) ⊎ In u (map (λ (f : ProtonFolder). f.uid) rows)
    → In u (concat (spread world (suc workers) rows queues))
unfolding spread
In-spread world workers u [] queues width (inl m) = m
In-spread world workers u [] queues width (inr m) = elim m [ ]
In-spread world workers u (f ∷ rows) queues width m =
    let place = world.crc32 (top_of f.visible_segments) % suc workers in
    let put = In-extend_at place (f.uid ∷ []) u queues (omega (arith, width)) in
    In-spread world workers u rows (extend_at place (f.uid ∷ []) queues)
      (length-extend_at place (f.uid ∷ []) queues ∙ width)
      (elim m [
        | inl queued ↦ inl (put (inl queued))
        | inr (inl here) ↦ inl (put (inr (inl here)))
        | inr (inr later) ↦ inr later
      ])

length-empty_queues : (n : ℕ) → length (empty_queues n) ≡ n
length-empty_queues zero = refl
length-empty_queues (suc n) = omega (arith, length-empty_queues n)

pub load_pending-Covered :
    (world : World) (snapshot_id workers : ℕ) (db : Db)
    → Covered snapshot_id (suc workers) [] (load_pending world snapshot_id (suc workers) db)
unfolding load_pending pending_rows
load_pending-Covered world snapshot_id workers db = record {
  found = λ f m p.
      let kept = In-keep_of (is_pending snapshot_id) f db.folders m p in
      let by_uid = λ (x : ProtonFolder). x.uid in
      let by_segments = λ (x : ProtonFolder). world.segments_key x.visible_segments in
      let rows = sort_by by_segments (sort_by by_uid (keep (is_pending snapshot_id) db.folders)) in
      let sorted =
        In-sort_by_of by_segments f (sort_by by_uid (keep (is_pending snapshot_id) db.folders))
          (In-sort_by_of by_uid f (keep (is_pending snapshot_id) db.folders) kept) in
      inl (
        In-spread world workers f.uid rows (empty_queues (suc workers))
          (length-empty_queues (suc workers)) (inr (In-map_of by_uid f rows sorted)));
  width =
      spread-length world (suc workers) (pending_rows world snapshot_id db)
        (empty_queues (suc workers))
      ∙ length-empty_queues (suc workers);
  extra_range = λ fl m. elim m [ ];
  range = λ fl m. elim m [ ];
}

-- One worker starts a listing.
and_right : (a b : Bool) → (a && b) ≡ true → b ≡ true
and_right true b h = h
and_right false b h = cc

fly-Covered :
    (snapshot_id workers worker : ℕ) (uid : Text) (queues : List (List Text)) (w x : Walk)
    (o : Option ProtonFolder)
    → ((f : ProtonFolder) → o ≡ some f → f.uid ≡ uid)
    → worker < workers
    → Popped uid w.queues queues
    → Covered snapshot_id workers [] w
    → fly worker queues w o ≡ ok x
    → Covered snapshot_id workers [] x
fly-Covered snapshot_id workers worker uid queues w x none named below popped c h = cc
fly-Covered snapshot_id workers worker uid queues w x (some folder) named below popped c h =
    let flight : Flight = record { worker = worker; folder = folder } in
    subst (Covered snapshot_id workers []) (ok-injective h) (record {
      found = λ f m p. elim (c.found f m p) [
        | inl queued ↦ elim (popped.kept f.uid queued) [
          | inl e ↦ inr (
              inr (
                rw (e, ← named folder refl)
                  (In-map_of uid_of flight (w.in_flight ++ (flight ∷ []))
                    (In-append_right flight w.in_flight (flight ∷ []) (inl refl)))))
          | inr rest ↦ inl rest
        ]
        | inr (inl none_left) ↦ elim none_left [ ]
        | inr (inr flying) ↦
            let (fl, mf, e) = In-map uid_of f.uid w.in_flight flying in
            inr (
              inr (
                rw e (
                  In-map_of uid_of fl (w.in_flight ++ (flight ∷ []))
                    (In-append_left fl w.in_flight (flight ∷ []) mf))))
      ];
      width = popped.width ∙ c.width;
      extra_range = λ fl m. elim m [ ];
      range = λ fl m. elim (In-append fl w.in_flight (flight ∷ []) m) [
        | inl old ↦ c.range fl old
        | inr (inl e) ↦ rw e below
        | inr (inr none_left) ↦ elim none_left [ ]
      ];
    })

folder_row-uid :
    (snapshot_id : ℕ) (uid : Text) (f : ProtonFolder)
    → is_folder_row snapshot_id uid f ≡ true
    → f.uid ≡ uid
folder_row-uid snapshot_id uid f h =
    (text_iff f.uid uid).0 (and_right (f.snapshot_id == snapshot_id) (f.uid == uid) h)

start_next-Covered :
    (snapshot_id workers worker : ℕ) (w x : Walk) (o : Option (Text × List (List Text)))
    → worker < workers
    → ((uid : Text) (queues : List (List Text))
        → o ≡ some (uid, queues)
        → Popped uid w.queues queues)
    → Covered snapshot_id workers [] w
    → start_next snapshot_id worker w o ≡ ok x
    → Covered snapshot_id workers [] x
unfolding start_next
start_next-Covered snapshot_id workers worker w x none below popped c h =
    subst (Covered snapshot_id workers []) (ok-injective h) c
start_next-Covered snapshot_id workers worker w x (some (uid, queues)) below popped c h =
    fly-Covered snapshot_id workers worker uid queues w x
      (find (is_folder_row snapshot_id uid) w.db.folders)
      (λ f e.
        folder_row-uid snapshot_id uid f
          (find-true (is_folder_row snapshot_id uid) w.db.folders f e))
      below (popped uid queues refl) c h

pub dispatch_from-Covered :
    (snapshot_id workers : ℕ) (busy : List Flight) (left worker : ℕ) (w x : Walk)
    → worker + left ≤ workers
    → Covered snapshot_id workers [] w
    → dispatch_from snapshot_id busy left worker w ≡ ok x
    → Covered snapshot_id workers [] x
unfolding dispatch_from
dispatch_from-Covered snapshot_id workers busy zero worker w x below c h =
    subst (Covered snapshot_id workers []) (ok-injective h) c
dispatch_from-Covered snapshot_id workers busy (suc left) worker w x below c h =
    let next =
      if is_busy worker busy
      then ok w
      else start_next snapshot_id worker w (next_uid worker w.queues) in
    let (y, e, rest) = >>=-eq-ok next (dispatch_from snapshot_id busy left (worker + 1)) h in
    dispatch_from-Covered snapshot_id workers busy left (worker + 1) y x (omega (arith, below))
      (elim (Bool-cases (is_busy worker busy)) [
        | inl t ↦
            subst (Covered snapshot_id workers [])
              (ok-injective (
                subst
                  (λ b.
                    (if b then ok w else start_next snapshot_id worker w (next_uid worker w.queues))
                    ≡ ok y)
                  t e))
              c
        | inr f ↦
            start_next-Covered snapshot_id workers worker w y (next_uid worker w.queues)
              (omega (arith, below))
              (λ uid queues popped. next_uid-Popped worker uid w.queues queues popped) c
              (subst
                (λ b.
                  (if b then ok w else start_next snapshot_id worker w (next_uid worker w.queues))
                  ≡ ok y)
                f e)
      ])
      rest
