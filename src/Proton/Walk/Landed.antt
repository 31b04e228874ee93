-- ===== src/Proton/Walk/Landed.antt =====
-- The walk of src/migrator/providers/proton_cli.py, its listings as they are collected.
use dropbox_mirror.Base.{
  >>=-eq-ok, some, ◌>>=◌, Option-cases, err, ok, ℕ, ◌<◌, List, [], ◌∷◌, map, length, In, Text,
  codes, nat_eq, text_eq, option_eq, ◌≡◌, refl, subst, ◌∙◌, inl, inr, arith,
}
use dropbox_mirror.Proton.Invoke.{Invoked}
use dropbox_mirror.Proton.Landing.{
  entries, last_category, after_commit, and_then, World, collect, land, commit_output, Verdict,
  went, raised, Step, Walk, Flight,
}
use dropbox_mirror.Proton.Listing.{array_of, last_attempt, list_argv, parse, record_attempts}
use dropbox_mirror.Proton.Queues.{extend_at, return_to}
use dropbox_mirror.Proton.Queues.Laws.{
  length-extend_at, In-extend_at, length-return_to, In-return_to,
}
use dropbox_mirror.Proton.Snapshots.{
  list_path, field_text, commit_listing, commit, Committed, note_failure,
}
use dropbox_mirror.Proton.Snapshots.Children.{put_children-Grown, commit_listing-ok, Grown}
use dropbox_mirror.Proton.Walk.{Outcome}
use dropbox_mirror.Proton.Walk.Covered.{
  record_attempts-folders, finish_row-pending, note_failure-pending, Covered,
}
use dropbox_mirror.State.Tables.{Db}

-- What a step leaves, with the listings still to be collected.
abbrev pub StepCovered : ℕ → ℕ → List Flight → Step → Type 0
StepCovered snapshot_id workers extra (raised e db) = Unit
StepCovered snapshot_id workers extra (went v w) = Covered snapshot_id workers extra w

requeue-Covered :
    (snapshot_id workers : ℕ) (flight : Flight) (extra : List Flight) (w : Walk) (db : Db)
    (category : Text)
    → db.folders ≡ w.db.folders
    → Covered snapshot_id workers (flight ∷ extra) w
    → Covered snapshot_id workers extra (record w {
      db = note_failure snapshot_id flight.folder.uid category db;
      queues = return_to flight.worker flight.folder.uid w.queues;
    })
requeue-Covered snapshot_id workers flight extra w db category same c =
    let in_range : flight.worker < length w.queues =
      omega (arith, c.width, c.extra_range flight (inl refl)) in
    record {
      found = λ g m p.
          let (f, mf, pf, e) =
            note_failure-pending snapshot_id flight.folder.uid category db g m p in
          let back = In-return_to flight.worker flight.folder.uid f.uid w.queues in_range in
          rw e (elim (c.found f (subst (In f) same mf) pf) [
            | inl queued ↦ inl (back (inl queued))
            | inr (inl (inl here)) ↦ inl (back (inr here))
            | inr (inl (inr later)) ↦ inr (inl later)
            | inr (inr flying) ↦ inr (inr flying)
          ]);
      width = length-return_to flight.worker flight.folder.uid w.queues ∙ c.width;
      extra_range = λ fl m. c.extra_range fl (inr m);
      range = c.range;
    }

commit-Covered :
    (snapshot_id workers : ℕ) (flight : Flight) (extra : List Flight) (w : Walk) (db : Db)
    (d : Committed)
    → Grown (record { nodes = db.nodes; queued = []; folders = w.db.folders }) d
    → Covered snapshot_id workers (flight ∷ extra) w
    → Covered snapshot_id workers extra (record w {
      db = (commit snapshot_id flight.folder db d).1;
      queues = extend_at flight.worker d.queued w.queues;
    })
commit-Covered snapshot_id workers flight extra w db d grown c =
    let in_range : flight.worker < length w.queues =
      omega (arith, c.width, c.extra_range flight (inl refl)) in
    record {
      found = λ g m p.
          let (mg, apart) = finish_row-pending snapshot_id flight.folder.uid d.folders g m p in
          let put = In-extend_at flight.worker d.queued g.uid w.queues in_range in
          elim (grown.found g mg) [
            | inr new ↦ inl (put (inr new))
            | inl old ↦ elim (c.found g old p) [
              | inl queued ↦ inl (put (inl queued))
              | inr (inl (inl here)) ↦ absurd (apart here)
              | inr (inl (inr later)) ↦ inr (inl later)
              | inr (inr flying) ↦ inr (inr flying)
            ]
          ];
      width = length-extend_at flight.worker d.queued w.queues ∙ c.width;
      extra_range = λ fl m. c.extra_range fl (inr m);
      range = c.range;
    }

after_commit-Covered :
    (snapshot_id workers : ℕ) (flight : Flight) (extra : List Flight) (verdict : Verdict) (w : Walk)
    (o : Outcome (List Text × Db))
    → ((queued : List Text) (db : Db)
        → o ≡ ok (queued, db)
        → Covered snapshot_id workers extra
            (record w { db = db; queues = extend_at flight.worker queued w.queues }))
    → StepCovered snapshot_id workers extra (after_commit flight verdict w o)
after_commit-Covered snapshot_id workers flight extra verdict w (err e) h = tt
after_commit-Covered snapshot_id workers flight extra verdict w (ok (queued, db)) h =
    h queued db refl

commit_output-Covered :
    (world : World) (snapshot_id workers : ℕ) (flight : Flight) (extra : List Flight) (i : Invoked)
    (verdict : Verdict) (w : Walk) (db : Db)
    → db.folders ≡ w.db.folders
    → Covered snapshot_id workers (flight ∷ extra) w
    → StepCovered snapshot_id workers extra
        (commit_output world snapshot_id flight i verdict (record w { db = db }))
unfolding commit_output
commit_output-Covered world snapshot_id workers flight extra i verdict w db same c =
    after_commit-Covered snapshot_id workers flight extra verdict (record w { db = db })
      (parse world.reader i >>= array_of >>= entries >>= λ children.
        commit_listing world.naming snapshot_id flight.folder children db)
      (λ queued after h.
        let (children, _, committed) =
          >>=-eq-ok (parse world.reader i >>= array_of >>= entries)
            (λ children. commit_listing world.naming snapshot_id flight.folder children db) h in
        let (d, put, e) =
          commit_listing-ok world.naming snapshot_id flight.folder children db queued after
            committed in
        let grown =
          put_children-Grown world.naming snapshot_id flight.folder
            (map (field_text world.naming (codes "name")) children) children
            (record { nodes = db.nodes; queued = []; folders = db.folders }) d put in
        subst
          (λ (r : List Text × Db).
            Covered snapshot_id workers extra
              (record w { db = r.1; queues = extend_at flight.worker r.0 w.queues }))
          e
          (commit-Covered snapshot_id workers flight extra w db d
            (subst (λ l. Grown (record { nodes = db.nodes; queued = []; folders = l }) d) same
              grown)
            c))

land-Covered :
    (world : World) (snapshot_id workers : ℕ) (flight : Flight) (extra : List Flight)
    (o : Outcome Invoked) (verdict : Verdict) (w : Walk)
    → Covered snapshot_id workers (flight ∷ extra) w
    → StepCovered snapshot_id workers extra (land world snapshot_id flight o verdict w)
unfolding land
land-Covered world snapshot_id workers flight extra (err e) verdict w c = tt
land-Covered world snapshot_id workers flight extra (ok i) verdict w c =
    let recorded =
      record_attempts world.reader (codes "filesystem_list")
        (list_argv world.reader (list_path world.naming flight.folder)) i.made w.db in
    let same : recorded.folders ≡ w.db.folders =
      record_attempts-folders world.reader (codes "filesystem_list")
        (list_argv world.reader (list_path world.naming flight.folder)) i.made w.db in
    elim (Option-cases i.stdout) [
      | inl e ↦ rw e (
          requeue-Covered snapshot_id workers flight extra w recorded
            (last_category world.reader (last_attempt i.made)) same c)
      | inr (stdout, e) ↦ rw e (
          commit_output-Covered world snapshot_id workers flight extra
            (record i { stdout = some stdout }) verdict w recorded same c)
    ]

pub and_then-Covered :
    (snapshot_id workers : ℕ) (first second : List Flight) (s : Step) (next : Verdict → Walk → Step)
    → StepCovered snapshot_id workers first s
    → ((v : Verdict) (w : Walk)
        → Covered snapshot_id workers first w
        → StepCovered snapshot_id workers second (next v w))
    → StepCovered snapshot_id workers second (and_then s next)
and_then-Covered snapshot_id workers first second (raised e db) next c step = tt
and_then-Covered snapshot_id workers first second (went v w) next c step = step v w c

-- When all listings of a round are collected, each pending folder is queued or under way.
pub collect-Covered :
    (world : World) (snapshot_id workers round : ℕ) (done : List Flight) (verdict : Verdict)
    (w : Walk)
    → Covered snapshot_id workers done w
    → StepCovered snapshot_id workers [] (collect world snapshot_id round done verdict w)
unfolding collect
collect-Covered world snapshot_id workers round [] verdict w c = c
collect-Covered world snapshot_id workers round (flight ∷ done) verdict w c =
    and_then-Covered snapshot_id workers done []
      (land world snapshot_id flight (world.answer round flight) verdict w)
      (λ v x. collect world snapshot_id round done v x)
      (land-Covered world snapshot_id workers flight done (world.answer round flight) verdict w c)
      (λ v x cx. collect-Covered world snapshot_id workers round done v x cx)
