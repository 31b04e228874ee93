-- ===== src/Proton/Walk/Collected.antt =====
-- The walk of src/migrator/providers/proton_cli.py over a drive of finitely many folders: what a round of
-- listings leaves to list.
use dropbox_mirror.Base.{
  Option-cases, >>=-eq-ok, ◌>>=◌, ℕ, ◌+◌, Option, some, List, [], ◌∷◌, map, length, Text, codes,
  nat_eq, text_eq, option_eq, ok, err, ◌≡◌, refl, ap, subst, ◌∙◌, inl, inr, arith,
}
use dropbox_mirror.Proton.Invoke.{Invoked}
use dropbox_mirror.Proton.Landing.{
  last_category, entries, went, after_commit, raised, and_then, collect, land, commit_output, Step,
  Walk, Verdict, Flight, World,
}
use dropbox_mirror.Proton.Listing.{
  last_attempt, is_auth_attempt, record_attempts, array_of, list_argv, parse,
}
use dropbox_mirror.Proton.Snapshots.{field_text, commit_listing, list_path}
use dropbox_mirror.Proton.Snapshots.Children.{commit_listing-ok}
use dropbox_mirror.Proton.Snapshots.Counted.{unlisted, put_children-room}
use dropbox_mirror.Proton.Walk.{extend_at, Db, Outcome}
use dropbox_mirror.Proton.Walk.Covered.{record_attempts-folders}
use dropbox_mirror.Proton.Walk.Smaller.{
  commit-Smaller, requeue-Smaller, StepSmaller, Smaller, Lists,
}

module _ (universe : List Text) (world : World) (snapshot_id : ℕ) where
  pub Smaller-trans :
      (m n : ℕ) (a b c : Verdict) (w x y : Walk)
      → Smaller universe snapshot_id m a w b x
      → Smaller universe snapshot_id n b x c y
      → Smaller universe snapshot_id (m + n) a w c y
  Smaller-trans m n a b c w x y first second = record {
    at_most = omega (arith, first.at_most, second.at_most);
    well = λ h. omega (arith, second.well h, first.well (second.well_before h));
    well_before = λ h. first.well_before (second.well_before h);
    same_rescues = second.same_rescues ∙ first.same_rescues;
  }

  pub and_then-Smaller :
      (m n : ℕ) (v : Verdict) (w : Walk) (s : Step) (next : Verdict → Walk → Step)
      → StepSmaller universe snapshot_id m v w s
      → ((v' : Verdict) (x : Walk) → StepSmaller universe snapshot_id n v' x (next v' x))
      → StepSmaller universe snapshot_id (m + n) v w (and_then s next)
  and_then-Smaller m n v w (raised e db) next first second = tt
  and_then-Smaller m n v w (went v' x) next first second = compose (next v' x) (second v' x)
    where
      compose :
          (t : Step)
          → StepSmaller universe snapshot_id n v' x t
          → StepSmaller universe snapshot_id (m + n) v w t
      compose (raised e db) s = tt
      compose (went v'' y) s = Smaller-trans m n v v' v'' w x y first s

  pub after_commit-Smaller :
      (flight : Flight) (v : Verdict) (w x : Walk) (o : Outcome (List Text × Db))
      → ((queued : List Text) (db : Db)
          → o ≡ ok (queued, db)
          → Smaller universe snapshot_id 1 v w v
              (record x { db = db; queues = extend_at flight.worker queued x.queues }))
      → StepSmaller universe snapshot_id 1 v w (after_commit flight v x o)
  after_commit-Smaller flight v w x (err e) h = tt
  after_commit-Smaller flight v w x (ok (queued, db)) h = h queued db refl

  module _ (lists : Lists universe world) where
    pub commit_output-Smaller :
        (round : ℕ) (flight : Flight) (i : Invoked) (v : Verdict) (w : Walk) (db : Db)
        → world.answer round flight ≡ ok i
        → db.folders ≡ w.db.folders
        → StepSmaller universe snapshot_id 1 v w
            (commit_output world snapshot_id flight i v (record w { db = db }))
    unfolding commit_output
    commit_output-Smaller round flight i v w db answered same =
        after_commit-Smaller flight v w (record w { db = db })
          (parse world.reader i >>= array_of >>= entries >>= λ children.
            commit_listing world.naming snapshot_id flight.folder children db)
          (λ queued after h.
            let (children, listed, committed) =
              >>=-eq-ok (parse world.reader i >>= array_of >>= entries)
                (λ children. commit_listing world.naming snapshot_id flight.folder children db) h in
            let (d, put, e) =
              commit_listing-ok world.naming snapshot_id flight.folder children db queued after
                committed in
            let fits =
              put_children-room universe world.naming snapshot_id flight.folder
                (map (field_text world.naming (codes "name")) children) children
                (record { nodes = db.nodes; queued = []; folders = db.folders }) d
                (lists round flight i children answered listed) put in
            subst
              (λ (r : List Text × Db).
                Smaller universe snapshot_id 1 v w v
                  (record w { db = r.1; queues = extend_at flight.worker r.0 w.queues }))
              e
              (commit-Smaller universe snapshot_id flight v w db d
                (omega (arith, fits, ap (unlisted universe snapshot_id) same))))

    pub land-Smaller :
        (round : ℕ) (flight : Flight) (o : Outcome Invoked) (v : Verdict) (w : Walk)
        → world.answer round flight ≡ o
        → StepSmaller universe snapshot_id 1 v w (land world snapshot_id flight o v w)
    unfolding land
    land-Smaller round flight (err e) v w answered = tt
    land-Smaller round flight (ok i) v w answered =
        let argv = list_argv world.reader (list_path world.naming flight.folder) in
        let recorded = record_attempts world.reader (codes "filesystem_list") argv i.made w.db in
        let same : recorded.folders ≡ w.db.folders =
          record_attempts-folders world.reader (codes "filesystem_list") argv i.made w.db in
        elim (Option-cases i.stdout) [
          | inl e ↦ rw e (
              requeue-Smaller universe snapshot_id flight (is_auth_attempt (last_attempt i.made)) v
                w recorded (last_category world.reader (last_attempt i.made)) same)
          | inr (stdout, e) ↦ rw e (
              commit_output-Smaller round flight (record i { stdout = some stdout }) v w recorded
                (answered ∙ ap (λ (o : Option Text). ok (record i { stdout = o })) e) same)
        ]

    pub collect-Smaller :
        (round : ℕ) (done : List Flight) (v : Verdict) (w : Walk)
        → StepSmaller universe snapshot_id
            (length done)
            v
            w
            (collect world snapshot_id round done v w)
    unfolding collect
    collect-Smaller round [] v w = record {
      at_most = omega arith;
      well = λ h. omega arith;
      well_before = λ h. h;
      same_rescues = refl;
    }
    collect-Smaller round (flight ∷ done) v w =
        subst
          (λ (k : ℕ).
            StepSmaller universe snapshot_id k v w
              (collect world snapshot_id round (flight ∷ done) v w))
          (omega arith)
          (and_then-Smaller 1 (length done) v w
            (land world snapshot_id flight (world.answer round flight) v w)
            (λ v' x. collect world snapshot_id round done v' x)
            (land-Smaller round flight (world.answer round flight) v w refl)
            (λ v' x. collect-Smaller round done v' x))
