-- ===== src/Plan/Run/Items.antt =====
-- src/migrator/phases/p30_plan.py, `run`: which files have an item after the plan.
use dropbox_mirror.Base.{
  In-map, In-map_of, In-append_right, In-append, In-append_left, In-keep_of, In-keep, ◌↔◌,
  >>=-eq-ok, ok-injective, any-In, any_of_In, ◌&&◌, ℕ, ◌+◌, ◌≤◌, Bool, true, not, List, [], ◌∷◌,
  ◌++◌, map, keep, concat, In, ◌==◌, nat_eq, text_eq, option_eq, nat_beq_iff, ok, ◌≡◌, ◌≢◌, refl,
  sym, subst, ◌⊎◌, inl, inr, arith, Bool-cases,
}
use dropbox_mirror.Base.Sort.{In-sort_by_of, In-sort_by}
use dropbox_mirror.Config.{Budget}
use dropbox_mirror.Plan.Pack.Order.{concat-pack}
use dropbox_mirror.Plan.Run.{
  next_id, run, drop_planned, file_cap, is_stageable, changed_rows, size_of, new_item, insert_batch,
  insert_batches, PlanOutputs, is_planned, in_planned,
}
use dropbox_mirror.Plan.Run.Gates.{stageable, batches_of, run-Planned}
use dropbox_mirror.State.Runs.Laws.{update_run_lem}
use dropbox_mirror.State.Tables.{Db, DeltaChanged, Batch, BatchItem, BatchStatus, ItemStatus}

-- The item is planned, and its file is that of the changed row.
abbrev pub IsItemOf : DeltaChanged → BatchItem → Type 0
IsItemOf r i =
    (i.path_lower ≡ r.path_lower)
    × (i.size ≡ r.size)
    × (i.content_hash ≡ r.content_hash)
    × (i.status ≡ ItemStatus.planned)

-- A changed file of the run which is under the limit for files and for which the disk has room.
abbrev pub Fitting : Budget → ℕ → ℕ → Db → DeltaChanged → Type 0
Fitting budget free run_id db r =
    In r db.delta_changed
    × (r.run_id ≡ run_id)
    × (r.size ≤ budget.max_file_bytes)
    × (r.size + budget.headroom_bytes ≤ free)

-- An old item, and no batch which is still planned is its batch.
abbrev pub Begun : Db → BatchItem → Type 0
Begun db i =
    In i db.batch_items
    × ((b : Batch) → In b db.batches → b.id ≡ i.batch_id → b.status ≢ BatchStatus.planned)

insert_batch-items :
    (run_id number : ℕ) (rows : List DeltaChanged) (db after : Db)
    → insert_batch run_id number rows db ≡ ok after
    → (id : ℕ) × (after.batch_items ≡ db.batch_items ++ map (new_item id) rows)
unfolding insert_batch
insert_batch-items run_id number rows db after h =
    (next_id (λ (b : Batch). b.id) db.batches, ground arith)

insert_batches_kept :
    (run_id number : ℕ) (batches : List (List DeltaChanged)) (db after : Db) (i : BatchItem)
    → insert_batches run_id number batches db ≡ ok after
    → In i db.batch_items
    → In i after.batch_items
unfolding insert_batches
insert_batches_kept run_id number [] db after i h m =
    subst (λ (x : Db). In i x.batch_items) (ok-injective h) m
insert_batches_kept run_id number (rows ∷ batches) db after i h m =
    let (mid, e, k) =
      >>=-eq-ok (insert_batch run_id number rows db) (insert_batches run_id (number + 1) batches)
        h in
    let (id, items) = insert_batch-items run_id number rows db mid e in
    insert_batches_kept run_id (number + 1) batches mid after i k
      (subst (In i) (sym items) (In-append_left i db.batch_items (map (new_item id) rows) m))

insert_batches_has :
    (run_id number : ℕ) (batches : List (List DeltaChanged)) (db after : Db) (r : DeltaChanged)
    → insert_batches run_id number batches db ≡ ok after
    → In r (concat batches)
    → (i : BatchItem) × In i after.batch_items × IsItemOf r i
unfolding insert_batches
insert_batches_has run_id number [] db after r h m = elim m [ ]
insert_batches_has run_id number (rows ∷ batches) db after r h m =
    let (mid, e, k) =
      >>=-eq-ok (insert_batch run_id number rows db) (insert_batches run_id (number + 1) batches)
        h in
    let (id, items) = insert_batch-items run_id number rows db mid e in
    elim (In-append r rows (concat batches) m) [
      | inl here ↦ (
        new_item id r,
        insert_batches_kept run_id (number + 1) batches mid after (new_item id r) k (
            subst (In (new_item id r)) (sym items) (
              In-append_right (new_item id r) db.batch_items (map (new_item id) rows)
                (In-map_of (new_item id) r rows here))),
        (refl, refl, refl, refl),
      )
      | inr later ↦ insert_batches_has run_id (number + 1) batches mid after r k later
    ]

insert_batches_from :
    (run_id number : ℕ) (batches : List (List DeltaChanged)) (db after : Db) (i : BatchItem)
    → insert_batches run_id number batches db ≡ ok after
    → In i after.batch_items
    → In i db.batch_items ⊎ ((r : DeltaChanged) × In r (concat batches) × IsItemOf r i)
unfolding insert_batches
insert_batches_from run_id number [] db after i h m =
    inl (subst (λ (x : Db). In i x.batch_items) (sym (ok-injective h)) m)
insert_batches_from run_id number (rows ∷ batches) db after i h m =
    let (mid, e, k) =
      >>=-eq-ok (insert_batch run_id number rows db) (insert_batches run_id (number + 1) batches)
        h in
    let (id, items) = insert_batch-items run_id number rows db mid e in
    elim (insert_batches_from run_id (number + 1) batches mid after i k m) [
      | inr (r, mr, shape) ↦ inr (r, In-append_right r rows (concat batches) mr, shape)
      | inl old ↦
          elim (In-append i db.batch_items (map (new_item id) rows) (subst (In i) items old)) [
            | inl older ↦ inl older
            | inr new ↦
                let (r, mr, e) = In-map (new_item id) i rows new in
                inr (
                  r,
                  In-append_left r rows (concat batches) mr,
                  subst (IsItemOf r) (sym e) (refl, refl, refl, refl),
                )
          ]
    ]

fits_iff :
    (budget : Budget) (free : ℕ) (r : DeltaChanged)
    → (is_stageable (file_cap budget free) r ≡ true)
      ↔ ((r.size ≤ budget.max_file_bytes) × (r.size + budget.headroom_bytes ≤ free))
unfolding file_cap
fits_iff budget free r = (λ h. ground arith, λ h. ground arith)

stageable-Fitting :
    (budget : Budget) (free run_id : ℕ) (db : Db) (r : DeltaChanged)
    → In r (stageable budget free run_id db)
    → Fitting budget free run_id db r
unfolding changed_rows
stageable-Fitting budget free run_id db r m =
    let own = λ (d : DeltaChanged). d.run_id == run_id in
    let (mc, fits) = In-keep (is_stageable (file_cap budget free)) r (changed_rows run_id db) m in
    let (there, t) =
      In-keep own r db.delta_changed
        (In-sort_by (λ (d : DeltaChanged). d.path_lower) r (keep own db.delta_changed) mc) in
    let (small, room) = (fits_iff budget free r).0 fits in
    (there, (nat_beq_iff r.run_id run_id).0 t, small, room)

Fitting-stageable :
    (budget : Budget) (free run_id : ℕ) (db : Db) (r : DeltaChanged)
    → Fitting budget free run_id db r
    → In r (stageable budget free run_id db)
unfolding changed_rows
Fitting-stageable budget free run_id db r (there, own_run, small, room) =
    let own = λ (d : DeltaChanged). d.run_id == run_id in
    In-keep_of (is_stageable (file_cap budget free)) r (changed_rows run_id db)
      (In-sort_by_of (λ (d : DeltaChanged). d.path_lower) r (keep own db.delta_changed)
        (In-keep_of own r db.delta_changed there ((nat_beq_iff r.run_id run_id).1 own_run)))
      ((fits_iff budget free r).1 (small, room))

-- After a successful plan every changed file of the run which is under the limit for files, and for
-- which the disk has room beside the headroom, has a planned item with its path, size and hash.
pub planned_complete :
    (budget : Budget) (free run_id : ℕ) (db after : Db) (out : PlanOutputs)
    → run budget free run_id db ≡ ok (out, after)
    → (r : DeltaChanged) → Fitting budget free run_id db r
    → (i : BatchItem) × In i after.batch_items × IsItemOf r i
planned_complete budget free run_id db after out h r fits =
    let p = run-Planned budget free run_id db after out h in
    let rows = stageable budget free run_id db in
    let packed = concat-pack size_of budget.batch_bytes budget.batch_files rows in
    let (i, mi, shape) =
      insert_batches_has run_id 1 (batches_of budget free run_id db) (drop_planned db) p.written r
        p.inserted (subst (In r) (sym packed) (Fitting-stageable budget free run_id db r fits)) in
    (
      i,
      subst (λ (x : Db). In i x.batch_items)
          (sym (update_run_lem run_id _ p.written after p.finished)) mi,
      shape,
    )

Begun-drop_planned : (db : Db) (i : BatchItem) → In i (drop_planned db).batch_items ↔ Begun db i
unfolding drop_planned
Begun-drop_planned db i = (
  λ m.
      let (there, t) = In-keep begun i db.batch_items m in
      (
        there,
        λ b mb same is_planned_now. cc (
          t,
          any_of_In (stands_for i) b db.batches mb
              (rw is_planned_now ((nat_beq_iff b.id i.batch_id).1 same)),
        ),
      ),
  λ (there, others).
      In-keep_of begun i db.batch_items there (elim (Bool-cases (in_planned db.batches i)) [
        | inr f ↦ rw f refl
        | inl t ↦
            let (b, mb, both) = any-In (stands_for i) db.batches t in
            absurd (
              others b mb ((nat_beq_iff b.id i.batch_id).0 (ground (arith, both)))
                (planned_iff b.status (ground (arith, both))))
      ]),
)
  where
    begun : BatchItem → Bool
    begun x = not (in_planned db.batches x)

    stands_for : BatchItem → Batch → Bool
    stands_for x b = is_planned b.status && b.id == x.batch_id

    planned_iff : (status : BatchStatus) → is_planned status ≡ true → status ≡ BatchStatus.planned
    planned_iff BatchStatus.planned h = refl
    planned_iff _ h = cc

planned_sound :
    (budget : Budget) (free run_id : ℕ) (db after : Db) (out : PlanOutputs)
    → run budget free run_id db ≡ ok (out, after)
    → (i : BatchItem) → In i after.batch_items
    → Begun db i ⊎ ((r : DeltaChanged) × Fitting budget free run_id db r × IsItemOf r i)
planned_sound budget free run_id db after out h i m =
    let p = run-Planned budget free run_id db after out h in
    let rows = stageable budget free run_id db in
    let packed = concat-pack size_of budget.batch_bytes budget.batch_files rows in
    elim (insert_batches_from run_id 1 (batches_of budget free run_id db) (drop_planned db)
      p.written i p.inserted
      (subst (λ (x : Db). In i x.batch_items) (update_run_lem run_id _ p.written after p.finished)
        m)) [
          | inl old ↦ inl ((Begun-drop_planned db i).0 old)
          | inr (r, mr, shape) ↦
              inr (r, stageable-Fitting budget free run_id db r (subst (In r) packed mr), shape)
        ]

-- A successful plan keeps exactly the items of batches that had begun: an item that belonged to no
-- batch that was still planned is there after it, and every item that is there after it is such a
-- one, or is planned and is made of a changed file of the run which is under the limit for files
-- and for which the disk has room beside the headroom.
pub planned_items :
    (budget : Budget) (free run_id : ℕ) (db after : Db) (out : PlanOutputs)
    → run budget free run_id db ≡ ok (out, after)
    → (i : BatchItem)
    → (Begun db i → In i after.batch_items)
      × (In i after.batch_items
          → Begun db i ⊎ ((r : DeltaChanged) × Fitting budget free run_id db r × IsItemOf r i))
planned_items budget free run_id db after out h i = (
  λ begun.
      let p = run-Planned budget free run_id db after out h in
      subst (λ (x : Db). In i x.batch_items)
        (sym (update_run_lem run_id _ p.written after p.finished))
        (insert_batches_kept run_id 1 (batches_of budget free run_id db) (drop_planned db) p.written
          i p.inserted ((Begun-drop_planned db i).1 begun)),
  planned_sound budget free run_id db after out h i,
)
