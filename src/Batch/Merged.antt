-- ===== src/Batch/Merged.antt =====
-- src/migrator/phases/batch.py: `upload`, `confirm` and `checkpoint` over a sound database.
use dropbox_mirror.Base.{
  All-In, In-keep, ap₂, All-of_In, ℕ, Option, none, some, List, [], ◌∷◌, length, keep, all, All,
  Text, nat_eq, text_eq, option_eq, ok, err, ◌>>=◌, ◌≡◌, refl, sym, ap, subst, inl, inr, Bool-cases,
}
use dropbox_mirror.Base.Json.{Fields}
use dropbox_mirror.Base.Sort.{In-sort_by, sort_by}
use dropbox_mirror.Batch.Evidence.{
  in_batch-status, is_trusted, move_all-Sound, set_item-Sound, ItemSound, IsKeyed, MirrorSound,
  Sound, IsHashed,
}
use dropbox_mirror.Batch.Items.{in_batch, to, set_item, items, Report, Work, Services}
use dropbox_mirror.Batch.Staging.{top_level}
use dropbox_mirror.Batch.Steps.{
  push_state, merge_hashed, checkpoint, merged, Checkpointed, end_checkpoint, mirror_row, report_of,
  is_mirrored, end_upload, upsert, confirm_rows, with_summary, fail_items, upload_rows, settle,
  confirm, merge, upload,
}
use dropbox_mirror.Batch.Summary.{
  last_summary, failed_names, read_summary, failed_rows, is_confirmed, Summary,
}
use dropbox_mirror.Failure.{Outcome}
use dropbox_mirror.Hashing.{Sha}
use dropbox_mirror.State.Tables.{ItemStatus, MirrorObject, Db, BatchItem}

-- What `upload_tree` does with the database: it adds to the commands, and to nothing that a batch
-- reads back.
abbrev pub KeepsRows : Services → Type 0
KeepsRows sv =
    (sources : List Text) (destination : Text) (db : Db)
    → ((sv.upload_tree sources destination db).1.batch_items ≡ db.batch_items)
      × ((sv.upload_tree sources destination db).1.mirror ≡ db.mirror)

same-Sound :
    (sha256 sha1 : Sha) (a b : Db)
    → a.batch_items ≡ b.batch_items
    → a.mirror ≡ b.mirror
    → Sound sha256 sha1 b
    → Sound sha256 sha1 a
same-Sound sha256 sha1 a b items mirror s = record {
  keyed = subst IsKeyed (sym items) s.keyed;
  trusted = subst (All (ItemSound sha256 sha1)) (sym items) s.trusted;
  mirrored = subst (All (MirrorSound sha256 sha1)) (sym mirror) s.mirrored;
}

end_upload-db :
    (batch_id : ℕ) (rows : List BatchItem) (w : Work) (o : Outcome Report × Db)
    → (end_upload batch_id rows w o).1.db ≡ o.1
end_upload-db batch_id rows w (err e, db) = refl
end_upload-db batch_id rows w (ok report, db) = refl

upload_rows-Sound :
    (sha256 sha1 : Sha) (sv : Services) (destination : Text) (batch_id : ℕ) (rows : List BatchItem)
    (w : Work)
    → KeepsRows sv
    → Sound sha256 sha1 w.db
    → Sound sha256 sha1 ((upload_rows sv destination batch_id rows w).1.db)
upload_rows-Sound sha256 sha1 sv destination batch_id [] w keeps h = h
upload_rows-Sound sha256 sha1 sv destination batch_id (r ∷ rows) w keeps h =
    let o = sv.upload_tree (top_level w.staging) destination w.db in
    let k = keeps (top_level w.staging) destination w.db in
    rw (end_upload-db batch_id (r ∷ rows) w o) (same-Sound sha256 sha1 (o.1) w.db (k.0) (k.1) h)

pub upload-Sound :
    (sha256 sha1 : Sha) (sv : Services) (destination : Text) (batch_id : ℕ) (w : Work)
    → KeepsRows sv
    → Sound sha256 sha1 w.db
    → Sound sha256 sha1 ((upload sv destination batch_id w).1.db)
unfolding upload
upload-Sound sha256 sha1 sv destination batch_id w keeps h =
    upload_rows-Sound sha256 sha1 sv destination batch_id (items batch_id ItemStatus.verified w.db)
      w keeps h

fail_items-Sound :
    (sha256 sha1 : Sha) (rows : List BatchItem) (db : Db)
    → Sound sha256 sha1 db
    → Sound sha256 sha1 (fail_items rows db)
fail_items-Sound sha256 sha1 [] db h = h
fail_items-Sound sha256 sha1 (r ∷ rows) db h =
    fail_items-Sound sha256 sha1 rows
      (set_item r.batch_id r.path_lower (to ItemStatus.confirm_failed) db)
      (set_item-Sound sha256 sha1 r.batch_id r.path_lower ItemStatus.confirm_failed db refl h)

settle-Sound :
    (sha256 sha1 : Sha) (sv : Services) (batch_id : ℕ) (rows : List BatchItem) (w : Work)
    (s : Summary)
    → Sound sha256 sha1 w.db
    → Sound sha256 sha1 ((settle sv batch_id rows w s).1.db)
unfolding settle
settle-Sound sha256 sha1 sv batch_id rows w s h =
    elim (Bool-cases (is_confirmed sv s (length w.staging.folders) rows)) [
      | inl t ↦
          let failed = failed_rows (failed_names sv s.failures) rows in
          rw t (
            move_all-Sound sha256 sha1 batch_id ItemStatus.verified ItemStatus.confirmed
              (fail_items failed w.db) (λ _. refl) (fail_items-Sound sha256 sha1 failed w.db h))
      | inr n ↦ rw n (
          move_all-Sound sha256 sha1 batch_id ItemStatus.verified ItemStatus.confirm_failed w.db
            (λ _. refl) h)
    ]

with_summary-Sound :
    (sha256 sha1 : Sha) (sv : Services) (batch_id : ℕ) (rows : List BatchItem) (w : Work)
    (o : Outcome Summary)
    → Sound sha256 sha1 w.db
    → Sound sha256 sha1 ((with_summary sv batch_id rows w o).1.db)
with_summary-Sound sha256 sha1 sv batch_id rows w (err e) h = h
with_summary-Sound sha256 sha1 sv batch_id rows w (ok s) h =
    settle-Sound sha256 sha1 sv batch_id rows w s h

confirm_rows-Sound :
    (sha256 sha1 : Sha) (sv : Services) (batch_id : ℕ) (rows : List BatchItem) (o : Option Fields)
    (w : Work)
    → Sound sha256 sha1 w.db
    → Sound sha256 sha1 ((confirm_rows sv batch_id rows o w).1.db)
confirm_rows-Sound sha256 sha1 sv batch_id [] o w h = h
confirm_rows-Sound sha256 sha1 sv batch_id (r ∷ rows) none w h = h
confirm_rows-Sound sha256 sha1 sv batch_id (r ∷ rows) (some fields) w h =
    with_summary-Sound sha256 sha1 sv batch_id (r ∷ rows) w (read_summary sv fields) h

pub confirm-Sound :
    (sha256 sha1 : Sha) (sv : Services) (batch_id : ℕ) (w : Work)
    → Sound sha256 sha1 w.db
    → Sound sha256 sha1 ((confirm sv batch_id w).1.db)
unfolding confirm
confirm-Sound sha256 sha1 sv batch_id w h =
    confirm_rows-Sound sha256 sha1 sv batch_id (items batch_id ItemStatus.verified w.db)
      (last_summary (report_of batch_id w.reports)) w h

upsert-Sound :
    (sha256 sha1 : Sha) (new : MirrorObject) (mirror : List MirrorObject)
    → MirrorSound sha256 sha1 new
    → All (MirrorSound sha256 sha1) mirror
    → All (MirrorSound sha256 sha1) (upsert new mirror)
upsert-Sound sha256 sha1 new [] h all = (h, tt)
upsert-Sound sha256 sha1 new (m ∷ mirror) h all = elim (Bool-cases (is_mirrored new.path_lower m)) [
  | inl t ↦ rw t (h, all.1)
  | inr n ↦ rw n (all.0, upsert-Sound sha256 sha1 new mirror h (all.1))
]

merge-Sound :
    (sha256 sha1 : Sha) (run_id : ℕ) (now : Text) (rows : List BatchItem)
    (mirror merged : List MirrorObject)
    → All (IsHashed sha256 sha1) rows
    → All (MirrorSound sha256 sha1) mirror
    → merge run_id now rows mirror ≡ ok merged
    → All (MirrorSound sha256 sha1) merged
unfolding merge
merge-Sound sha256 sha1 run_id now [] mirror merged rows h e =
    subst (All (MirrorSound sha256 sha1)) (cc) h
merge-Sound sha256 sha1 run_id now (r ∷ rows) mirror merged ((a, b, ea, eb, c), rest) h e =
    merge-Sound sha256 sha1 run_id now rows (upsert (mirror_row run_id now r a b) mirror) merged
      rest (upsert-Sound sha256 sha1 (mirror_row run_id now r a b) mirror c h)
      (subst
        (λ (p : Option Text × Option Text).
          (merge_hashed run_id now r (p.0) (p.1) mirror >>= merge run_id now rows) ≡ ok merged)
        (ap₂ (λ x y. (x, y)) ea eb) e)

end_checkpoint-Sound :
    (sha256 sha1 : Sha) (batch_id : ℕ) (now : Text) (good : List BatchItem) (db : Db)
    (mirror : List MirrorObject)
    → All (MirrorSound sha256 sha1) mirror
    → Sound sha256 sha1 db
    → Sound sha256 sha1 (end_checkpoint batch_id now good db mirror)
unfolding end_checkpoint
end_checkpoint-Sound sha256 sha1 batch_id now good db mirror all h =
    let s =
      move_all-Sound sha256 sha1 batch_id ItemStatus.confirmed ItemStatus.checkpointed db
        (λ _. refl) h in
    record { keyed = s.keyed; trusted = s.trusted; mirrored = all }

-- The confirmed rows have their hashes.
confirmed-IsHashed :
    (sha256 sha1 : Sha) (batch_id : ℕ) (db : Db)
    → Sound sha256 sha1 db
    → All (IsHashed sha256 sha1) (items batch_id ItemStatus.confirmed db)
unfolding items
confirmed-IsHashed sha256 sha1 batch_id db h =
    let key = λ (x : BatchItem). x.path_lower in
    let rows = keep (in_batch batch_id ItemStatus.confirmed) db.batch_items in
    All-of_In (IsHashed sha256 sha1) (sort_by key rows) (λ r m.
      let k =
        In-keep (in_batch batch_id ItemStatus.confirmed) r db.batch_items
          (In-sort_by key r rows m) in
      All-In (ItemSound sha256 sha1) db.batch_items r h.trusted (k.0)
        (ap is_trusted (in_batch-status batch_id ItemStatus.confirmed r (k.1))))

push_state-db :
    (sv : Services) (label : Text) (c : Checkpointed) (w : Work) (o : Outcome (Unit {0}))
    → (push_state sv label c w o).1.db ≡ w.db
push_state-db sv label c w (err e) = refl
push_state-db sv label c w (ok done) = refl

merged-Sound :
    (sha256 sha1 : Sha) (sv : Services) (label : Text) (batch_id : ℕ) (good : List BatchItem)
    (w : Work) (o : Outcome (List MirrorObject))
    → ((mirror : List MirrorObject) → o ≡ ok mirror → All (MirrorSound sha256 sha1) mirror)
    → Sound sha256 sha1 w.db
    → Sound sha256 sha1 ((merged sv label batch_id good w o).1.db)
merged-Sound sha256 sha1 sv label batch_id good w (err e) all h = h
merged-Sound sha256 sha1 sv label batch_id good w (ok mirror) all h =
    rw push_state-db
      (end_checkpoint-Sound sha256 sha1 batch_id sv.now good w.db mirror (all mirror refl) h)

pub checkpoint-Sound :
    (sha256 sha1 : Sha) (sv : Services) (run_id : ℕ) (label : Text) (batch_id : ℕ) (w : Work)
    → Sound sha256 sha1 w.db
    → Sound sha256 sha1 ((checkpoint sv run_id label batch_id w).1.db)
unfolding checkpoint
checkpoint-Sound sha256 sha1 sv run_id label batch_id w h =
    let good = items batch_id ItemStatus.confirmed w.db in
    merged-Sound sha256 sha1 sv label batch_id good w (merge run_id sv.now good w.db.mirror)
      (λ mirror e.
        merge-Sound sha256 sha1 run_id sv.now good w.db.mirror mirror
          (confirmed-IsHashed sha256 sha1 batch_id w.db h) h.mirrored e)
      h
