-- ===== src/Batch/Recorded.antt =====
-- src/migrator/phases/batch.py, `checkpoint`: the rows of the mirror and the state that is pushed.
use dropbox_mirror.Base.{
  In-keep, ℕ, true, Option, none, some, List, [], ◌∷◌, length, keep, In, Text, nat_eq, text_eq,
  option_eq, text_iff, ok, err, ◌≡◌, refl, sym, ap, subst, ◌∙◌, inl, inr, arith, Bool-cases,
  >>=-eq-ok, ok-injective,
}
use dropbox_mirror.Base.Sort.{In-sort_by}
use dropbox_mirror.Batch.Evidence.{IsKeyed}
use dropbox_mirror.Batch.Items.{in_batch, items, Services, Work}
use dropbox_mirror.Batch.Steps.{
  upsert, is_mirrored, mirror_row, merge_hashed, merge, merged, push_state, checkpoint,
  Checkpointed, end_checkpoint, failed_count,
}
use dropbox_mirror.Failure.{Outcome}
use dropbox_mirror.State.Tables.{Db, MirrorObject, BatchItem, ItemStatus}

-- The mirror holds the path with this size and content hash.
abbrev pub Holds : List MirrorObject → Text → ℕ → Text → Type 0
Holds mirror path_lower size content_hash =
    (m : MirrorObject) × In m mirror
    × (m.path_lower ≡ path_lower)
    × (m.size ≡ size)
    × (m.content_hash ≡ content_hash)

Holds-cons :
    (m : MirrorObject) (mirror : List MirrorObject) (p : Text) (s : ℕ) (h : Text)
    → Holds mirror p s h
    → Holds (m ∷ mirror) p s h
Holds-cons m mirror p s h (x, mx, a, b, c) = (x, inr mx, a, b, c)

upsert-new :
    (new : MirrorObject) (mirror : List MirrorObject)
    → Holds (upsert new mirror) new.path_lower new.size new.content_hash
upsert-new new [] = (new, inl refl, refl, refl, refl)
upsert-new new (m ∷ mirror) = elim (Bool-cases (is_mirrored new.path_lower m)) [
  | inl t ↦ rw t ((record new { proton_uid = m.proton_uid }), inl refl, refl, refl, refl)
  | inr f ↦ rw f (
      Holds-cons m (upsert new mirror) new.path_lower new.size new.content_hash
        (upsert-new new mirror))
]

-- A row that has the path says the same of it.
abbrev Agreeing : Text → ℕ → Text → Text → ℕ → Text → Type 0
Agreeing p s h path size hash = path ≡ p → (size ≡ s) × (hash ≡ h)

upsert-Holds :
    (new : MirrorObject) (mirror : List MirrorObject) (p : Text) (s : ℕ) (h : Text)
    → Agreeing p s h new.path_lower new.size new.content_hash
    → Holds mirror p s h
    → Holds (upsert new mirror) p s h
upsert-Holds new [] p s h agree (x, mx, a, b, c) = elim mx [ ]
upsert-Holds new (m ∷ mirror) p s h agree (x, mx, a, b, c) =
    elim (Bool-cases (is_mirrored new.path_lower m)) [
      | inl t ↦ elim mx [
        | inl e ↦
            let same : m.path_lower ≡ new.path_lower = (text_iff m.path_lower new.path_lower).0 t in
            let path : new.path_lower ≡ p =
              sym same ∙ ap (λ (y : MirrorObject). y.path_lower) (sym e) ∙ a in
            let g = agree path in
            rw t ((record new { proton_uid = m.proton_uid }), inl refl, path, g.0, g.1)
        | inr later ↦ rw t (x, inr later, a, b, c)
      ]
      | inr f ↦ elim mx [
        | inl e ↦ rw f (x, inl e, a, b, c)
        | inr later ↦ rw f (
            Holds-cons m (upsert new mirror) p s h
              (upsert-Holds new mirror p s h agree (x, later, a, b, c)))
      ]
    ]

merge_hashed-eq :
    (run_id : ℕ) (now : Text) (r : BatchItem) (a b : Option Text) (mirror out : List MirrorObject)
    → merge_hashed run_id now r a b mirror ≡ ok out
    → (x : Text) × (y : Text) × (out ≡ upsert (mirror_row run_id now r x y) mirror)
merge_hashed-eq run_id now r (some x) (some y) mirror out e = (x, y, sym (ok-injective e))
merge_hashed-eq run_id now r none b mirror out e = cc
merge_hashed-eq run_id now r (some x) none mirror out e = cc

merge-Holds :
    (run_id : ℕ) (now : Text) (rows : List BatchItem) (mirror out : List MirrorObject) (p : Text)
    (s : ℕ) (h : Text)
    → ((r : BatchItem) → In r rows → Agreeing p s h r.path_lower r.size r.content_hash)
    → merge run_id now rows mirror ≡ ok out
    → Holds mirror p s h
    → Holds out p s h
unfolding merge
merge-Holds run_id now [] mirror out p s h agree e held =
    subst (λ l. Holds l p s h) (ok-injective e) held
merge-Holds run_id now (r ∷ rows) mirror out p s h agree e held =
    let (mid, e1, e2) =
      >>=-eq-ok (merge_hashed run_id now r r.sha1 r.sha256 mirror) (merge run_id now rows) e in
    let (x, y, shape) = merge_hashed-eq run_id now r r.sha1 r.sha256 mirror mid e1 in
    merge-Holds run_id now rows mid out p s h (λ q m. agree q (inr m)) e2
      (subst (λ l. Holds l p s h) (sym shape)
        (upsert-Holds (mirror_row run_id now r x y) mirror p s h (agree r (inl refl)) held))

merge-all :
    (run_id : ℕ) (now : Text) (rows : List BatchItem) (mirror out : List MirrorObject)
    (i : BatchItem)
    → ((r : BatchItem)
        → In r rows
        → Agreeing i.path_lower i.size i.content_hash r.path_lower r.size r.content_hash)
    → merge run_id now rows mirror ≡ ok out
    → In i rows
    → Holds out i.path_lower i.size i.content_hash
unfolding merge
merge-all run_id now [] mirror out i agree e m = elim m [ ]
merge-all run_id now (r ∷ rows) mirror out i agree e m =
    let (mid, e1, e2) =
      >>=-eq-ok (merge_hashed run_id now r r.sha1 r.sha256 mirror) (merge run_id now rows) e in
    let (x, y, shape) = merge_hashed-eq run_id now r r.sha1 r.sha256 mirror mid e1 in
    elim m [
      | inr later ↦ merge-all run_id now rows mid out i (λ q mq. agree q (inr mq)) e2 later
      | inl same ↦
          merge-Holds run_id now rows mid out i.path_lower i.size i.content_hash
            (λ q mq. agree q (inr mq)) e2
            (subst (λ l. Holds l i.path_lower i.size i.content_hash) (sym shape)
              (subst
                (λ (z : BatchItem).
                  Holds (upsert (mirror_row run_id now r x y) mirror) z.path_lower z.size
                    z.content_hash)
                (sym same) (upsert-new (mirror_row run_id now r x y) mirror)))
    ]

push_state-ok :
    (sv : Services) (label : Text) (c d : Checkpointed) (w : Work) (o : Outcome (Unit {0}))
    → (push_state sv label c w o).0 ≡ ok d
    → ((push_state sv label c w o).1.db ≡ w.db)
      × ((push_state sv label c w o).1.pushed ≡ (label, w.db) ∷ w.pushed)
push_state-ok sv label c d w (err e) h = cc
push_state-ok sv label c d w (ok done) h = (refl, refl)

merged-ok :
    (sv : Services) (label : Text) (batch_id : ℕ) (good : List BatchItem) (w : Work)
    (c : Checkpointed) (o : Outcome (List MirrorObject))
    → (merged sv label batch_id good w o).0 ≡ ok c
    → (mirror : List MirrorObject) × (o ≡ ok mirror)
      × ((merged sv label batch_id good w o).1.db.mirror ≡ mirror)
      × ((merged sv label batch_id good w o).1.pushed
          ≡ (label, (merged sv label batch_id good w o).1.db) ∷ w.pushed)
merged-ok sv label batch_id good w c (err e) h = cc
merged-ok sv label batch_id good w c (ok mirror) h =
    let db = end_checkpoint batch_id sv.now good w.db mirror in
    let counts : Checkpointed = record {
      checkpointed = length good;
      failed = failed_count batch_id db;
    } in
    let (same, pushed) =
      push_state-ok sv label counts c (record w { db = db }) (sv.push label db) h in
    (
      mirror,
      refl,
      ap (λ (d : Db). d.mirror) same ∙ (unfold end_checkpoint in refl),
      pushed ∙ ap (λ (d : Db). (label, d) ∷ w.pushed) (sym same),
    )

In-items :
    (batch_id : ℕ) (status : ItemStatus) (db : Db) (r : BatchItem)
    → In r (items batch_id status db)
    → In r db.batch_items × (in_batch batch_id status r ≡ true)
unfolding items
In-items batch_id status db r m = In-keep (in_batch batch_id status) r db.batch_items (
    In-sort_by (λ (x : BatchItem). x.path_lower) r (keep (in_batch batch_id status) db.batch_items)
      m)

batch_of :
    (batch_id : ℕ) (status : ItemStatus) (r : BatchItem)
    → in_batch batch_id status r ≡ true
    → r.batch_id ≡ batch_id
batch_of batch_id status r t = ground (arith, t)

items_agree :
    (batch_id : ℕ) (db : Db)
    → IsKeyed db.batch_items
    → (i : BatchItem) → In i (items batch_id ItemStatus.confirmed db)
    → (r : BatchItem) → In r (items batch_id ItemStatus.confirmed db)
    → Agreeing i.path_lower i.size i.content_hash r.path_lower r.size r.content_hash
items_agree batch_id db keyed i mi r mr same =
    let (ti, bi) = In-items batch_id ItemStatus.confirmed db i mi in
    let (tr, br) = In-items batch_id ItemStatus.confirmed db r mr in
    keyed r i tr ti
      (batch_of batch_id ItemStatus.confirmed r br
        ∙ sym (batch_of batch_id ItemStatus.confirmed i bi))
      same

-- A checkpoint that returns has recorded the batch: for each confirmed item the mirror then has a row
-- with its path, its size and its content hash, and the database that has these rows is the state
-- that was pushed last, under the batch's label. The items are assumed to be keyed by their paths.
pub checkpoint-recorded :
    (sv : Services) (run_id : ℕ) (label : Text) (batch_id : ℕ) (w : Work) (c : Checkpointed)
    → IsKeyed w.db.batch_items
    → (checkpoint sv run_id label batch_id w).0 ≡ ok c
    → (i : BatchItem) → In i (items batch_id ItemStatus.confirmed w.db)
    → Holds (checkpoint sv run_id label batch_id w).1.db.mirror i.path_lower i.size i.content_hash
      × ((checkpoint sv run_id label batch_id w).1.pushed
          ≡ (label, (checkpoint sv run_id label batch_id w).1.db) ∷ w.pushed)
unfolding checkpoint
checkpoint-recorded sv run_id label batch_id w c keyed h i m =
    let good = items batch_id ItemStatus.confirmed w.db in
    let (mirror, e, same, pushed) =
      merged-ok sv label batch_id good w c (merge run_id sv.now good w.db.mirror) h in
    (
      subst (λ l. Holds l i.path_lower i.size i.content_hash) (sym same)
          (merge-all run_id sv.now good w.db.mirror mirror i (items_agree batch_id w.db keyed i m) e
            m),
      pushed,
    )
