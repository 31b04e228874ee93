-- ===== src/Batch/Evidence.antt =====
-- src/migrator/phases/batch.py: what a row of `batch_items` or `mirror_objects` vouches for.
use dropbox_mirror.Base.{
  In-keep, ap₂, All-map-In, In-map, ℕ, Bool, true, false, ◌&&◌, some, List, map, keep, In, All,
  Text, ◌==◌, nat_eq, text_eq, option_eq, text_iff, if◌then◌else◌, ◌≡◌, refl, sym, ap, subst, ◌∙◌,
  inl, inr, arith, Bool-cases,
}
use dropbox_mirror.Base.Sort.{In-sort_by}
use dropbox_mirror.Batch.Items.{
  change_status, hashed, to, in_batch, status_code, is_item, set_at, items, Setting, set_item,
  move_all,
}
use dropbox_mirror.Hashing.{hash_file, Sha}
use dropbox_mirror.State.Tables.{Db, MirrorObject, ItemStatus, BatchItem}

abbrev pub is_trusted : ItemStatus → Bool
is_trusted ItemStatus.verified = true
is_trusted ItemStatus.confirmed = true
is_trusted _ = false

-- Some bytes have this size, this content hash and these digests.
abbrev pub IsContent : (sha256 sha1 : Sha) → ℕ → Text → Text → Text → Type 0
IsContent sha256 sha1 size content_hash digest1 digest256 =
    (bytes : List ℕ) × ((hash_file sha256 sha1 bytes).size ≡ size)
    × ((hash_file sha256 sha1 bytes).dropbox_content_hash ≡ content_hash)
    × ((hash_file sha256 sha1 bytes).sha1 ≡ digest1)
    × ((hash_file sha256 sha1 bytes).sha256 ≡ digest256)

abbrev pub IsHashed : (sha256 sha1 : Sha) → BatchItem → Type 0
IsHashed sha256 sha1 i =
    (digest1 digest256 : Text) × (i.sha1 ≡ some digest1)
    × (i.sha256 ≡ some digest256)
    × IsContent sha256 sha1 i.size i.content_hash digest1 digest256

abbrev pub ItemSound : (sha256 sha1 : Sha) → BatchItem → Type 0
ItemSound sha256 sha1 i = is_trusted i.status ≡ true → IsHashed sha256 sha1 i

abbrev pub MirrorSound : (sha256 sha1 : Sha) → MirrorObject → Type 0
MirrorSound sha256 sha1 m = IsContent sha256 sha1 m.size m.content_hash m.sha1 m.sha256

-- What PRIMARY KEY(batch_id, path_lower) gives: rows with one key list one file.
abbrev pub IsKeyed : List BatchItem → Type 0
IsKeyed rows =
    (i j : BatchItem)
    → In i rows
    → In j rows
    → i.batch_id ≡ j.batch_id
    → i.path_lower ≡ j.path_lower
    → (i.size ≡ j.size) × (i.content_hash ≡ j.content_hash)

-- The rows of the database are keyed, a trusted item has hashes of bytes that are what Dropbox
-- listed, and so has each mirrored file.
pub record Sound (sha256 sha1 : Sha) (db : Db) : Type 0 where
  pub keyed : IsKeyed db.batch_items
  pub trusted : All (ItemSound sha256 sha1) db.batch_items
  pub mirrored : All (MirrorSound sha256 sha1) db.mirror

-- A change of a row that keeps its key and what it lists.
abbrev pub KeepsListing : (BatchItem → BatchItem) → Type 0
KeepsListing f =
    (i : BatchItem)
    → ((f i).batch_id ≡ i.batch_id)
      × ((f i).path_lower ≡ i.path_lower)
      × ((f i).size ≡ i.size)
      × ((f i).content_hash ≡ i.content_hash)

IsKeyed-map :
    (f : BatchItem → BatchItem) (rows : List BatchItem)
    → KeepsListing f
    → IsKeyed rows
    → IsKeyed (map f rows)
IsKeyed-map f rows same keyed i j mi mj eb ep =
    let (a, ma, ea) = In-map f i rows mi in
    let (b, mb, eb') = In-map f j rows mj in
    let sa = same a in
    let sb = same b in
    let k =
      keyed a b ma mb
        (sym (sa.0)
          ∙ ap (λ (x : BatchItem). x.batch_id) (sym ea)
          ∙ eb
          ∙ ap (λ (x : BatchItem). x.batch_id) eb'
          ∙ sb.0)
        (sym (sa.1)
          ∙ ap (λ (x : BatchItem). x.path_lower) (sym ea)
          ∙ ep
          ∙ ap (λ (x : BatchItem). x.path_lower) eb'
          ∙ sb.1) in
    (
      ap (λ (x : BatchItem). x.size) ea
          ∙ sa.2
          ∙ k.0
          ∙ sym (sb.2)
          ∙ ap (λ (x : BatchItem). x.size) (sym eb'),
      ap (λ (x : BatchItem). x.content_hash) ea
          ∙ sa.3
          ∙ k.1
          ∙ sym (sb.3)
          ∙ ap (λ (x : BatchItem). x.content_hash) (sym eb'),
    )

-- A change of the rows keeps the database sound if it does so row by row.
pub map-Sound :
    (sha256 sha1 : Sha) (f : BatchItem → BatchItem) (db : Db)
    → KeepsListing f
    → ((i : BatchItem)
        → In i db.batch_items
        → ItemSound sha256 sha1 i
        → ItemSound sha256 sha1 (f i))
    → Sound sha256 sha1 db
    → Sound sha256 sha1 (record db { batch_items = map f db.batch_items })
map-Sound sha256 sha1 f db same step s = record {
  keyed = IsKeyed-map f db.batch_items same s.keyed;
  trusted =
      All-map-In (ItemSound sha256 sha1) (ItemSound sha256 sha1) f db.batch_items step s.trusted;
  mirrored = s.mirrored;
}

set_at-KeepsListing :
    (batch_id : ℕ) (path_lower : Text) (s : Setting) → KeepsListing (set_at batch_id path_lower s)
set_at-KeepsListing batch_id path_lower (to status) i =
    elim (Bool-cases (is_item batch_id path_lower i)) [
      | inl t ↦ rw t (refl, refl, refl, refl)
      | inr n ↦ rw n (refl, refl, refl, refl)
    ]
set_at-KeepsListing batch_id path_lower (hashed a b) i =
    elim (Bool-cases (is_item batch_id path_lower i)) [
      | inl t ↦ rw t (refl, refl, refl, refl)
      | inr n ↦ rw n (refl, refl, refl, refl)
    ]

pub set_item-Sound :
    (sha256 sha1 : Sha) (batch_id : ℕ) (path_lower : Text) (status : ItemStatus) (db : Db)
    → is_trusted status ≡ false
    → Sound sha256 sha1 db
    → Sound sha256 sha1 (set_item batch_id path_lower (to status) db)
unfolding set_item
set_item-Sound sha256 sha1 batch_id path_lower status db plain =
    map-Sound sha256 sha1 (set_at batch_id path_lower (to status)) db
      (set_at-KeepsListing batch_id path_lower (to status))
      (λ i m h. elim (Bool-cases (is_item batch_id path_lower i)) [
        | inl t ↦ rw t (λ trusted. ground (arith, plain, trusted))
        | inr n ↦ rw n h
      ])

same_item :
    (i r : BatchItem)
    → is_item r.batch_id r.path_lower i ≡ true
    → (i.batch_id ≡ r.batch_id) × (i.path_lower ≡ r.path_lower)
same_item i r t = ground (arith, t, text_iff i.path_lower r.path_lower)

abbrev of_code : ℕ → ItemStatus
of_code n =
    if n == 0
    then ItemStatus.planned
    else if n == 1
    then ItemStatus.vanished
    else if n == 2
    then ItemStatus.fetched
    else if n == 3
    then ItemStatus.hash_mismatch
    else if n == 4
    then ItemStatus.verified
    else if n == 5
    then ItemStatus.confirmed
    else if n == 6
    then ItemStatus.confirm_failed
    else ItemStatus.checkpointed

of_code-status_code : (s : ItemStatus) → of_code (status_code s) ≡ s
of_code-status_code ItemStatus.planned = refl
of_code-status_code ItemStatus.vanished = refl
of_code-status_code ItemStatus.fetched = refl
of_code-status_code ItemStatus.hash_mismatch = refl
of_code-status_code ItemStatus.verified = refl
of_code-status_code ItemStatus.confirmed = refl
of_code-status_code ItemStatus.confirm_failed = refl
of_code-status_code ItemStatus.checkpointed = refl

status_code-injective : (s t : ItemStatus) → status_code s ≡ status_code t → s ≡ t
status_code-injective s t e = sym (of_code-status_code s) ∙ ap of_code e ∙ of_code-status_code t

pub in_batch-status :
    (batch_id : ℕ) (status : ItemStatus) (i : BatchItem)
    → in_batch batch_id status i ≡ true
    → i.status ≡ status
in_batch-status batch_id status i t = status_code-injective i.status status (ground (arith, t))

-- The row of an item that was read lists what the item lists.
abbrev pub Agrees : List BatchItem → BatchItem → Type 0
Agrees rows r =
    (i : BatchItem)
    → In i rows
    → is_item r.batch_id r.path_lower i ≡ true
    → (i.size ≡ r.size) × (i.content_hash ≡ r.content_hash)

pub set_item_hashed-Sound :
    (sha256 sha1 : Sha) (r : BatchItem) (a b : Text) (db : Db)
    → Agrees db.batch_items r
    → IsContent sha256 sha1 r.size r.content_hash a b
    → Sound sha256 sha1 db
    → Sound sha256 sha1 (set_item r.batch_id r.path_lower (hashed a b) db)
unfolding set_item
set_item_hashed-Sound sha256 sha1 r a b db agrees c =
    map-Sound sha256 sha1 (set_at r.batch_id r.path_lower (hashed a b)) db
      (set_at-KeepsListing r.batch_id r.path_lower (hashed a b))
      (λ i m h. elim (Bool-cases (is_item r.batch_id r.path_lower i)) [
        | inl t ↦
            let g = agrees i m t in
            rw t (λ trusted. (a, b, refl, refl, (c.0, c.1 ∙ sym (g.0), c.2 ∙ sym (g.1), c.3, c.4)))
        | inr n ↦ rw n h
      ])

pub set_item-Agrees :
    (batch_id : ℕ) (path_lower : Text) (s : Setting) (db : Db) (r : BatchItem)
    → Agrees db.batch_items r
    → Agrees (set_item batch_id path_lower s db).batch_items r
unfolding set_item
set_item-Agrees batch_id path_lower s db r agrees j m t =
    let (i, mi, e) = In-map (set_at batch_id path_lower s) j db.batch_items m in
    let same = set_at-KeepsListing batch_id path_lower s i in
    let g = agrees i mi (
      subst (λ (p : ℕ × Text). ((p.0 == r.batch_id) && (p.1 == r.path_lower)) ≡ true)
        (ap (λ (x : BatchItem). (x.batch_id, x.path_lower)) e
          ∙ ap₂ (λ x y. (x, y)) (same.0) (same.1))
        t) in
    (
      ap (λ (x : BatchItem). x.size) e ∙ same.2 ∙ g.0,
      ap (λ (x : BatchItem). x.content_hash) e ∙ same.3 ∙ g.1,
    )

-- The rows that a step reads agree with the table.
pub items-Agrees :
    (batch_id : ℕ) (status : ItemStatus) (db : Db)
    → IsKeyed db.batch_items
    → (r : BatchItem) → In r (items batch_id status db)
    → Agrees db.batch_items r
unfolding items
items-Agrees batch_id status db keyed r m i mi t =
    let mr =
      (In-keep (in_batch batch_id status) r db.batch_items (
        In-sort_by (λ (x : BatchItem). x.path_lower) r
          (keep (in_batch batch_id status) db.batch_items) m)).0 in
    let k = same_item i r t in keyed i r mi mr (k.0) (k.1)

pub move_all-Sound :
    (sha256 sha1 : Sha) (batch_id : ℕ) (old new : ItemStatus) (db : Db)
    → (is_trusted new ≡ true → is_trusted old ≡ true)
    → Sound sha256 sha1 db
    → Sound sha256 sha1 (move_all batch_id old new db)
unfolding move_all
move_all-Sound sha256 sha1 batch_id old new db keeps =
    map-Sound sha256 sha1 (change_status batch_id old new) db
      (λ i. elim (Bool-cases (in_batch batch_id old i)) [
        | inl t ↦ rw t (refl, refl, refl, refl)
        | inr n ↦ rw n (refl, refl, refl, refl)
      ])
      (λ i m h. elim (Bool-cases (in_batch batch_id old i)) [
        | inl t ↦
            rw t (λ trusted. h (ap is_trusted (in_batch-status batch_id old i t) ∙ keeps trusted))
        | inr n ↦ rw n h
      ])
