-- ===== src/Delta/Exact.antt =====
-- src/migrator/phases/p20_delta.py: the computed delta, its rows and its floor.
use dropbox_mirror.Base.{
  ◌↔◌, find-true, find-In, text_iff, nat_beq_iff, find, find_of_In, any_of_In, text_beq_refl,
  ok-injective, In-map, In-keep_of, In-keep, guard-eq-ok, >>=-eq-ok, ℕ, ◌≤◌, ◌<◌, Bool, true, false,
  ◌&&◌, not, Option, none, some, List, [], length, keep, In, Text, ◌==◌, nat_eq, text_eq, option_eq,
  ok, ◌≡◌, ◌≢◌, refl, sym, ap, subst, ◌∙◌, inl, inr, arith, Bool-cases,
}
use dropbox_mirror.Base.Sort.{In-sort_by, In-sort_by_of}
use dropbox_mirror.Batch.Recorded.{Holds}
use dropbox_mirror.Delta.{
  listing_floor, run, is_present, display_paths, text_or_none, insert_changed, is_listed, differs,
  joined, mirror_at, deleted_row, under_floor, MirrorObject, DeltaChanged, is_changed, current_run,
  DeltaDeleted, DeltaOutputs, DropboxObject, changed_objects, inventory_or, deleted_rows,
}
use dropbox_mirror.Delta.Rows.{insert_changed_complete, insert_changed_sound, Matches}
use dropbox_mirror.Plan.Run.{is_file}
use dropbox_mirror.State.Tables.{Run, Db, Tag}
use mathlib.Core.Option.{some-injective}

-- What a delta that was computed went through.
pub record Computed (scaled : ℕ → ℕ) (nfc : Text → Text) (run_id : ℕ) (db after : Db)
    (out : DeltaOutputs) : Type 0 where
  pub current : Run
  pub inventory_id : ℕ
  pub in_progress : current_run db ≡ ok current
  pub inventory : current.inventory_id ≡ some inventory_id
  pub above_floor :
      under_floor scaled
        (length db.mirror)
        (length (keep (is_listed (some inventory_id)) db.objects))
      ≡ false
  pub inserted :
      insert_changed run_id (display_paths nfc inventory_id db) (changed_objects inventory_id db) []
      ≡ ok after.delta_changed
  pub listed : out.listed_files ≡ length (keep (is_listed (some inventory_id)) db.objects)
  pub deleted : after.delta_deleted ≡ deleted_rows run_id inventory_id db

inventory_or-eq : (o : Option ℕ) (id : ℕ) → inventory_or o ≡ ok id → o ≡ some id
inventory_or-eq none id h = cc
inventory_or-eq (some n) id h = cc

not-true : (b : Bool) → not b ≡ true → b ≡ false
not-true true h = cc
not-true false h = refl

pub run-Computed :
    (scaled : ℕ → ℕ) (nfc : Text → Text) (run_id : ℕ) (db after : Db) (out : DeltaOutputs)
    → run scaled nfc run_id db ≡ ok (out, after)
    → Computed scaled nfc run_id db after out
unfolding run
run-Computed scaled nfc run_id db after out h =
    let (r, e1, h1) = >>=-eq-ok (current_run db) _ h in
    let (id, e2, h2) = >>=-eq-ok (inventory_or r.inventory_id) _ h1 in
    let (e3, h3) = guard-eq-ok _ _ _ h2 in
    let (rows, e4, h4) =
      >>=-eq-ok (insert_changed run_id (display_paths nfc id db) (changed_objects id db) []) _ h3 in
    record {
      current = r;
      inventory_id = id;
      in_progress = e1;
      inventory = inventory_or-eq r.inventory_id id e2;
      above_floor = not-true _ e3;
      inserted = e4 ∙ ap ok (ap (λ (p : DeltaOutputs × Db). p.1.delta_changed) (ok-injective h4));
      deleted = sym (ap (λ (p : DeltaOutputs × Db). p.1.delta_deleted) (ok-injective h4));
      listed = sym (ap (λ (p : DeltaOutputs × Db). p.0.listed_files) (ok-injective h4));
    }

In-changed_objects :
    (inventory_id : ℕ) (db : Db) (d : DropboxObject)
    → In d (changed_objects inventory_id db)
    → In d db.objects × (is_changed inventory_id db.mirror d ≡ true)
unfolding changed_objects
In-changed_objects inventory_id db d m = In-keep (is_changed inventory_id db.mirror) d db.objects (
    In-sort_by (λ (x : DropboxObject). text_or_none x.path_lower) d
      (keep (is_changed inventory_id db.mirror) db.objects) m)

In-changed_objects_of :
    (inventory_id : ℕ) (db : Db) (d : DropboxObject)
    → In d db.objects
    → is_changed inventory_id db.mirror d ≡ true
    → In d (changed_objects inventory_id db)
unfolding changed_objects
In-changed_objects_of inventory_id db d m t =
    In-sort_by_of (λ (x : DropboxObject). text_or_none x.path_lower) d
      (keep (is_changed inventory_id db.mirror) db.objects)
      (In-keep_of (is_changed inventory_id db.mirror) d db.objects m t)

is_changed_listed :
    (id : ℕ) (mirror : List MirrorObject) (d : DropboxObject)
    → is_changed id mirror d ≡ true
    → is_listed (some id) d ≡ true
is_changed_listed id mirror d t = elim (Bool-cases (is_listed (some id) d)) [
  | inl y ↦ y
  | inr n ↦ cc (rw n at t)
]

-- A file of the listing that the migration can download.
abbrev pub Downloadable : ℕ → DropboxObject → Type 0
Downloadable id d = (d.inventory_id ≡ id) × (d.tag ≡ Tag.file) × (d.is_downloadable ≡ true)

-- The paths of the mirror are its primary key.
abbrev pub HasUniquePaths : List MirrorObject → Type 0
HasUniquePaths mirror =
    (m n : MirrorObject) → In m mirror → In n mirror → m.path_lower ≡ n.path_lower → m ≡ n

file_tag : (t : Tag) → is_file t ≡ true → t ≡ Tag.file
file_tag Tag.file h = refl
file_tag _ h = cc

is_listed_iff : (id : ℕ) (d : DropboxObject) → (is_listed (some id) d ≡ true) ↔ Downloadable id d
is_listed_iff id d = (
  λ t. (
    ground (arith, t, nat_beq_iff d.inventory_id id),
    file_tag d.tag (ground (arith, t)),
    ground (arith, t),
  ),
  λ l. rw (l.1, l.2, (nat_beq_iff d.inventory_id id).1 l.0) refl,
)

-- A row that the mirror holds is the one that the join finds.
differs_held :
    (mirror : List MirrorObject) (p : Text) (s : ℕ) (h : Text)
    → HasUniquePaths mirror
    → Holds mirror p s h
    → differs s h (joined (some p) mirror) ≡ false
differs_held mirror p s h keyed (m, mm, ep, es, eh) =
    let (n, found, mn, t) = find_of_In (mirror_at p) m mirror mm ((text_iff m.path_lower p).1 ep) in
    let same : n ≡ m = keyed n m mn mm ((text_iff n.path_lower p).0 t ∙ sym ep) in
    rw (found, same, (nat_beq_iff m.size s).1 es, (text_iff m.content_hash h).1 eh) refl

differs_found :
    (mirror : List MirrorObject) (p : Text) (s : ℕ) (h : Text) (o : Option MirrorObject)
    → find (mirror_at p) mirror ≡ o
    → ¬ Holds mirror p s h
    → differs s h o ≡ true
differs_found mirror p s h none found lacks = refl
differs_found mirror p s h (some m) found lacks = elim (Bool-cases (m.size == s)) [
  | inr n ↦ rw n refl
  | inl t ↦ elim (Bool-cases (m.content_hash == h)) [
    | inr n ↦ rw (t, n) refl
    | inl u ↦ absurd (
        lacks (
          m,
          find-In (mirror_at p) mirror m found,
          (text_iff m.path_lower p).0 (find-true (mirror_at p) mirror m found),
          (nat_beq_iff m.size s).0 t,
          (text_iff m.content_hash h).0 u,
        ))
  ]
]

-- When the delta is computed and the paths of the mirror are unique, each row of `delta_changed` is
-- made of a downloadable file that the run's inventory lists, with its path, size and content hash,
-- and no row of the mirror has that path, that size and that content hash.
pub run-changed_listed :
    (scaled : ℕ → ℕ) (nfc : Text → Text) (run_id : ℕ) (db after : Db) (out : DeltaOutputs)
    → run scaled nfc run_id db ≡ ok (out, after)
    → HasUniquePaths db.mirror
    → (c : DeltaChanged) → In c after.delta_changed
    → (r : Run) × (id : ℕ) × (current_run db ≡ ok r)
      × (r.inventory_id ≡ some id)
      × (d : DropboxObject) × In d db.objects
      × Downloadable id d
      × Matches run_id d c
      × ¬ Holds db.mirror c.path_lower c.size c.content_hash
run-changed_listed scaled nfc run_id db after out h keyed c m =
    let k = run-Computed scaled nfc run_id db after out h in
    let display = display_paths nfc k.inventory_id db in
    let objects = changed_objects k.inventory_id db in
    elim (insert_changed_sound run_id display objects [] after.delta_changed c k.inserted m) [
      | inl none_before ↦ elim none_before [ ]
      | inr (d, md, found) ↦
          let (mo, t) = In-changed_objects k.inventory_id db d md in
          let listed = is_changed_listed k.inventory_id db.mirror d t in
          (
            k.current,
            k.inventory_id,
            k.in_progress,
            k.inventory,
            d,
            mo,
            (is_listed_iff k.inventory_id d).0 listed,
            found,
            λ held.
                let same = differs_held db.mirror c.path_lower c.size c.content_hash keyed held in
                cc (rw (listed, found.1, found.2, found.3, same) at t),
          )
    ]

-- When the delta is computed, every downloadable file that the run's inventory lists with a path, a
-- size and a content hash has a row in `delta_changed`, unless the mirror has a row of that path,
-- that size and that content hash: a new file and a modified one are never left out.
pub run-changed_complete :
    (scaled : ℕ → ℕ) (nfc : Text → Text) (run_id : ℕ) (db after : Db) (out : DeltaOutputs)
    → run scaled nfc run_id db ≡ ok (out, after)
    → (r : Run) (id : ℕ) → current_run db ≡ ok r
    → r.inventory_id ≡ some id
    → (d : DropboxObject) (p : Text) (s : ℕ) (hash : Text) → In d db.objects
    → Downloadable id d
    → d.path_lower ≡ some p
    → d.size ≡ some s
    → d.content_hash ≡ some hash
    → ¬ Holds db.mirror p s hash
    → (c : DeltaChanged) × In c after.delta_changed × Matches run_id d c
run-changed_complete scaled nfc run_id db after out h r id in_progress inventory d p s hash m l ep
      es eh lacks =
    let k = run-Computed scaled nfc run_id db after out h in
    let same_run : r ≡ k.current = ok-injective (sym in_progress ∙ k.in_progress) in
    let same : id ≡ k.inventory_id =
      some-injective id k.inventory_id
        (sym inventory ∙ ap (λ (x : Run). x.inventory_id) same_run ∙ k.inventory) in
    let t : is_changed id db.mirror d ≡ true =
      rw
        (
          (is_listed_iff id d).1 l,
          ep,
          es,
          eh,
          differs_found db.mirror p s hash (find (mirror_at p) db.mirror) refl lacks,
        )
        refl in
    insert_changed_complete run_id (display_paths nfc k.inventory_id db)
      (changed_objects k.inventory_id db) [] after.delta_changed d k.inserted
      (In-changed_objects_of k.inventory_id db d m
        (subst (λ n. is_changed n db.mirror d ≡ true) same t))

listed_at :
    (id : ℕ) (d : DropboxObject) (path : Text)
    → is_listed (some id) d ≡ true
    → d.path_lower ≡ some path
    → (is_listed (some id) d && (d.path_lower == some path)) ≡ true
listed_at id d path t e = rw (t, e, text_beq_refl path)

floor_parts :
    (scaled : ℕ → ℕ) (mirrored listed : ℕ)
    → under_floor scaled mirrored listed ≡ false
    → 0 < mirrored
    → (1 ≤ listed) × (scaled mirrored ≤ listed)
unfolding under_floor listing_floor
floor_parts scaled mirrored listed f some_mirrored = ground (arith, f, some_mirrored)

In-deleted_rows :
    (run_id inventory_id : ℕ) (db : Db) (x : DeltaDeleted)
    → In x (deleted_rows run_id inventory_id db)
    → (m : MirrorObject) × In m db.mirror
      × (x ≡ deleted_row run_id m)
      × (is_present inventory_id db.objects x.path_lower ≡ false)
unfolding deleted_rows
In-deleted_rows run_id inventory_id db x h =
    let gone = λ (m : MirrorObject). not (is_present inventory_id db.objects m.path_lower) in
    let (m, mk, e) = In-map (deleted_row run_id) x (keep gone db.mirror) h in
    let (mm, t) = In-keep gone m db.mirror mk in
    (m, mm, e, rw e (not-true (is_present inventory_id db.objects m.path_lower) t))

-- When the delta is computed, no path is both in `delta_changed` and in `delta_deleted`: what is
-- uploaded in a run is not trashed in it.
pub run-disjoint :
    (scaled : ℕ → ℕ) (nfc : Text → Text) (run_id : ℕ) (db after : Db) (out : DeltaOutputs)
    → run scaled nfc run_id db ≡ ok (out, after)
    → (c : DeltaChanged) (x : DeltaDeleted) → In c after.delta_changed
    → In x after.delta_deleted
    → c.path_lower ≢ x.path_lower
run-disjoint scaled nfc run_id db after out h c x mc mx same =
    let k = run-Computed scaled nfc run_id db after out h in
    let id = k.inventory_id in
    let (m, mm, shape, gone) = In-deleted_rows run_id id db x (subst (In x) k.deleted mx) in
    elim (insert_changed_sound run_id (display_paths nfc id db) (changed_objects id db) []
      after.delta_changed c k.inserted mc) [
        | inl none_before ↦ elim none_before [ ]
        | inr (d, md, found) ↦
            let (mo, t) = In-changed_objects id db d md in
            let present : is_present id db.objects x.path_lower ≡ true =
              any_of_In
                (λ (y : DropboxObject).
                  is_listed (some id) y && (y.path_lower == some x.path_lower))
                d db.objects mo
                (listed_at id d x.path_lower (is_changed_listed id db.mirror d t)
                  (found.1 ∙ ap some same)) in
            ground (arith, present, gone)
      ]

-- A listing under the floor is refused: when the delta is computed and files are mirrored, at least
-- one file is listed, and at least the share that the configuration asks for.
pub run-above_floor :
    (scaled : ℕ → ℕ) (nfc : Text → Text) (run_id : ℕ) (db after : Db) (out : DeltaOutputs)
    → run scaled nfc run_id db ≡ ok (out, after)
    → 0 < length db.mirror
    → (1 ≤ out.listed_files) × (scaled (length db.mirror) ≤ out.listed_files)
run-above_floor scaled nfc run_id db after out h some_mirrored =
    let k = run-Computed scaled nfc run_id db after out h in
    rw k.listed (
      floor_parts scaled (length db.mirror)
        (length (keep (is_listed (some k.inventory_id)) db.objects)) k.above_floor some_mirrored)
