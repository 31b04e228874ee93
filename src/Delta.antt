-- ===== src/Delta.antt =====
-- src/migrator/phases/p20_delta.py: the difference between the Dropbox listing and the mirror.
pub mod Display
pub mod Rows
pub mod Exact
use dropbox_mirror.Base.{
  ℕ, zero, suc, ◌+◌, ◌-◌, ◌*◌, ◌≤◌, ◌<◌, min, max, Bool, true, false, ◌&&◌, ◌||◌, not, Option, none,
  some, List, [], ◌∷◌, ◌++◌, map, sum, length, keep, any, all, find, concat, In, All, Text, codes,
  ◌==◌, nat_eq, text_eq, option_eq, nat_beq_iff, text_iff, if◌then◌else◌, ltb, leb, ok, err, Result,
  ◌>>=◌, guard, ◌>>◌, ◌≡◌, ◌≢◌, refl, sym, ap, subst, ◌∙◌, ◌⊎◌, inl, inr, arith, Bool-cases,
}
use dropbox_mirror.Base.Sort.{sort_by}
use dropbox_mirror.Delta.Display.{lookup, display_paths}
use dropbox_mirror.Failure.{integrity, listing_under_floor, inventory_not_run, key_missing, Outcome}
use dropbox_mirror.Plan.Run.{or_zero, is_listed}
use dropbox_mirror.State.Runs.{current_run}
use dropbox_mirror.State.Tables.{DeltaDeleted, MirrorObject, Db, DropboxObject, DeltaChanged}

-- The share of the mirrored files that the listing must have, which the
-- configuration gives as a ratio, is a function of their number.
unfoldable pub listing_floor : (ℕ → ℕ) → ℕ → ℕ
listing_floor scaled mirrored = max 1 (scaled mirrored)

unfoldable pub under_floor : (ℕ → ℕ) → ℕ → ℕ → Bool
unfolding listing_floor
under_floor scaled mirrored listed = ltb 0 mirrored && ltb listed (listing_floor scaled mirrored)

abbrev pub mirror_at : Text → MirrorObject → Bool
mirror_at path_lower m = m.path_lower == path_lower

-- `m.path_lower IS NULL OR m.size != d.size OR m.content_hash != d.content_hash`, for the row of
-- the mirror that the join finds.
abbrev pub differs : ℕ → Text → Option MirrorObject → Bool
differs size content_hash none = true
differs size content_hash (some m) = not (m.size == size) || not (m.content_hash == content_hash)

-- A comparison with NULL is not true, so a row without a path matches no mirrored one.
abbrev pub joined : Option Text → List MirrorObject → Option MirrorObject
joined none mirror = none
joined (some path_lower) mirror = find (mirror_at path_lower) mirror

abbrev differs_row : Option Text → Option ℕ → Option Text → List MirrorObject → Bool
differs_row path_lower (some size) (some content_hash) mirror =
    differs size content_hash (joined path_lower mirror)
differs_row path_lower _ _ mirror = false

-- The WHERE of the SELECT.
abbrev pub is_changed : ℕ → List MirrorObject → DropboxObject → Bool
is_changed inventory_id mirror d =
    is_listed (some inventory_id) d && differs_row d.path_lower d.size d.content_hash mirror

abbrev text_or_none : Option Text → Text
text_or_none none = []
text_or_none (some s) = s

unfoldable pub changed_objects : ℕ → Db → List DropboxObject
changed_objects inventory_id db =
    sort_by (λ (d : DropboxObject). text_or_none d.path_lower)
      (keep (is_changed inventory_id db.mirror) db.objects)

-- PRIMARY KEY(run_id, path_lower)
abbrev pub changed_taken : ℕ → Text → List DeltaChanged → Bool
changed_taken run_id path_lower rows =
    any (λ (r : DeltaChanged). (r.run_id == run_id) && (r.path_lower == path_lower)) rows

abbrev pub with_display :
    ℕ → Text → ℕ → Text → Option Text → List DeltaChanged → Outcome (List DeltaChanged)
with_display run_id path_lower size content_hash none rows = err key_missing
with_display run_id path_lower size content_hash (some path_display) rows =
    if changed_taken run_id path_lower rows
    then err integrity
    else ok (
        rows
        ++ (record {
          run_id = run_id;
          path_lower = path_lower;
          path_display = path_display;
          size = size;
          content_hash = content_hash;
        }
            ∷ []))

-- NOT NULL on the path; the size and the hash are there, or the row was not selected.
abbrev pub insert_row :
    ℕ
    → List (Text × Text)
    → Option Text
    → Option ℕ
    → Option Text
    → List DeltaChanged
    → Outcome (List DeltaChanged)
insert_row run_id display (some path_lower) (some size) (some content_hash) rows =
    with_display run_id path_lower size content_hash (lookup path_lower display) rows
insert_row run_id display _ _ _ rows = err integrity

unfoldable pub insert_changed :
    ℕ → List (Text × Text) → List DropboxObject → List DeltaChanged → Outcome (List DeltaChanged)
insert_changed run_id display [] rows = ok rows
insert_changed run_id display (d ∷ objects) rows =
    insert_row run_id display d.path_lower d.size d.content_hash rows
    >>= insert_changed run_id display objects

-- `EXISTS (SELECT 1 ...)`
abbrev pub is_present : ℕ → List DropboxObject → Text → Bool
is_present inventory_id objects path_lower =
    any
      (λ (d : DropboxObject). is_listed (some inventory_id) d && (d.path_lower == some path_lower))
      objects

abbrev pub deleted_row : ℕ → MirrorObject → DeltaDeleted
deleted_row run_id m = record {
  run_id = run_id;
  path_lower = m.path_lower;
  path_display = m.path_display;
  proton_uid = m.proton_uid;
}

unfoldable pub deleted_rows : ℕ → ℕ → Db → List DeltaDeleted
deleted_rows run_id inventory_id db =
    map (deleted_row run_id)
      (keep (λ (m : MirrorObject). not (is_present inventory_id db.objects m.path_lower)) db.mirror)

pub record DeltaOutputs : Type 0 where
  pub changed_files : ℕ
  pub changed_bytes : ℕ
  pub deleted_files : ℕ
  pub listed_files : ℕ
  pub mirrored_files : ℕ

-- `if inventory_id is None: raise`
abbrev pub inventory_or : Option ℕ → Outcome ℕ
inventory_or none = err inventory_not_run
inventory_or (some id) = ok id

-- The two tables are emptied, for all runs, and filled. Nothing is written if a statement raises.
unfoldable pub run : (ℕ → ℕ) → (Text → Text) → ℕ → Db → Outcome (DeltaOutputs × Db)
unfolding current_run under_floor display_paths changed_objects insert_changed deleted_rows
run scaled nfc run_id db = do
  r ← current_run db
  inventory_id ← inventory_or r.inventory_id
  let listed = length (keep (is_listed (some inventory_id)) db.objects)
  let mirrored = length db.mirror
  guard (not (under_floor scaled mirrored listed)) listing_under_floor
  let changed = changed_objects inventory_id db
  rows ← insert_changed run_id (display_paths nfc inventory_id db) changed []
  let deleted = deleted_rows run_id inventory_id db
  ok (
    record {
      changed_files = length changed;
      changed_bytes = sum (map (λ (d : DropboxObject). or_zero d.size) changed);
      deleted_files = length deleted;
      listed_files = listed;
      mirrored_files = mirrored;
    },
    record db { delta_changed = rows; delta_deleted = deleted },
  )
