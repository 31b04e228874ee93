-- ===== src/Inventory.antt =====
-- src/migrator/phases/p10_inventory.py: the phase that lists Dropbox. The access token and the listing
-- (Dropbox.Inventory) are an argument, and the log line is left out, as is the raw answer of an
-- entry, which the phase blanks.
pub mod Newest
pub mod Spelled
use dropbox_mirror.Base.{
  drop, is_some, ℕ, zero, suc, ◌+◌, ◌-◌, ◌*◌, ◌≤◌, ◌<◌, min, max, Bool, true, false, ◌&&◌, ◌||◌,
  not, Option, none, some, List, [], ◌∷◌, ◌++◌, map, sum, length, keep, any, all, find, concat, In,
  All, Text, codes, ◌==◌, nat_eq, text_eq, option_eq, nat_beq_iff, text_iff, if◌then◌else◌, ltb,
  leb, ok, err, Result, ◌>>=◌, guard, ◌>>◌, ◌≡◌, ◌≢◌, refl, sym, ap, subst, ◌∙◌, ◌⊎◌, inl, inr,
  arith, Bool-cases,
}
use dropbox_mirror.Base.Strings.{join, lstrip, split}
use dropbox_mirror.Failure.{Outcome}
use dropbox_mirror.Proton.Names.{slash}
use dropbox_mirror.State.Runs.{Assign, update_run}
use dropbox_mirror.State.Tables.{Db, Tag, DropboxPage, DropboxObject, InventoryRun}

-- `ORDER BY id DESC`
unfoldable pub insert_desc : ℕ → List ℕ → List ℕ
insert_desc n [] = n ∷ []
insert_desc n (m ∷ ids) = let rest = insert_desc n ids in if leb m n then n ∷ m ∷ ids else m ∷ rest

unfoldable pub sort_desc : List ℕ → List ℕ
unfolding insert_desc
sort_desc [] = []
sort_desc (n ∷ ids) = insert_desc n (sort_desc ids)

abbrev pub id_of : InventoryRun → ℕ
id_of r = r.id

abbrev pub is_one_of : List ℕ → ℕ → Bool
is_one_of ids id = any (λ (n : ℕ). n == id) ids

-- `LIMIT -1 OFFSET keep`
unfoldable pub stale_ids : ℕ → Db → List ℕ
unfolding sort_desc
stale_ids kept db = drop kept (sort_desc (map id_of db.inventory_runs))

-- `prune_inventories`: how many listings were pruned, and the database.
unfoldable pub prune_inventories : ℕ → Db → ℕ × Db
unfolding stale_ids keep any
prune_inventories kept db =
    let stale = stale_ids kept db in
    (
      length stale,
      record db {
        objects = keep (λ (o : DropboxObject). not (is_one_of stale o.inventory_id)) db.objects;
        pages = keep (λ (p : DropboxPage). not (is_one_of stale p.inventory_id)) db.pages;
        inventory_runs = keep (λ (r : InventoryRun). not (is_one_of stale r.id)) db.inventory_runs;
      },
    )

-- `str(value)` of a nullable text.
abbrev pub str_or_none : Option Text → Text
str_or_none none = codes "None"
str_or_none (some s) = s

abbrev is_folder_tag : Tag → Bool
is_folder_tag Tag.folder = true
is_folder_tag _ = false

abbrev is_file_tag : Tag → Bool
is_file_tag Tag.file = true
is_file_tag _ = false

abbrev pub or_else : Option Text → Option Text → Option Text
or_else (some s) other = some s
or_else none other = other

-- `folder_names.get(prefix)`: of two rows with the same path the later one counts.
unfoldable pub folder_name : List DropboxObject → Text → Option Text
folder_name [] prefix = none
folder_name (o ∷ rows) prefix =
    let later = folder_name rows prefix in
    or_else later
      (if is_folder_tag o.tag && (str_or_none o.path_lower == prefix) then some o.name else none)

abbrev pub name_or : Option Text → Text → Text
name_or none display = display
name_or (some name) display = name

-- The spelling of the parents: all parts but the last.
unfoldable pub rebuilt_parents : (Text → Option Text) → Text → List Text → List Text → List Text
rebuilt_parents names prefix (lower ∷ next ∷ lowers) (display ∷ displays) =
    let path = prefix ++ (slash ∷ lower) in
    name_or (names path) display ∷ rebuilt_parents names path (next ∷ lowers) displays
rebuilt_parents names prefix lowers displays = []

abbrev parts_of : Option Text → List Text
parts_of path = split slash (lstrip slash (str_or_none path))

-- `if len(display_parts) != len(lower_parts): display_parts = lower_parts`
abbrev same_length : List Text → List Text → List Text
same_length lowers displays = if length displays == length lowers then displays else lowers

unfoldable pub rebuilt_path : (Text → Option Text) → DropboxObject → Text
unfolding rebuilt_parents split lstrip join
rebuilt_path names o =
    let lowers = parts_of o.path_lower in
    slash
    ∷ join slash (
        rebuilt_parents names [] lowers (same_length lowers (parts_of o.path_display))
        ++ (o.name ∷ []))

abbrev of_inventory : ℕ → DropboxObject → Bool
of_inventory inventory_id o = o.inventory_id == inventory_id

abbrev respell : (Text → Option Text) → ℕ → DropboxObject → DropboxObject
respell names inventory_id o =
    if of_inventory inventory_id o && not (rebuilt_path names o == str_or_none o.path_display)
    then record o { path_display = some (rebuilt_path names o) }
    else o

-- `recase_display_paths`: how many rows were updated, and the database.
unfoldable pub recase_display_paths : ℕ → Db → ℕ × Db
unfolding keep folder_name rebuilt_path
recase_display_paths inventory_id db =
    let rows = keep (of_inventory inventory_id) db.objects in
    let names = folder_name rows in
    (
      length (
          keep (λ (o : DropboxObject). not (rebuilt_path names o == str_or_none o.path_display))
            rows),
      record db { objects = map (respell names inventory_id) db.objects },
    )

-- A listed file that cannot be verified.
abbrev is_unhashed : ℕ → DropboxObject → Bool
is_unhashed inventory_id o =
    of_inventory inventory_id o
    && is_file_tag o.tag
    && o.is_downloadable
    && (not (is_some o.content_hash) || not (is_some o.size))

unfoldable pub skip_unhashed : ℕ → Db → ℕ × Db
unfolding keep
skip_unhashed inventory_id db = (
  length (keep (is_unhashed inventory_id) db.objects),
  record db {
    objects =
        map
          (λ (o : DropboxObject).
            if is_unhashed inventory_id o then record o { is_downloadable = false } else o)
          db.objects;
  },
)

pub record InventoryOutputs : Type 0 where
  pub inventory_id : ℕ
  pub files : ℕ
  pub folders : ℕ
  pub bytes : ℕ
  pub non_downloadable : ℕ
  pub unhashed : ℕ
  pub recased : ℕ
  pub pruned_inventories : ℕ

abbrev is_mirrored : DropboxObject → Bool
is_mirrored o = is_file_tag o.tag && o.is_downloadable

abbrev size_or_zero : DropboxObject → ℕ
size_or_zero o = elim o.size [ none ↦ 0 | some n ↦ n ]

-- The summary of the listing.
unfoldable pub summary_of : ℕ → ℕ → ℕ → ℕ → List DropboxObject → InventoryOutputs
unfolding keep
summary_of inventory_id unhashed recased pruned rows = record {
  inventory_id = inventory_id;
  files = length (keep is_mirrored rows);
  folders = length (keep (λ (o : DropboxObject). is_folder_tag o.tag) rows);
  bytes = sum (map size_or_zero (keep is_mirrored rows));
  non_downloadable =
      length (keep (λ (o : DropboxObject). is_file_tag o.tag && not o.is_downloadable) rows);
  unhashed = unhashed;
  recased = recased;
  pruned_inventories = pruned;
}

-- What the phase asks of its services: the run's id as decimal digits, and the listing of a purpose.
pub record Lister : Type 0 where
  pub digits : ℕ → Text
  pub listing : Text → Db → Outcome ℕ × Db

abbrev summarised : ℕ → ℕ → ℕ → Outcome Db → Db → Outcome InventoryOutputs × Db
summarised inventory_id unhashed recased (err e) db = (err e, db)
summarised inventory_id unhashed recased (ok updated) db =
    let (pruned, after) = prune_inventories 1 updated in
    (
      ok (
          summary_of inventory_id unhashed recased pruned
            (keep (of_inventory inventory_id) updated.objects)),
      after,
    )

-- The phase after the listing.
unfoldable pub end_inventory : ℕ → Outcome ℕ × Db → Outcome InventoryOutputs × Db
unfolding skip_unhashed recase_display_paths prune_inventories summary_of update_run keep
end_inventory run_id (err e, db) = (err e, db)
end_inventory run_id (ok inventory_id, db) =
    let (unhashed, hashed) = skip_unhashed inventory_id db in
    let (recased, spelled) = recase_display_paths inventory_id hashed in
    summarised inventory_id unhashed recased
      (update_run run_id (Assign.inventory_id (some inventory_id) ∷ []) spelled) spelled

-- `run`
unfoldable pub run : Lister → ℕ → Db → Outcome InventoryOutputs × Db
unfolding end_inventory
run lister run_id db =
    end_inventory run_id (lister.listing (codes "run:" ++ lister.digits run_id) db)
