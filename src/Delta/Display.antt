-- ===== src/Delta/Display.antt =====
-- src/migrator/phases/p20_delta.py, `display_paths`: the display path of each listed file, its
-- folders spelled as their own entries spell them. Unicode's normal form C is an argument.
use dropbox_mirror.Base.{
  ℕ, zero, suc, ◌+◌, Bool, true, false, ◌&&◌, Option, none, some, List, [], ◌∷◌, ◌++◌, length, keep,
  any, Text, codes, ◌==◌, nat_eq, text_eq, option_eq, if◌then◌else◌,
}
use dropbox_mirror.Base.Strings.{has}
use dropbox_mirror.Plan.Run.{is_listed}
use dropbox_mirror.Proton.Names.{slash}
use dropbox_mirror.State.Tables.{DropboxObject, Tag, Db}

-- `s.rpartition("/")`: what stands before the last slash, and what stands behind it.
unfoldable pub rpartition : Text → Text × Text
unfolding any
rpartition [] = ([], [])
rpartition (x ∷ s) =
    let (before, name) = rpartition s in
    if has slash s then (x ∷ before, name) else if x == slash then ([], s) else ([], x ∷ s)

-- A dict, the latest entry first.
abbrev pub Paths : Type 0
Paths = List (Text × Text)

unfoldable pub lookup : Text → Paths → Option Text
lookup key [] = none
lookup key (p ∷ paths) = if p.0 == key then some (p.1) else lookup key paths

-- `str(value)` of a column.
abbrev pub str_of : Option Text → Text
str_of none = codes "None"
str_of (some s) = s

abbrev is_folder : Tag → Bool
is_folder Tag.folder = true
is_folder _ = false

abbrev in_inventory : ℕ → DropboxObject → Bool
in_inventory inventory_id d = (d.inventory_id == inventory_id) && is_folder d.tag

abbrev add_folder : DropboxObject → Paths → Paths
add_folder d paths = (str_of d.path_lower, str_of d.path_display) ∷ paths

abbrev pub folders_of : List DropboxObject → Paths → Paths
folders_of [] paths = paths
folders_of (d ∷ objects) paths = folders_of objects (add_folder d paths)

-- `memo[lower] = parent_display + "/" + name`
abbrev pub remember : Text → Text → Text × Paths → Text × Paths
remember lower name (parent, memo) =
    let path = parent ++ (slash ∷ name) in (path, (lower, path) ∷ memo)

-- `resolve`, which returns the path and the memo. Each parent is shorter than its child, and the
-- empty path is in the memo from the start, so the length of the path is enough fuel.
abbrev pub found_or : Option Text → Paths → Text × Paths → Text × Paths
found_or (some path) memo computed = (path, memo)
found_or none memo computed = computed

abbrev pub parent_or : Option Text → Text → Paths → (Text → Text × Paths) → Text × Paths
parent_or none display memo go = ((rpartition display).0, memo)
parent_or (some folder_display) display memo go = go folder_display

unfoldable pub resolve : ℕ → Paths → Text → Text → Paths → Text × Paths
unfolding lookup rpartition
resolve zero folders lower display memo = ([], memo)
resolve (suc fuel) folders lower display memo =
    let parent_lower = (rpartition lower).0 in
    found_or (lookup lower memo) memo (
      remember lower ((rpartition display).1) (
        parent_or (lookup parent_lower folders) display memo
          (λ folder_display. resolve fuel folders parent_lower folder_display memo)))

abbrev pub resolve_row : (Text → Text) → Paths → DropboxObject → Paths × Paths → Paths × Paths
resolve_row nfc folders d (result, memo) =
    let lower = str_of d.path_lower in
    let (path, next) = resolve (length lower + 1) folders lower (str_of d.path_display) memo in
    ((lower, nfc path) ∷ result, next)

unfoldable pub resolve_rows :
    (Text → Text) → Paths → List DropboxObject → Paths × Paths → Paths × Paths
unfolding resolve
resolve_rows nfc folders [] s = s
resolve_rows nfc folders (d ∷ objects) s =
    resolve_rows nfc folders objects (resolve_row nfc folders d s)

unfoldable pub display_paths : (Text → Text) → ℕ → Db → Paths
unfolding resolve_rows
display_paths nfc inventory_id db =
    let folders = folders_of (keep (in_inventory inventory_id) db.objects) [] in
    (resolve_rows nfc folders (keep (is_listed (some inventory_id)) db.objects)
      ([], ([], []) ∷ [])).0
