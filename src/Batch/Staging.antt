-- ===== src/Batch/Staging.antt =====
-- src/migrator/phases/batch.py: the staging directory, which is laid out by display path, and what
-- the steps share. A path under staging is the text of its parts; two display paths with the same
-- parts are one file.
use dropbox_mirror.Base.{
  ℕ, Bool, ◌&&◌, not, Option, none, some, List, [], ◌∷◌, ◌++◌, map, keep, any, Text, codes, ◌==◌,
  nat_eq, text_eq, option_eq, if◌then◌else◌,
}
use dropbox_mirror.Base.Sort.{sort_by}
use dropbox_mirror.Base.Strings.{rstrip, join, split}
use dropbox_mirror.Proton.Names.{escape_component, slash}

abbrev dot : Text
dot = codes "."

-- The parts of a `PurePosixPath`, its root left out.
unfoldable pub path_parts : Text → List Text
unfolding split
path_parts path = keep (λ (p : Text). not (p == []) && not (p == dot)) (split slash path)

abbrev pub last_part : List Text → Text
last_part [] = []
last_part (p ∷ []) = p
last_part (p ∷ q ∷ ps) = last_part (q ∷ ps)

-- `PurePosixPath(path).name`
unfoldable pub base_name : Text → Text
unfolding path_parts
base_name path = last_part (path_parts path)

abbrev pub parents_of : List Text → List Text
parents_of [] = []
parents_of (p ∷ []) = []
parents_of (p ∷ q ∷ ps) = p ∷ parents_of (q ∷ ps)

-- The folders above a file, nearest last: `a`, `a/b` for `a/b/name`.
abbrev pub prefixes : List Text → List Text → List Text
prefixes above [] = []
prefixes above (p ∷ ps) = join slash (above ++ (p ∷ [])) ∷ prefixes (above ++ (p ∷ [])) ps

unfoldable pub folders_above : Text → List Text
unfolding path_parts join
folders_above path = prefixes [] (parents_of (path_parts path))

-- `local_path`, as a path relative to staging.
unfoldable pub local_path : Text → Text
unfolding path_parts join
local_path path_display = join slash (path_parts path_display)

abbrev escaped : List Text → List Text
escaped ps = map escape_component ps

abbrev below : Text → List Text → Text
below root [] = root
below root (p ∷ ps) = root ++ (slash ∷ join slash (escaped (p ∷ ps)))

unfoldable pub parent_cli_path : Text → Text → Text
unfolding path_parts join rstrip escape_component
parent_cli_path destination path_display =
    below (rstrip slash destination) (parents_of (path_parts path_display))

pub record Staging : Type 0 where
  pub files : List (Text × List ℕ)
  pub folders : List Text

abbrev pub no_files : Staging
no_files = record { files = []; folders = [] }

abbrev pub name_of : Text × List ℕ → Text
name_of f = f.0

-- A file that is there is overwritten.
abbrev pub put_file : Text → List ℕ → List (Text × List ℕ) → List (Text × List ℕ)
put_file name bytes [] = (name, bytes) ∷ []
put_file name bytes (f ∷ files) =
    if name_of f == name then (name, bytes) ∷ files else f ∷ put_file name bytes files

abbrev pub missing_from : List Text → Text → Bool
missing_from folders folder = not (any (λ (f : Text). f == folder) folders)

-- `mkdir(parents=True, exist_ok=True)` for a file's parent.
unfoldable pub make_parents : Text → Staging → Staging
unfolding folders_above
make_parents path s = record s {
  folders = s.folders ++ keep (missing_from s.folders) (folders_above path);
}

unfoldable pub write_file : Text → List ℕ → Staging → Staging
unfolding local_path
write_file path_display bytes s = record s {
  files = put_file (local_path path_display) bytes s.files;
}

-- The bytes of a file; none when `open` would raise FileNotFoundError.
abbrev pub lookup_file : Text → List (Text × List ℕ) → Option (List ℕ)
lookup_file name [] = none
lookup_file name (f ∷ files) = if name_of f == name then some (f.1) else lookup_file name files

unfoldable pub read_file : Text → Staging → Option (List ℕ)
unfolding local_path
read_file path_display s = lookup_file (local_path path_display) s.files

unfoldable pub unlink : Text → Staging → Staging
unfolding local_path
unlink path_display s = record s {
  files = keep (λ (f : Text × List ℕ). not (name_of f == local_path path_display)) s.files;
}

abbrev pub holds_file : List (Text × List ℕ) → Text → Bool
holds_file files folder =
    any (λ (f : Text × List ℕ). any (λ (a : Text). a == folder) (folders_above (name_of f))) files

-- `_prune_empty_dirs`: bottom up, so a folder goes when no file stands anywhere below it.
unfoldable pub prune_empty_dirs : Staging → Staging
unfolding folders_above
prune_empty_dirs s = record s { folders = keep (holds_file s.files) s.folders }

abbrev pub first_part : List Text → Text
first_part [] = []
first_part (p ∷ ps) = p

abbrev pub add_name : Text → List Text → List Text
add_name name names = if missing_from names name then name ∷ names else names

abbrev pub distinct : List Text → List Text
distinct [] = []
distinct (n ∷ names) = add_name n (distinct names)

abbrev identity : Text → Text
identity name = name

-- `sorted(staging.iterdir())`
unfoldable pub top_level : Staging → List Text
unfolding path_parts
top_level s =
    sort_by identity
      (distinct (map (λ (p : Text). first_part (path_parts p)) (s.folders ++ map name_of s.files)))
