-- ===== src/Dropbox/Scope.antt =====
-- src/migrator/guards.py, the guard on the configured folder of Dropbox, and `_scope_relative` of
-- src/migrator/providers/dropbox_api.py. The case folding of Unicode is an argument.
pub mod Inside
use dropbox_mirror.Base.{
  drop, ◌>>◌, Bool, ◌&&◌, ◌||◌, not, Option, none, some, List, [], ◌∷◌, any, Text, codes, ◌==◌,
  nat_eq, text_eq, option_eq, if◌then◌else◌, ok, err, guard,
}
use dropbox_mirror.Base.Strings.{lstrip, starts_with, join, split, has}
use dropbox_mirror.Failure.{unsafe_path, dropbox_scope, Outcome}
use dropbox_mirror.Proton.Names.{slash}
use dropbox_mirror.Proton.Snapshots.{map_outcome}

-- `any(part in {"", ".", ".."} for part in parts)`
abbrev is_unsafe : Text → Bool
is_unsafe part = (part == []) || (part == codes ".") || (part == codes "..")

abbrev pub unsafe_parts : List Text → Bool
unsafe_parts parts = any is_unsafe parts

abbrev pub has_unsafe_character : Text → Bool
has_unsafe_character value = has 0 value || has 92 value || has 58 value

-- `value.split("/") if value else []`
abbrev pub parts_of : Text → List Text
parts_of [] = []
parts_of (c ∷ value) = split slash (c ∷ value)

unfoldable pub validate_dropbox_scope : Text → Outcome Text
unfolding split join any starts_with
validate_dropbox_scope value =
    guard (not (has_unsafe_character value)) unsafe_path
    >> guard (not (starts_with (slash ∷ []) value)) unsafe_path
    >> guard (not (unsafe_parts (parts_of value))) unsafe_path
    >> ok (join slash (parts_of value))

abbrev with_slash : Text → Text
with_slash [] = []
with_slash (c ∷ scope) = slash ∷ c ∷ scope

unfoldable pub dropbox_api_scope : Text → Outcome Text
unfolding validate_dropbox_scope
dropbox_api_scope value = map_outcome with_slash (validate_dropbox_scope value)

-- `validate_proton_cli_path`
unfoldable pub validate_proton_cli_path : Text → Outcome Text
unfolding split join any starts_with
validate_proton_cli_path value =
    let raw_parts = drop 1 (split slash value) in
    guard (starts_with (slash ∷ []) value && not (has 0 value)) unsafe_path
    >> guard (not (unsafe_parts raw_parts)) unsafe_path
    >> ok (slash ∷ join slash raw_parts)

-- `safe_relative_path`: the parts of the path.
unfoldable pub safe_relative_path : Text → Outcome (List Text)
unfolding split any starts_with
safe_relative_path value =
    guard (not ((value == []) || starts_with (slash ∷ []) value || has 0 value || has 92 value))
      unsafe_path
    >> guard (not (unsafe_parts (split slash value))) unsafe_path
    >> ok (split slash value)

-- The part of a path below the scope; `none` is a path outside.
unfoldable pub below : (Text → Text) → List Text → List Text → Option (List Text)
below casefold [] [] = none
below casefold [] (part ∷ actual) = some (part ∷ actual)
below casefold (segment ∷ expected) [] = none
below casefold (segment ∷ expected) (part ∷ actual) =
    let rest = below casefold expected actual in
    if casefold part == casefold segment then rest else none

abbrev pub rooted : Option (List Text) → Outcome (Option Text)
rooted none = err dropbox_scope
rooted (some parts) = ok (some (slash ∷ join slash parts))

-- `_scope_relative` of a path that is there.
unfoldable pub relative_path : (Text → Text) → Text → Text → Outcome (Option Text)
unfolding below split join lstrip
relative_path casefold [] path = ok (some path)
relative_path casefold (c ∷ scope) path =
    rooted (below casefold (split slash (c ∷ scope)) (split slash (lstrip slash path)))

unfoldable pub scope_relative : (Text → Text) → Text → Option Text → Outcome (Option Text)
unfolding relative_path
scope_relative casefold scope none = ok none
scope_relative casefold scope (some path) = relative_path casefold scope path
