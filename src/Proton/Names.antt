-- ===== src/Proton/Names.antt =====
-- src/migrator/providers/proton_cli.py: the module's functions on names and paths of the CLI.
pub mod Laws
use dropbox_mirror.Base.{
  ℕ, zero, suc, ◌+◌, ◌%◌, Bool, true, false, ◌&&◌, ◌||◌, List, [], ◌∷◌, ◌++◌, if◌then◌else◌, ◌==◌,
  nat_eq, text_eq, Text, codes, Result, ok, err, Option, none, some,
}
use dropbox_mirror.Base.Int.{ℤ}
use dropbox_mirror.Base.Json.{Json, null, str, obj, field_of, get_field, truthy}
use dropbox_mirror.Base.Strings.{rstrip, lstrip, contains_text}
use dropbox_mirror.Failure.{Failure, Outcome, proton_bad_destination}
use mathlib.Core.List.{reverse}

-- A node's field may be `{"ok": bool, "value": ...}`.
unfoldable pub unwrap : Json → Json
unwrap (obj fields) = elim (field_of (codes "ok") fields) [
  | none ↦ obj fields
  | some flag ↦ if truthy flag then get_field (codes "value") fields else null
]
unwrap value = value

-- `str(value)`; what a value that is no text comes to is an argument.
abbrev pub python_str : (Json → Text) → Json → Text
python_str str_of (str s) = s
python_str str_of value = str_of value

-- `str(value or "")`
unfoldable pub text_or_empty : (Json → Text) → Json → Text
unfolding truthy
text_or_empty str_of value = if truthy value then python_str str_of value else []

abbrev pub slash : ℕ
slash = b'/'

abbrev pub backslash : ℕ
backslash = 92

-- `s.replace(c, new)` for one character.
unfoldable pub replace_char : ℕ → Text → Text → Text
replace_char c new [] = []
replace_char c new (x ∷ s) =
    let rest = replace_char c new s in if x == c then new ++ rest else x ∷ rest

unfoldable pub escape_component : Text → Text
unfolding replace_char
escape_component name =
    replace_char slash (backslash ∷ slash ∷ [])
      (replace_char backslash (backslash ∷ backslash ∷ []) name)

-- The `while cursor >= 0` loop, from the character before the slash backwards.
unfoldable pub preceding_backslashes : Text → ℕ
preceding_backslashes [] = 0
preceding_backslashes (x ∷ before) =
    if x == backslash then suc (preceding_backslashes before) else 0

abbrev pub split_at : Text → Text → Outcome (Text × Text)
split_at before [] = err proton_bad_destination
split_at before (c ∷ component) = ok (reverse before, c ∷ component)

-- The `for index` loop: `before` is the path up to the index, backwards, and `component` is what
-- stands behind it. The loop ends above index 0.
unfoldable pub split_loop : Text → Text → Outcome (Text × Text)
unfolding preceding_backslashes
split_loop component [] = err proton_bad_destination
split_loop component (x ∷ []) = err proton_bad_destination
split_loop component (x ∷ y ∷ before) =
    let rest = split_loop (x ∷ component) (y ∷ before) in
    if x == slash
    then (if preceding_backslashes (y ∷ before) % 2 == 0
        then split_at (y ∷ before) component
        else rest)
    else rest

unfoldable pub split_parent_path : Text → Outcome (Text × Text)
unfolding split_loop
split_parent_path path = split_loop [] (reverse path)

unfoldable pub child_cli_path : Text → Text → Text → Bool → Text
unfolding escape_component rstrip
child_cli_path parent_cli_path name uid duplicate =
    rstrip slash parent_cli_path ++ (slash ∷ (if duplicate then uid else escape_component name))

abbrev before_slash : Text → Text
before_slash [] = []
before_slash (x ∷ s) = if x == slash then [] else x ∷ before_slash s

-- `"/" + destination.strip("/").split("/", 1)[0]`
unfoldable pub section_root : Text → Text
unfolding lstrip rstrip
section_root destination = slash ∷ before_slash (rstrip slash (lstrip slash destination))

pub data Category : Type 0 where
  success rate_limit auth timeout : Category
  exit : ℤ → Category

abbrev pub is_success : Category → Bool
is_success success = true
is_success _ = false

abbrev pub is_auth : Category → Bool
is_auth auth = true
is_auth _ = false

-- `_category`: the case folding of Unicode is an argument.
unfoldable pub category : (Text → Text) → Text → ℤ → Category
unfolding contains_text
category casefold stderr returncode =
    let lowered = casefold stderr in
    if contains_text (codes "rate") lowered || contains_text (codes "429") lowered
    then rate_limit
    else if contains_text (codes "auth") lowered || contains_text (codes "login") lowered
    then auth
    else if contains_text (codes "timeout") lowered
    then timeout
    else exit returncode
