-- ===== src/Proton/Listing.antt =====
-- src/migrator/providers/proton_cli.py: the calls that list a folder and return JSON, `_parse`,
-- `_json_command`, `root_uid`, `list_folder` and `version`, with the rows they leave in the
-- database. The JSON parser and `str` of a value that is no text are arguments.
pub mod Resolved
use dropbox_mirror.Base.{
  ℕ, zero, Bool, false, Option, none, some, List, [], ◌∷◌, Text, codes, ◌==◌, nat_eq, text_eq,
  option_eq, if◌then◌else◌, ok, err, ◌>>=◌,
}
use dropbox_mirror.Base.Int.{pos, ℤ}
use dropbox_mirror.Base.Json.{nil, item, arr, obj, str, end, field, get_field, Items, Json, Fields}
use dropbox_mirror.Failure.{
  proton_wrong_uid, proton_not_array, proton_retries, proton_version, proton_not_one_folder,
  proton_auth, proton_json, Outcome,
}
use dropbox_mirror.Proton.Invoke.{timed_out, exited, invoke, Invoked, Attempt, Call}
use dropbox_mirror.Proton.Mutation.{category_text}
use dropbox_mirror.Proton.Names.{
  text_or_empty, escape_component, is_auth, unwrap, split_parent_path,
}
use dropbox_mirror.State.Records.{
  record_identity_observation, record_command_end, record_command_start,
}
use dropbox_mirror.State.Tables.{Db}

-- What the provider reads: the configuration, the executable, the clock, the case folding, the
-- JSON parser. The calls of the executable depend on the arguments and on the attempt.
pub record Reader : Type 0 where
  pub executable : Text
  pub destination : Text
  pub expected_destination_uid : Text
  pub list_max_attempts : ℕ
  pub initial_backoff : ℕ
  pub maximum_backoff : ℕ
  pub now : Text
  pub call : List Text → ℕ → Call
  pub casefold : Text → Text
  pub digits : ℤ → Text
  pub loads : Text → Option Json
  pub str_of : Json → Text

-- `made[-1]`
unfoldable pub last_attempt : List Attempt → Option Attempt
last_attempt [] = none
last_attempt (a ∷ []) = some a
last_attempt (a ∷ b ∷ made) = last_attempt (b ∷ made)

abbrev pub is_auth_attempt : Option Attempt → Bool
is_auth_attempt none = false
is_auth_attempt (some a) = is_auth a.category

abbrev loaded : Option Json → Outcome Json
loaded none = err proton_json
loaded (some value) = ok value

-- `_parse`
unfoldable pub parse : Reader → Invoked → Outcome Json
unfolding last_attempt
parse reader i = parsed i.stdout
  where
    parsed : Option Text → Outcome Json
    parsed none =
        if is_auth_attempt (last_attempt i.made) then err proton_auth else err proton_retries
    parsed (some stdout) = loaded (reader.loads stdout)

-- The rows of `commands` for the attempts of a call, in `_json_command` written around each attempt
-- and in `_record` after the last one.
unfoldable pub record_attempts : Reader → Text → List Text → List Attempt → Db → Db
unfolding record_command_start record_command_end
record_attempts reader operation argv [] db = db
record_attempts reader operation argv (a ∷ made) db =
    let (command_id, started) =
      record_command_start reader.now (codes "proton") operation argv a.attempt db in
    record_attempts reader operation argv made (
      record_command_end reader.now command_id a.returncode (category_text reader.digits a.category)
        started)

unfoldable pub invoke_list : Reader → List Text → Invoked
unfolding invoke
invoke_list reader argv =
    invoke reader.casefold (reader.call argv) reader.initial_backoff reader.maximum_backoff
      reader.list_max_attempts

-- `_json_command`, which only listings use.
unfoldable pub json_command : Reader → Text → List Text → Db → Outcome Json × Db
unfolding invoke_list parse record_attempts
json_command reader operation argv db =
    let i = invoke_list reader argv in
    (parse reader i, record_attempts reader operation argv i.made db)

abbrev pub list_argv : Reader → Text → List Text
list_argv reader path =
    reader.executable ∷ codes "filesystem" ∷ codes "list" ∷ codes "-j" ∷ path ∷ []

-- `isinstance(listing, list)`
abbrev pub array_of : Json → Outcome Items
array_of (arr items) = ok items
array_of _ = err proton_not_array

unfoldable pub list_folder : Reader → Text → Db → Outcome Items × Db
unfolding json_command
list_folder reader path db =
    let (answer, after) =
      json_command reader (codes "filesystem_list") (list_argv reader path) db in
    (answer >>= array_of, after)

-- An entry with a textual name that is the last component of the destination when escaped.
unfoldable pub has_escaped_name : Text → Json → Bool
unfolding unwrap escape_component get_field
has_escaped_name escaped (obj fields) = is_escaped (unwrap (get_field (codes "name") fields))
  where
    is_escaped : Json → Bool
    is_escaped (str s) = escape_component s == escaped
    is_escaped _ = false
has_escaped_name escaped _ = false

-- `[node for node in listing if ...]`
unfoldable pub named_entries : Text → Items → List Fields
unfolding has_escaped_name
named_entries escaped nil = []
named_entries escaped (item (obj fields) items) =
    let rest = named_entries escaped items in
    if has_escaped_name escaped (obj fields) then fields ∷ rest else rest
named_entries escaped (item value items) = named_entries escaped items

unfoldable pub is_folder_entry : Fields → Bool
unfolding unwrap get_field
is_folder_entry fields = is_folder_text (unwrap (get_field (codes "type") fields))
  where
    is_folder_text : Json → Bool
    is_folder_text (str s) = s == codes "folder"
    is_folder_text _ = false

-- `len(matches) != 1 or unwrap(matches[0].get("type")) != "folder"`
unfoldable pub only_folder : List Fields → Outcome Fields
unfolding is_folder_entry
only_folder (fields ∷ []) = if is_folder_entry fields then ok fields else err proton_not_one_folder
only_folder _ = err proton_not_one_folder

-- `observed`, recorded with the configured one whether they match or not.
unfoldable pub check_uid : Reader → Text → Fields → Db → Outcome Text × Db
unfolding unwrap get_field text_or_empty record_identity_observation
check_uid reader phase fields db =
    let observed = text_or_empty reader.str_of (unwrap (get_field (codes "uid") fields)) in
    let matched = observed == reader.expected_destination_uid in
    let recorded =
      record_identity_observation reader.now (codes "proton") phase reader.expected_destination_uid
        observed matched (obj (field (codes "destination") (str reader.destination) end)) db in
    if matched then (ok observed, recorded) else (err proton_wrong_uid, recorded)

abbrev pub check_found : Reader → Text → Outcome Fields → Db → Outcome Text × Db
check_found reader phase (ok fields) db = check_uid reader phase fields db
check_found reader phase (err e) db = (err e, db)

unfoldable pub check_listing : Reader → Text → Text → Outcome Items → Db → Outcome Text × Db
unfolding named_entries only_folder check_uid
check_listing reader phase escaped_name listing db =
    check_found reader phase (listing >>= λ items. only_folder (named_entries escaped_name items))
      db

abbrev pub list_parent : Reader → Text → Db → Outcome Json × Db
list_parent reader parent_path db =
    json_command reader (codes "filesystem_list_destination_parent") (list_argv reader parent_path)
      db

abbrev pub resolve : Reader → Text → Db → Outcome (Text × Text) → Outcome Text × Db
resolve reader phase db (err e) = (err e, db)
resolve reader phase db (ok (parent_path, escaped_name)) =
    let (answer, after) = list_parent reader parent_path db in
    check_listing reader phase escaped_name (answer >>= array_of) after

-- `root_uid`
unfoldable pub root_uid : Reader → Text → Db → Outcome Text × Db
unfolding split_parent_path json_command check_listing
root_uid reader phase db = resolve reader phase db (split_parent_path reader.destination)

-- `version`: what the call comes to, and `str.strip`, are arguments.
unfoldable pub version : (Text → Text) → Call → Outcome Text
version strip timed_out = err proton_version
version strip (exited (pos zero) stdout stderr) = ok (strip stdout)
version strip (exited code stdout stderr) = err proton_version
