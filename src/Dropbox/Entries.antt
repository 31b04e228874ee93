-- ===== src/Dropbox/Entries.antt =====
-- src/migrator/providers/dropbox_api.py, `_upsert_entry`: the row of an entry of a listing. The comparison
-- key, the case folding and `str` of a JSON value that is no text are arguments; columns that
-- nothing reads are left out, and a value of another type than its column's is read as NULL.
use dropbox_mirror.Base.{
  ◌>>=◌, ℕ, Bool, true, ◌&&◌, Option, none, some, List, [], ◌∷◌, ◌++◌, map, any, Text, codes, ◌==◌,
  nat_eq, text_eq, option_eq, if◌then◌else◌, ok, err,
}
use dropbox_mirror.Base.Json.{
  Json, null, obj, str, num, Items, nil, item, Fields, has_field, get_field, truthy,
}
use dropbox_mirror.Dropbox.Requests.{Http}
use dropbox_mirror.Dropbox.Scope.{scope_relative}
use dropbox_mirror.Failure.{Outcome, Failure}
use dropbox_mirror.Proton.Names.{python_str}
use dropbox_mirror.State.Tables.{DropboxObject, Tag}

pub record Api : Type 0 where
  pub http : Http
  pub root : Text
  pub expected_account_id : Text
  pub now : Text
  pub casefold : Text → Text
  pub comparison_key : Text → Text
  pub str_of : Json → Text

-- A value of `entry.get(key)` that may be None.
abbrev pub optional_text : Api → Json → Option Text
optional_text api null = none
optional_text api value = some (python_str api.str_of value)

abbrev as_size : Json → Option ℕ
as_size (num n) = some n
as_size _ = none

abbrev as_column : Json → Option Text
as_column (str s) = some s
as_column _ = none

-- `str(entry.get(key, ""))`
abbrev text_field : Api → Text → Fields → Text
text_field api key entry =
    if has_field key entry then python_str api.str_of (get_field key entry) else []

abbrev tag_named : Text → Tag
tag_named name =
    if name == codes "file"
    then Tag.file
    else if name == codes "folder"
    then Tag.folder
    else Tag.other

-- `str(path_lower or f"@id:{object_id}")`
abbrev object_key_of : Api → Option Text → Json → Text
object_key_of api (some (c ∷ path)) id = c ∷ path
object_key_of api _ id = codes "@id:" ++ python_str api.str_of id

abbrev first_text : Option Text → Text → Text
first_text (some (c ∷ path)) otherwise = c ∷ path
first_text _ otherwise = otherwise

-- `bool(entry.get("is_downloadable", True))`
abbrev downloadable : Fields → Bool
downloadable entry =
    if has_field (codes "is_downloadable") entry
    then truthy (get_field (codes "is_downloadable") entry)
    else true

-- The row that would be inserted.
unfoldable pub object_of : Api → ℕ → ℕ → Fields → Option Text → Option Text → DropboxObject
unfolding get_field has_field truthy
object_of api inventory_id page_number entry path_display path_lower =
    let id = get_field (codes "id") entry in
    let object_key = object_key_of api path_lower id in
    record {
      inventory_id = inventory_id;
      object_key = object_key;
      tag = tag_named (text_field api (codes ".tag") entry);
      name = text_field api (codes "name") entry;
      path_display = path_display;
      path_lower = path_lower;
      comparison_key =
          api.comparison_key (first_text path_lower (first_text path_display object_key));
      dropbox_id = as_column id;
      revision = as_column (get_field (codes "rev") entry);
      size = as_size (get_field (codes "size") entry);
      content_hash = as_column (get_field (codes "content_hash") entry);
      is_downloadable = downloadable entry;
      first_page = page_number;
      last_page = page_number;
    }

abbrev pub same_object : DropboxObject → DropboxObject → Bool
same_object new old = (old.inventory_id == new.inventory_id) && (old.object_key == new.object_key)

abbrev replace_object : DropboxObject → DropboxObject → DropboxObject
replace_object new old =
    if same_object new old then record new { first_page = old.first_page } else old

-- `ON CONFLICT(inventory_id, object_key) DO UPDATE`: the first page stays.
unfoldable pub upsert : DropboxObject → List DropboxObject → List DropboxObject
unfolding any
upsert new objects =
    if any (same_object new) objects
    then map (replace_object new) objects
    else objects ++ (new ∷ [])

unfoldable pub upsert_entry :
    Api → ℕ → ℕ → Fields → List DropboxObject → Outcome (List DropboxObject)
unfolding scope_relative object_of upsert get_field
upsert_entry api inventory_id page_number entry objects =
    scope_relative api.casefold api.root
      (optional_text api (get_field (codes "path_display") entry))
    >>= λ path_display.
        scope_relative api.casefold api.root
          (optional_text api (get_field (codes "path_lower") entry))
        >>= λ path_lower.
            ok (
              upsert (object_of api inventory_id page_number entry path_display path_lower) objects)

-- `for entry in entries`; the code fails on an entry that is no object.
unfoldable pub upsert_entries :
    Api → ℕ → ℕ → Items → List DropboxObject → Outcome (List DropboxObject)
unfolding upsert_entry
upsert_entries api inventory_id page_number nil objects = ok objects
upsert_entries api inventory_id page_number (item (obj entry) entries) objects =
    upsert_entry api inventory_id page_number entry objects >>= λ after.
    upsert_entries api inventory_id page_number entries after
upsert_entries api inventory_id page_number (item value entries) objects = err Failure.other
