-- ===== src/Dropbox/Inventory.antt =====
-- src/migrator/providers/dropbox_api.py: the paged listing of `inventory`. Each page is one
-- transaction with the cursor behind it, so that a listing that was cut short goes on from there.
pub mod Kept
pub mod Finished
pub mod Ended
use dropbox_mirror.Base.{
  is_some, ◌>>=◌, ◌>>◌, ℕ, zero, suc, ◌+◌, ◌-◌, ◌*◌, ◌≤◌, ◌<◌, min, max, Bool, true, false, ◌&&◌,
  ◌||◌, not, Option, none, some, List, [], ◌∷◌, ◌++◌, map, sum, length, keep, any, all, find,
  concat, In, All, Text, codes, ◌==◌, nat_eq, text_eq, option_eq, nat_beq_iff, text_iff,
  if◌then◌else◌, ltb, leb, ok, err, Result, guard, ◌≡◌, ◌≢◌, refl, sym, ap, subst, ◌∙◌, ◌⊎◌, inl,
  inr, arith, Bool-cases,
}
use dropbox_mirror.Base.Json.{
  Json, null, obj, str, num, arr, Items, nil, item, Fields, end, field, has_field, get_field,
  truthy,
}
use dropbox_mirror.Base.Rows.{next_id, latest}
use dropbox_mirror.Dropbox.Entries.{Api, upsert_entries}
use dropbox_mirror.Dropbox.Identity.{Identity, identity}
use dropbox_mirror.Dropbox.Requests.{Sent, call}
use dropbox_mirror.Dropbox.Scope.{dropbox_api_scope}
use dropbox_mirror.Failure.{dropbox_list, dropbox_identity, dropbox_account, Outcome, Failure}
use dropbox_mirror.Proton.Names.{python_str}
use dropbox_mirror.State.Records.{record_identity_observation}
use dropbox_mirror.State.Tables.{Db, InventoryRun, Migration, Tag, WalkStatus}

abbrev pub key_of : InventoryRun → ℕ
key_of r = r.id

abbrev pub is_ours : Identity → Text → InventoryRun → Bool
is_ours identity purpose r =
    (r.account_id == identity.account_id)
    && (r.root_namespace_id == identity.root_namespace_id)
    && (r.purpose == purpose)

abbrev pub is_complete : WalkStatus → Bool
is_complete WalkStatus.complete = true
is_complete WalkStatus.running = false

abbrev pub has_id : ℕ → InventoryRun → Bool
has_id id r = r.id == id

unfoldable pub new_inventory : Api → Identity → Text → Db → ℕ × Db
new_inventory api identity purpose db =
    let id = next_id key_of db.inventory_runs in
    (
      id,
      record db {
        inventory_runs =
            db.inventory_runs
            ++ (record {
              id = id;
              started_at = api.now;
              completed_at = none;
              status = WalkStatus.running;
              account_id = identity.account_id;
              root_namespace_id = identity.root_namespace_id;
              purpose = purpose;
              cursor = none;
              has_more = none;
              page_count = 0;
            }
                ∷ []);
      },
    )

-- The listing to reuse, or the one to go on with.
pub data Opened : Type 0 where
  reused : ℕ → Opened
  listing : ℕ → Db → Opened

abbrev pub listing_of : ℕ × Db → Opened
listing_of (id, db) = listing id db

abbrev pub opened_row : Api → Identity → Text → Bool → Db → Option InventoryRun → Opened
opened_row api identity purpose reuse_complete db none =
    listing_of (new_inventory api identity purpose db)
opened_row api identity purpose reuse_complete db (some r) =
    if is_complete r.status
    then (if reuse_complete
        then reused r.id
        else listing_of (new_inventory api identity purpose db))
    else listing r.id db

unfoldable pub open_inventory : Api → Identity → Text → Bool → Db → Opened
unfolding latest keep new_inventory
open_inventory api identity purpose reuse_complete db =
    opened_row api identity purpose reuse_complete db
      (latest key_of (keep (is_ours identity purpose) db.inventory_runs))

-- `cursor_in`, where None and the empty text are no cursor.
abbrev pub nonempty : Option Text → Option Text
nonempty (some (c ∷ cursor)) = some (c ∷ cursor)
nonempty _ = none

abbrev pub cursor_in : InventoryRun → Option Text
cursor_in r = nonempty r.cursor

abbrev pub said_no_more : Option Bool → Bool
said_no_more (some false) = true
said_no_more _ = false

-- `cursor_in and has_more == 0`
abbrev pub is_exhausted : InventoryRun → Bool
is_exhausted r = is_some (cursor_in r) && said_no_more r.has_more

abbrev pub on_run : ℕ → (InventoryRun → InventoryRun) → InventoryRun → InventoryRun
on_run id change r = if has_id id r then change r else r

abbrev pub finish : Text → InventoryRun → InventoryRun
finish now r = record r { status = WalkStatus.complete; completed_at = some now }

abbrev pub advance : Text → Bool → ℕ → InventoryRun → InventoryRun
advance cursor has_more page_number r = record r {
  cursor = some cursor;
  has_more = some has_more;
  page_count = page_number;
}

-- The number of entries.
unfoldable pub count : Items → ℕ
count nil = 0
count (item value items) = suc (count items)

-- The transaction of a page.
unfoldable pub commit_page : Api → ℕ → ℕ → Items → Text → Bool → Db → Outcome Db
unfolding upsert_entries count
commit_page api id page_number entries cursor has_more db =
    upsert_entries api id page_number entries db.objects >>= λ objects. ok (record db {
      objects = objects;
      pages =
          db.pages
          ++ (record {
            inventory_id = id;
            page_number = page_number;
            cursor_out = cursor;
            entry_count = count entries;
            committed_at = api.now;
          }
              ∷ []);
      inventory_runs = map (on_run id (advance cursor has_more page_number)) db.inventory_runs;
    })

abbrev pub entries_of : Json → Outcome Items
entries_of (arr entries) = ok entries
entries_of _ = err dropbox_list

abbrev pub cursor_of : Json → Outcome Text
cursor_of (str cursor) = ok cursor
cursor_of _ = err dropbox_list

-- `entries` and `cursor` of a result.
abbrev pub page_of : Api → ℕ → ℕ → Bool → Db → Json → Json → Outcome Db
page_of api id page_number has_more db entries cursor = entries_of entries >>= λ items.
    cursor_of cursor >>= λ text. commit_page api id page_number items text has_more db

unfoldable pub read_page : Api → ℕ → ℕ → Db → Json → Outcome Db
unfolding commit_page get_field truthy
read_page api id page_number db (obj result) =
    page_of api id page_number (truthy (get_field (codes "has_more") result)) db
      (get_field (codes "entries") result) (get_field (codes "cursor") result)
read_page api id page_number db result = err Failure.other

-- `files/list_folder/continue` with a cursor, or `files/list_folder` of the scope.
unfoldable pub request_page : Api → (ℕ → Sent) → Option Text → Outcome Json
unfolding call dropbox_api_scope
request_page api post none = dropbox_api_scope api.root >>= λ _. (call api.http post).outcome
request_page api post (some cursor) = (call api.http post).outcome

-- One turn of the loop: an error, the end, or a page more.
pub data Paged : Type 0 where
  failed : Failure → Paged
  ended more : Db → Paged

abbrev pub committed : Outcome Db → Paged
committed (err e) = failed e
committed (ok db) = more db

abbrev pub turn_row : Api → (Option Text → ℕ → Sent) → ℕ → Db → Option InventoryRun → Paged
turn_row api post id db none = failed Failure.other
turn_row api post id db (some r) =
    if is_exhausted r
    then ended (record db { inventory_runs = map (on_run id (finish api.now)) db.inventory_runs })
    else committed (
        request_page api (post (cursor_in r)) (cursor_in r)
        >>= read_page api id (r.page_count + 1) db)

unfoldable pub turn : Api → (Option Text → ℕ → Sent) → ℕ → Db → Paged
unfolding find request_page read_page
turn api post id db = turn_row api post id db (find (has_id id) db.inventory_runs)

abbrev pub go_on : ℕ → Db → Paged → (Db → Option (Outcome ℕ × Db)) → Option (Outcome ℕ × Db)
go_on id db (failed e) rest = some (err e, db)
go_on id db (ended after) rest = some (ok id, after)
go_on id db (more after) rest = rest after

-- `while True`, on fuel. What a request comes to may depend on the number of the turn.
unfoldable pub pages : Api → (ℕ → Option Text → ℕ → Sent) → ℕ → ℕ → ℕ → Db → Option (Outcome ℕ × Db)
unfolding turn
pages api posts id zero round db = none
pages api posts id (suc fuel) round db =
    go_on id db (turn api (posts round) id db) (λ after. pages api posts id fuel (round + 1) after)

abbrev pub list_opened :
    Api → (ℕ → Option Text → ℕ → Sent) → ℕ → Db → Opened → Option (Outcome ℕ × Db)
list_opened api posts fuel db (reused id) = some (ok id, db)
list_opened api posts fuel db (listing id after) = pages api posts id fuel 0 after

abbrev pub identified :
    Api
    → (ℕ → Option Text → ℕ → Sent)
    → Text
    → Bool
    → ℕ
    → Outcome Identity × Db
    → Option (Outcome ℕ × Db)
identified api posts purpose reuse_complete fuel (err e, db) = some (err e, db)
identified api posts purpose reuse_complete fuel (ok who, db) =
    list_opened api posts fuel db (open_inventory api who purpose reuse_complete db)

-- `inventory`: the id of the listing and the database; `none` is that the fuel ran out.
unfoldable pub inventory :
    Api → (ℕ → Sent) → (ℕ → Option Text → ℕ → Sent) → Text → Bool → ℕ → Db → Option (Outcome ℕ × Db)
unfolding identity open_inventory pages
inventory api account posts purpose reuse_complete fuel db =
    identified api posts purpose reuse_complete fuel
      (identity api (codes "inventory:" ++ purpose) account db)
