-- ===== src/Dropbox/Inventory/Finished.antt =====
-- The listings of src/migrator/providers/dropbox_api.py: what a complete one means.
use dropbox_mirror.Base.{
  In-keep, ◌>>=◌, ok-injective, >>=-eq-ok, ℕ, zero, suc, ◌+◌, Bool, false, Option, none, some, ◌++◌,
  map, keep, find, In, Text, codes, ◌==◌, nat_eq, text_eq, option_eq, ok, err, ◌≡◌, refl, sym, ap,
  subst, inl, inr, Bool-cases,
}
use dropbox_mirror.Base.Json.{Fields, Json, null, bool, num, str, arr, obj, truthy, get_field}
use dropbox_mirror.Base.Rows.{latest-In, latest}
use dropbox_mirror.Dropbox.Identity.{
  identity, lacks_identifier, fields_of, who_of, identity_of, check_account,
}
use dropbox_mirror.Dropbox.Inventory.{
  call, inventory, identity, identified, open_inventory, request_page, Sent, entries_of, cursor_of,
  page_of, opened_row, list_opened, turn_row, go_on, committed, failed, ended, more, cursor_in,
  is_ours, is_complete, turn, pages, read_page, commit_page, upsert_entries, str, arr, Json,
  Identity, Api, Outcome, Paged, new_inventory, advance, on_run, is_exhausted, InventoryRun, Db,
  key_of, has_id,
}
use dropbox_mirror.Dropbox.Inventory.Kept.{
  is_exhausted-Exhausted, advanced-IsFinished, finish-IsFinished, new_inventory-IsFinished, IsOpen,
  IsFinished,
}
use dropbox_mirror.State.Tables.{WalkStatus}

abbrev PagedFinished : ℕ → Paged → Type 0
PagedFinished id (failed e) = Unit
PagedFinished id (ended db) = IsFinished db
PagedFinished id (more db) = IsFinished db × IsOpen id db

committed-Finished :
    (id : ℕ) (o : Outcome Db)
    → ((db : Db) → o ≡ ok db → IsFinished db × IsOpen id db)
    → PagedFinished id (committed o)
committed-Finished id (err e) h = tt
committed-Finished id (ok db) h = h db refl

cursor_of-str : (cursor : Json) (text : Text) → cursor_of cursor ≡ ok text → cursor ≡ str text
cursor_of-str (str s) text h = ap str (ok-injective h)
cursor_of-str null text h = cc
cursor_of-str (bool b) text h = cc
cursor_of-str (num n) text h = cc
cursor_of-str (arr l) text h = cc
cursor_of-str (obj f) text h = cc

page_of-runs :
    (api : Api) (id page_number : ℕ) (has_more : Bool) (db after : Db) (entries cursor : Json)
    → page_of api id page_number has_more db entries cursor ≡ ok after
    → (text : Text) × (cursor ≡ str text)
      × (after.inventory_runs
          ≡ map (on_run id (advance text has_more page_number)) db.inventory_runs)
unfolding commit_page
page_of-runs api id page_number has_more db after entries cursor h =
    let (items, _, listed) =
      >>=-eq-ok (entries_of entries)
        (λ items.
          cursor_of cursor >>= λ text. commit_page api id page_number items text has_more db)
        h in
    let (text, read, written) =
      >>=-eq-ok (cursor_of cursor) (λ text. commit_page api id page_number items text has_more db)
        listed in
    let (objects, _, e) =
      >>=-eq-ok (upsert_entries api id page_number items db.objects) _ written in
    (text, cursor_of-str cursor text read, ap (λ (x : Db). x.inventory_runs) (sym (ok-injective e)))

-- A page that is committed is an object whose `cursor` is a text, and the row of the listing then
-- has this cursor, and the `has_more` of the object.
pub read_page-runs :
    (api : Api) (id page_number : ℕ) (db after : Db) (result : Json)
    → read_page api id page_number db result ≡ ok after
    → (fields : Fields) × (text : Text) × (result ≡ obj fields)
      × (get_field (codes "cursor") fields ≡ str text)
      × (after.inventory_runs
          ≡ map
              (on_run id (advance text (truthy (get_field (codes "has_more") fields)) page_number))
              db.inventory_runs)
unfolding read_page
read_page-runs api id page_number db after (obj fields) h =
    let (text, read, e) =
      page_of-runs api id page_number (truthy (get_field (codes "has_more") fields)) db after
        (get_field (codes "entries") fields) (get_field (codes "cursor") fields) h in
    (fields, text, refl, read, e)
read_page-runs api id page_number db after null h = cc
read_page-runs api id page_number db after (bool b) h = cc
read_page-runs api id page_number db after (num n) h = cc
read_page-runs api id page_number db after (str s) h = cc
read_page-runs api id page_number db after (arr l) h = cc

turn_row-Finished :
    (api : Api) (post : Option Text → ℕ → Sent) (id : ℕ) (db : Db) (o : Option InventoryRun)
    → find (has_id id) db.inventory_runs ≡ o
    → IsFinished db
    → IsOpen id db
    → PagedFinished id (turn_row api post id db o)
turn_row-Finished api post id db none found c opened = tt
turn_row-Finished api post id db (some r) found c opened = elim (Bool-cases (is_exhausted r)) [
  | inl t ↦ rw t (finish-IsFinished api.now id db r found (is_exhausted-Exhausted r t) c)
  | inr f ↦ rw f (
      committed-Finished id
        (request_page api (post (cursor_in r)) (cursor_in r)
          >>= read_page api id (r.page_count + 1) db)
        (λ after e.
          let (result, _, read) =
            >>=-eq-ok (request_page api (post (cursor_in r)) (cursor_in r))
              (read_page api id (r.page_count + 1) db) e in
          let (fields, text, _, _, runs) =
            read_page-runs api id (r.page_count + 1) db after result read in
          advanced-IsFinished id (r.page_count + 1) text
            (truthy (get_field (codes "has_more") fields)) db after opened c runs))
]

abbrev pub ResultFinished : Option (Outcome ℕ × Db) → Type 0
ResultFinished none = Unit
ResultFinished (some (result, db)) = IsFinished db

go_on-Finished :
    (id : ℕ) (db : Db) (p : Paged) (rest : Db → Option (Outcome ℕ × Db))
    → IsFinished db
    → PagedFinished id p
    → ((after : Db) → IsFinished after → IsOpen id after → ResultFinished (rest after))
    → ResultFinished (go_on id db p rest)
go_on-Finished id db (failed e) rest c h step = c
go_on-Finished id db (ended after) rest c h step = h
go_on-Finished id db (more after) rest c h step = step after h.0 h.1

pages-Finished :
    (api : Api) (posts : ℕ → Option Text → ℕ → Sent) (id fuel round : ℕ) (db : Db)
    → IsFinished db
    → IsOpen id db
    → ResultFinished (pages api posts id fuel round db)
unfolding pages turn
pages-Finished api posts id zero round db c opened = tt
pages-Finished api posts id (suc fuel) round db c opened =
    go_on-Finished id db (turn_row api (posts round) id db (find (has_id id) db.inventory_runs))
      (λ after. pages api posts id fuel (round + 1) after) c
      (turn_row-Finished api (posts round) id db (find (has_id id) db.inventory_runs) refl c opened)
      (λ after ca oa. pages-Finished api posts id fuel (round + 1) after ca oa)

opened_row-Finished :
    (api : Api) (posts : ℕ → Option Text → ℕ → Sent) (who : Identity) (purpose : Text)
    (reuse_complete : Bool) (fuel : ℕ) (db : Db) (o : Option InventoryRun)
    → latest key_of (keep (is_ours who purpose) db.inventory_runs) ≡ o
    → IsFinished db
    → ResultFinished
        (list_opened api posts fuel db (opened_row api who purpose reuse_complete db o))
opened_row-Finished api posts who purpose reuse fuel db none found c =
    let (id, after) = new_inventory api who purpose db in
    let (finished, opened) = new_inventory-IsFinished api who purpose db c in
    pages-Finished api posts id fuel 0 after finished opened
opened_row-Finished api posts who purpose reuse fuel db (some r) found c =
    let (id, after) = new_inventory api who purpose db in
    let (finished, opened) = new_inventory-IsFinished api who purpose db c in
    elim (Bool-cases (is_complete r.status)) [
      | inl t ↦ rw t (elim (Bool-cases reuse) [
        | inl y ↦ rw y c
        | inr n ↦ rw n (pages-Finished api posts id fuel 0 after finished opened)
      ])
      | inr f ↦ rw f (
          pages-Finished api posts r.id fuel 0 db c (λ s ms this.
            let mr =
              (In-keep (is_ours who purpose) r db.inventory_runs
                (latest-In key_of (keep (is_ours who purpose) db.inventory_runs) r found)).0 in
            subst (λ (x : InventoryRun). x.status ≡ WalkStatus.running)
              (sym (c.unique s r ms mr this)) (not_complete r.status f)))
    ]
  where
    not_complete : (status : WalkStatus) → is_complete status ≡ false → status ≡ WalkStatus.running
    not_complete WalkStatus.running h = refl
    not_complete WalkStatus.complete h = cc

check_account-runs :
    (api : Api) (operation : Text) (who : Identity) (db : Db)
    → (check_account api operation who db).1.inventory_runs ≡ db.inventory_runs
unfolding check_account
check_account-runs api operation who db =
    elim (Bool-cases (api.expected_account_id == who.account_id)) [
      | inl t ↦ rw t refl
      | inr f ↦ rw f refl
    ]

pub identity-runs :
    (api : Api) (operation : Text) (o : Outcome Json) (db : Db)
    → (identity_of api operation o db).1.inventory_runs ≡ db.inventory_runs
unfolding identity_of
identity-runs api operation (err e) db = refl
identity-runs api operation (ok raw) db =
    let who = who_of api (fields_of raw) in
    elim (Bool-cases (lacks_identifier who)) [
      | inl t ↦ rw t refl
      | inr f ↦ rw f (check_account-runs api operation who db)
    ]

IsFinished-same :
    (db after : Db) → after.inventory_runs ≡ db.inventory_runs → IsFinished db → IsFinished after
IsFinished-same db after e c = record {
  unique = λ r s mr ms. c.unique r s (subst (In r) e mr) (subst (In s) e ms);
  exhausted = λ r mr complete. c.exhausted r (subst (In r) e mr) complete;
}

identified-Finished :
    (api : Api) (posts : ℕ → Option Text → ℕ → Sent) (purpose : Text) (reuse_complete : Bool)
    (fuel : ℕ) (o : Outcome Identity) (db : Db)
    → IsFinished db
    → ResultFinished (identified api posts purpose reuse_complete fuel (o, db))
unfolding open_inventory
identified-Finished api posts purpose reuse fuel (err e) db c = c
identified-Finished api posts purpose reuse fuel (ok who) db c =
    opened_row-Finished api posts who purpose reuse fuel db
      (latest key_of (keep (is_ours who purpose) db.inventory_runs)) refl c

pub inventory-ResultFinished :
    (api : Api) (account : ℕ → Sent) (posts : ℕ → Option Text → ℕ → Sent) (purpose : Text)
    (reuse_complete : Bool) (fuel : ℕ) (db : Db)
    → IsFinished db
    → ResultFinished (inventory api account posts purpose reuse_complete fuel db)
unfolding inventory identity
inventory-ResultFinished api account posts purpose reuse fuel db c =
    let operation = codes "inventory:" ++ purpose in
    let answer = (call api.http account).outcome in
    identified-Finished api posts purpose reuse fuel (identity_of api operation answer db).0
      (identity_of api operation answer db).1
      (IsFinished-same db (identity_of api operation answer db).1
        (identity-runs api operation answer db) c)
