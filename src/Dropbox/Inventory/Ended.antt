-- ===== src/Dropbox/Inventory/Ended.antt =====
-- The listings of src/migrator/providers/dropbox_api.py: that Dropbox itself said that a listing which
-- is complete has no more.
use dropbox_mirror.Base.{
  ◌>>=◌, ℕ, zero, suc, ◌+◌, Bool, false, Option, none, some, ◌++◌, map, keep, find, In, Text, codes,
  nat_eq, text_eq, option_eq, ok, err, ◌≡◌, refl, sym, ap, subst, ◌∙◌, ◌⊎◌, inl, inr, Bool-cases,
  In-map, In-append, >>=-eq-ok,
}
use dropbox_mirror.Base.Json.{Fields, obj, str, truthy, get_field}
use dropbox_mirror.Base.Rows.{latest}
use dropbox_mirror.Dropbox.Entries.{Api}
use dropbox_mirror.Dropbox.Identity.{identity, identity_of}
use dropbox_mirror.Dropbox.Inventory.{
  finish, call, inventory, identity, identified, open_inventory, request_page, Sent, opened_row,
  list_opened, turn_row, go_on, committed, failed, ended, more, cursor_in, is_ours, is_complete,
  turn, pages, read_page, str, Identity, Api, Outcome, Paged, new_inventory, advance, on_run,
  is_exhausted, InventoryRun, Db, key_of, has_id,
}
use dropbox_mirror.Dropbox.Inventory.Finished.{
  ResultFinished, read_page-runs, identity-runs, inventory-ResultFinished,
}
use dropbox_mirror.Dropbox.Inventory.Kept.{IsFinished, on_run-id}
use dropbox_mirror.Dropbox.Requests.{call, Sent}
use mathlib.Core.Option.{some-injective}

-- A cursor of which a row says that there is no more behind it has the property.
abbrev Said : (Text → Type 0) → Db → Type 0
Said P db =
    (r : InventoryRun) (cursor : Text)
    → In r db.inventory_runs
    → r.cursor ≡ some cursor
    → r.has_more ≡ some false
    → P cursor

-- Dropbox answered a request of this listing with this cursor and without more behind it.
abbrev pub EndsAt : Api → (ℕ → Option Text → ℕ → Sent) → Text → Type 0
EndsAt api posts cursor =
    (round : ℕ) × (sent : Option Text) × (result : Fields) × (request_page api (posts round sent)
        sent
      ≡ ok (obj result))
    × (get_field (codes "cursor") result ≡ str cursor)
    × (truthy (get_field (codes "has_more") result) ≡ false)

-- A row had this cursor, with no more behind it.
abbrev pub Known : Db → Text → Type 0
Known db cursor =
    (r : InventoryRun) × In r db.inventory_runs
    × (r.cursor ≡ some cursor)
    × (r.has_more ≡ some false)

advanced-Said :
    (P : Text → Type 0) (id page_number : ℕ) (text : Text) (has_more : Bool) (db after : Db)
    → (has_more ≡ false → P text)
    → after.inventory_runs ≡ map (on_run id (advance text has_more page_number)) db.inventory_runs
    → Said P db
    → Said P after
advanced-Said P id page_number text has_more db after ends e said r cursor mr where_at over =
    let change = advance text has_more page_number in
    let (r', mr', er) = In-map (on_run id change) r db.inventory_runs (subst (In r) e mr) in
    elim (on_run-id id change r') [
      | inl same ↦
          let back : r ≡ r' = er ∙ same in
          said r' cursor mr' (subst (λ (x : InventoryRun). x.cursor ≡ some cursor) back where_at)
            (subst (λ (x : InventoryRun). x.has_more ≡ some false) back over)
      | inr (_, changed) ↦
          let now : r ≡ change r' = er ∙ changed in
          let same : text ≡ cursor =
            some-injective text cursor (sym (ap (λ (x : InventoryRun). x.cursor) now) ∙ where_at) in
          subst P same (
            ends (
              some-injective has_more false
                (sym (ap (λ (x : InventoryRun). x.has_more) now) ∙ over)))
    ]

finish-Said :
    (P : Text → Type 0) (now : Text) (id : ℕ) (db : Db)
    → Said P db
    → Said P (record db { inventory_runs = map (on_run id (finish now)) db.inventory_runs })
finish-Said P now id db said r cursor mr where_at over =
    let (r', mr', er) = In-map (on_run id (finish now)) r db.inventory_runs mr in
    elim (on_run-id id (finish now) r') [
      | inl same ↦
          let back : r ≡ r' = er ∙ same in
          said r' cursor mr' (subst (λ (x : InventoryRun). x.cursor ≡ some cursor) back where_at)
            (subst (λ (x : InventoryRun). x.has_more ≡ some false) back over)
      | inr (_, changed) ↦
          let back : r ≡ finish now r' = er ∙ changed in
          said r' cursor mr' (subst (λ (x : InventoryRun). x.cursor ≡ some cursor) back where_at)
            (subst (λ (x : InventoryRun). x.has_more ≡ some false) back over)
    ]

new_inventory-Said :
    (P : Text → Type 0) (api : Api) (who : Identity) (purpose : Text) (db : Db)
    → Said P db
    → Said P (new_inventory api who purpose db).1
unfolding new_inventory
new_inventory-Said P api who purpose db said r cursor mr where_at over =
    elim (In-append r db.inventory_runs _ mr) [
      | inl old ↦ said r cursor old where_at over
      | inr (inl new) ↦ cc (ap (λ (x : InventoryRun). x.cursor) new, where_at)
      | inr (inr none_left) ↦ absurd none_left
    ]

abbrev PagedSaid : (Text → Type 0) → Paged → Type 0
PagedSaid P (failed e) = Unit
PagedSaid P (ended db) = Said P db
PagedSaid P (more db) = Said P db

abbrev ResultSaid : (Text → Type 0) → Option (Outcome ℕ × Db) → Type 0
ResultSaid P none = Unit
ResultSaid P (some (result, db)) = Said P db

committed-Said :
    (P : Text → Type 0) (o : Outcome Db)
    → ((db : Db) → o ≡ ok db → Said P db)
    → PagedSaid P (committed o)
committed-Said P (err e) h = tt
committed-Said P (ok db) h = h db refl

go_on-Said :
    (P : Text → Type 0) (id : ℕ) (db : Db) (p : Paged) (rest : Db → Option (Outcome ℕ × Db))
    → Said P db
    → PagedSaid P p
    → ((after : Db) → Said P after → ResultSaid P (rest after))
    → ResultSaid P (go_on id db p rest)
go_on-Said P id db (failed e) rest said h step = said
go_on-Said P id db (ended after) rest said h step = h
go_on-Said P id db (more after) rest said h step = step after h

module _ (P : Text → Type 0) (api : Api) (posts : ℕ → Option Text → ℕ → Sent)
    (answers : (cursor : Text) → EndsAt api posts cursor → P cursor) where
  turn_row-Said :
      (round id : ℕ) (db : Db) (o : Option InventoryRun)
      → Said P db
      → PagedSaid P (turn_row api (posts round) id db o)
  turn_row-Said round id db none said = tt
  turn_row-Said round id db (some r) said = elim (Bool-cases (is_exhausted r)) [
    | inl t ↦ rw t (finish-Said P api.now id db said)
    | inr f ↦
        let answer = request_page api (posts round (cursor_in r)) (cursor_in r) in
        rw f (
          committed-Said P (answer >>= read_page api id (r.page_count + 1) db) (λ after e.
            let (result, asked, read) =
              >>=-eq-ok answer (read_page api id (r.page_count + 1) db) e in
            let (fields, text, shape, cursor_at, runs) =
              read_page-runs api id (r.page_count + 1) db after result read in
            advanced-Said P id (r.page_count + 1) text
              (truthy (get_field (codes "has_more") fields)) db after
              (λ over.
                answers text (round, cursor_in r, fields, asked ∙ ap ok shape, cursor_at, over))
              runs said))
  ]

  pages-Said :
      (id fuel round : ℕ) (db : Db) → Said P db → ResultSaid P (pages api posts id fuel round db)
  unfolding pages turn
  pages-Said id zero round db said = tt
  pages-Said id (suc fuel) round db said =
      go_on-Said P id db (turn_row api (posts round) id db (find (has_id id) db.inventory_runs))
        (λ after. pages api posts id fuel (round + 1) after) said
        (turn_row-Said round id db (find (has_id id) db.inventory_runs) said)
        (λ after s. pages-Said id fuel (round + 1) after s)

  opened_row-Said :
      (who : Identity) (purpose : Text) (reuse_complete : Bool) (fuel : ℕ) (db : Db)
      (o : Option InventoryRun)
      → Said P db
      → ResultSaid P
          (list_opened api posts fuel db (opened_row api who purpose reuse_complete db o))
  opened_row-Said who purpose reuse fuel db none said =
      let (id, after) = new_inventory api who purpose db in
      pages-Said id fuel 0 after (new_inventory-Said P api who purpose db said)
  opened_row-Said who purpose reuse fuel db (some r) said =
      let (id, after) = new_inventory api who purpose db in
      elim (Bool-cases (is_complete r.status)) [
        | inl t ↦ rw t (elim (Bool-cases reuse) [
          | inl y ↦ rw y said
          | inr n ↦ rw n (pages-Said id fuel 0 after (new_inventory-Said P api who purpose db said))
        ])
        | inr f ↦ rw f (pages-Said r.id fuel 0 db said)
      ]

  identified-Said :
      (purpose : Text) (reuse_complete : Bool) (fuel : ℕ) (o : Outcome Identity) (db : Db)
      → Said P db
      → ResultSaid P (identified api posts purpose reuse_complete fuel (o, db))
  unfolding open_inventory
  identified-Said purpose reuse fuel (err e) db said = said
  identified-Said purpose reuse fuel (ok who) db said =
      opened_row-Said who purpose reuse fuel db
        (latest key_of (keep (is_ours who purpose) db.inventory_runs)) said

  inventory-ResultSaid :
      (account : ℕ → Sent) (purpose : Text) (reuse_complete : Bool) (fuel : ℕ) (db : Db)
      → Said P db
      → ResultSaid P (inventory api account posts purpose reuse_complete fuel db)
  unfolding inventory identity
  inventory-ResultSaid account purpose reuse fuel db said =
      let operation = codes "inventory:" ++ purpose in
      let answer = (call api.http account).outcome in
      let (o, after) = identity_of api operation answer db in
      identified-Said purpose reuse fuel o after
        (λ r cursor mr. said r cursor (subst (In r) (identity-runs api operation answer db) mr))

-- The inventory keeps the ids of listings unique, and that a COMPLETE listing has a cursor that is
-- not empty and is recorded with no more behind it, whether it reuses, resumes or starts a listing,
-- and also when the account is refused or a page fails. A cursor that is recorded so was recorded
-- so before, or came in an answer of Dropbox to this inventory whose `has_more` was false.
pub inventory-IsFinished :
    (api : Api) (account : ℕ → Sent) (posts : ℕ → Option Text → ℕ → Sent) (purpose : Text)
    (reuse_complete : Bool) (fuel : ℕ) (db after : Db) (result : Outcome ℕ)
    → IsFinished db
    → inventory api account posts purpose reuse_complete fuel db ≡ some (result, after)
    → IsFinished after
      × ((r : InventoryRun) (cursor : Text)
          → In r after.inventory_runs
          → r.cursor ≡ some cursor
          → r.has_more ≡ some false
          → Known db cursor ⊎ EndsAt api posts cursor)
inventory-IsFinished api account posts purpose reuse fuel db after result c h = (
  subst ResultFinished h (inventory-ResultFinished api account posts purpose reuse fuel db c),
  subst (ResultSaid (λ cursor. Known db cursor ⊎ EndsAt api posts cursor)) h (
      inventory-ResultSaid (λ cursor. Known db cursor ⊎ EndsAt api posts cursor) api posts
        (λ cursor ends. inr ends) account purpose reuse fuel db
        (λ r cursor mr where_at over. inl (r, mr, where_at, over))),
)
