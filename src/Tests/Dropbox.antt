-- ===== src/Tests/Dropbox.antt =====
-- Examples of the requests to Dropbox and of a listing of two pages.
use dropbox_mirror.Base.{
  false, ◌⊎◌, inl, sym, In, subst, ◌≤◌, text_beq, ℕ, Bool, true, Option, none, some, [], ◌∷◌, map,
  Text, codes, ◌==◌, nat_eq, text_eq, option_eq, if◌then◌else◌, ok, err, ◌≡◌, refl, arith,
}
use dropbox_mirror.Base.Json.{get_field, Json, arr, item, nil, obj, field, str, bool, end}
use dropbox_mirror.Dropbox.Entries.{Api}
use dropbox_mirror.Dropbox.Inventory.{inventory}
use dropbox_mirror.Dropbox.Inventory.Ended.{inventory-IsFinished, Known, EndsAt}
use dropbox_mirror.Dropbox.Inventory.Kept.{IsFinished}
use dropbox_mirror.Dropbox.Requests.{download, call, Sent, Http, responded}
use dropbox_mirror.Dropbox.Requests.Answered.{
  download-Retries, call-Retries, download_outcome, call_outcome, is_transient_failure, Retries,
}
use dropbox_mirror.Dropbox.Scope.{scope_relative}
use dropbox_mirror.Dropbox.Scope.Inside.{scope_relative-Inside, Inside}
use dropbox_mirror.Failure.{Outcome, dropbox_scope}
use dropbox_mirror.Inventory.{prune_inventories}
use dropbox_mirror.Inventory.Newest.{prune_inventories-newest}
use dropbox_mirror.State.Tables.{WalkStatus, Db, InventoryRun}
use dropbox_mirror.Tests.{blank}

abbrev http : Http
http = record { max_attempts = 3; initial_backoff = 1; maximum_backoff = 8; seconds = λ s. some 5 }

abbrev reply : ℕ → Option Json → Sent
reply code body = responded (record { status_code = code; retry_after = none; body = body })

-- A rate limit, then a server error, then an answer.
abbrev bumpy : ℕ → Sent
bumpy n =
    if n == 1 then reply 429 none else if n == 2 then reply 503 none else reply 200 (some (obj end))

call-Retries_example :
    Retries 1 3
      (λ n. is_transient_failure (bumpy n))
      (λ n. call_outcome (bumpy n))
      (call http bumpy)
call-Retries_example = call-Retries http bumpy (omega arith)

bumpy_call : (call http bumpy).slept ≡ 5 ∷ 1 ∷ []
unfolding call
bumpy_call = refl

abbrev gone : ℕ → Sent
gone n = reply 409 (
    some (
      obj (
        field (codes "error")
          (obj
            (field (codes "path") (obj (field (codes ".tag") (str (codes "not_found")) end)) end))
          end)))

download-Retries_example :
    Retries 1 3
      (λ n. is_transient_failure (gone n))
      (λ n. download_outcome (gone n))
      (download http gone)
download-Retries_example = download-Retries http gone (omega arith)

gone_at_once : (download http gone).made ≡ 1
unfolding download text_beq get_field
gone_at_once = refl

outside : scope_relative (λ s. s) (codes "work") (some (codes "/home/a")) ≡ err dropbox_scope
unfolding scope_relative text_beq
outside = refl

inside :
    scope_relative (λ s. s) (codes "work") (some (codes "/work/a/b")) ≡ ok (some (codes "/a/b"))
unfolding scope_relative text_beq
inside = refl

scope_relative-Inside_example : Inside (λ s. s) (codes "work") (codes "/work/a/b") (codes "/a/b")
scope_relative-Inside_example =
    scope_relative-Inside (λ s. s) (codes "work") (codes "/work/a/b") (codes "/a/b") (λ e. cc)
      inside

abbrev api : Api
api = record {
  http = http;
  root = [];
  expected_account_id = codes "me";
  now = codes "t1";
  casefold = λ s. s;
  comparison_key = λ s. s;
  str_of = λ v. codes "None";
}

abbrev account : ℕ → Sent
account n = reply 200 (
    some (
      obj (
        field (codes "account_id") (str (codes "me")) (
          field (codes "root_info") (obj (field (codes "root_namespace_id") (str (codes "1")) end))
            end))))

abbrev page : Bool → Json
page more = obj (
    field (codes "entries")
      (arr (item (obj (field (codes "path_lower") (str (codes "/a")) end)) nil))
      (field (codes "cursor") (str (codes "c")) (field (codes "has_more") (bool more) end)))

abbrev two_pages : ℕ → Option Text → ℕ → Sent
two_pages round cursor n = reply 200 (some (page (round == 0)))

abbrev listed : Db
listed = db_after (inventory api account two_pages (codes "baseline") true 3 blank)
  where
    db_after : Option (Outcome ℕ × Db) → Db
    db_after none = blank
    db_after (some (result, db)) = db

listed_once : inventory api account two_pages (codes "baseline") true 3 blank ≡ some (ok 1, listed)
unfolding inventory text_beq
listed_once = refl

two_pages_listed : map (λ (r : InventoryRun). r.page_count) listed.inventory_runs ≡ 2 ∷ []
unfolding inventory text_beq
two_pages_listed = refl

no_listings : IsFinished blank
no_listings = record { unique = λ r s m. elim m [ ]; exhausted = λ r m. elim m [ ] }

inventory-IsFinished_example :
    IsFinished listed
    × ((r : InventoryRun) (cursor : Text)
        → In r listed.inventory_runs
        → r.cursor ≡ some cursor
        → r.has_more ≡ some false
        → Known blank cursor ⊎ EndsAt api two_pages cursor)
inventory-IsFinished_example =
    inventory-IsFinished api account two_pages (codes "baseline") true 3 blank listed (ok 1)
      no_listings listed_once

abbrev an_inventory : ℕ → InventoryRun
an_inventory n = record {
  id = n;
  started_at = codes "t0";
  completed_at = none;
  status = WalkStatus.running;
  account_id = codes "me";
  root_namespace_id = codes "1";
  purpose = codes "run:1";
  cursor = none;
  has_more = none;
  page_count = 0;
}

abbrev three_listings : Db
three_listings = record blank {
  inventory_runs = an_inventory 2 ∷ an_inventory 3 ∷ an_inventory 1 ∷ [];
}

pruned : (prune_inventories 1 three_listings).1.inventory_runs ≡ an_inventory 3 ∷ []
unfolding prune_inventories
pruned = refl

prune_inventories-newest_example : 2 ≤ 3
prune_inventories-newest_example =
    prune_inventories-newest three_listings (an_inventory 3) (an_inventory 2)
      (subst (In (an_inventory 3)) (sym pruned) (inl refl)) (inl refl)
