-- ===== src/Tests/Walk.antt =====
-- Examples of the listings of the CLI and of the walk over a small drive.
use dropbox_mirror.Base.{
  text_beq, ok-injective, ◌>>=◌, ℕ, Bool, true, false, Option, none, some, [], ◌∷◌, keep, In, All,
  codes, nat_eq, text_eq, option_eq, ok, ◌≡◌, refl, sym, subst, inl, arith,
}
use dropbox_mirror.Base.Int.{pos}
use dropbox_mirror.Base.Json.{get_field, Json, arr, item, nil, obj, field, str, end, Fields}
use dropbox_mirror.Base.Strings.{join}
use dropbox_mirror.Failure.{Outcome}
use dropbox_mirror.Proton.Inventory.{inventory}
use dropbox_mirror.Proton.Inventory.Closed.{IsClosed}
use dropbox_mirror.Proton.Inventory.Kept.{inventory-IsClosed}
use dropbox_mirror.Proton.Invoke.{exited, Invoked}
use dropbox_mirror.Proton.Landing.{entries, World}
use dropbox_mirror.Proton.Listing.{array_of, Reader, parse, root_uid}
use dropbox_mirror.Proton.Listing.Resolved.{root_uid-Resolved, Resolved}
use dropbox_mirror.Proton.Names.{unwrap}
use dropbox_mirror.Proton.Snapshots.{field_text, new_snapshot, Naming}
use dropbox_mirror.Proton.Walk.{run}
use dropbox_mirror.Proton.Walk.Ends.{run_ends, IsWait}
use dropbox_mirror.Proton.Walk.Finished.{run-AllListed, AllListed}
use dropbox_mirror.Proton.Walk.Rounds.{IsOrder}
use dropbox_mirror.Proton.Walk.Smaller.{Lists}
use dropbox_mirror.State.Tables.{Db}
use dropbox_mirror.Tests.{blank}

-- A folder that holds a folder of the UID "u1"; so does that folder itself.
abbrev child : Fields
child =
    field (codes "uid") (str (codes "u1"))
      (field (codes "name") (str (codes "a")) (field (codes "type") (str (codes "folder")) end))

abbrev small_listing : Json
small_listing = arr (item (obj child) nil)

abbrev small_reader : Reader
small_reader = record {
  executable = codes "proton";
  destination = codes "/my-files/a";
  expected_destination_uid = codes "u1";
  list_max_attempts = 1;
  initial_backoff = 1;
  maximum_backoff = 2;
  now = codes "t1";
  call = λ argv n. exited (pos 0) (codes "x") [];
  casefold = λ s. s;
  digits = λ n. codes "1";
  loads = λ s. some small_listing;
  str_of = λ v. codes "None";
}

abbrev small_naming : Naming
small_naming = record {
  destination = codes "/my-files/a";
  now = codes "t1";
  comparison_key = λ s. s;
  str_of = λ v. codes "None";
}

abbrev small_answer : Invoked
small_answer = record { stdout = some (codes "x"); made = []; slept = [] }

abbrev small_world : World
small_world = record {
  reader = small_reader;
  naming = small_naming;
  answer = λ n fl. ok small_answer;
  name_of_failure = λ e. codes "OSError";
  is_ready = λ n fl. true;
  order = λ n flights. flights;
  past_first = λ n. false;
  past_last = λ n. false;
  crc32 = λ s. 3;
  segments_key = join 47;
}

abbrev before_walk : Db
before_walk = (new_snapshot small_naming (codes "baseline") (codes "1.0") blank).1

abbrev db_of : Option (Outcome Bool × Db) → Db
db_of none = blank
db_of (some (result, db)) = db

abbrev after_walk : Db
after_walk = db_of (run small_world 1 2 10 before_walk)

small-IsOrder : IsOrder (λ n flights. flights)
small-IsOrder = record { all_in = λ n fl l m. m; only_in = λ n fl l m. m; size = λ n l. refl }

walked : run small_world 1 2 10 before_walk ≡ some (ok true, after_walk)
unfolding run new_snapshot text_beq
walked = refl

run-AllListed_example : AllListed 1 after_walk
run-AllListed_example = run-AllListed small_world 1 2 10 before_walk after_walk small-IsOrder walked

small-Lists : Lists (codes "u1" ∷ []) small_world
unfolding parse entries unwrap get_field text_beq
small-Lists n fl i children answered listed =
    let same : small_answer ≡ i = ok-injective answered in
    let shown : (child ∷ []) ≡ children = ok-injective (
      subst (λ (j : Invoked). (parse small_reader j >>= array_of >>= entries) ≡ ok children)
        (sym same) listed) in
    subst (λ l. All (λ node. In (field_text small_naming (codes "uid") node) (codes "u1" ∷ [])) l)
      shown (inl refl, tt)

small-IsWait : IsWait small_world
unfolding keep
small-IsWait n [] h = h
small-IsWait n (fl ∷ flights) h = omega arith

run_ends_example : (result : Outcome Bool × Db) × (run small_world 1 2 9 before_walk ≡ some result)
unfolding new_snapshot
run_ends_example =
    run_ends (codes "u1" ∷ []) small_world 1 2 9 before_walk small-Lists small-IsOrder small-IsWait
      (omega arith)

no_snapshots : IsClosed blank
no_snapshots = record { unique = λ s t m. elim m [ ]; listed = λ s m. elim m [ ] }

abbrev inventoried : Db
inventoried = db_after (inventory small_world (ok (codes "1.0")) (codes "baseline") true 2 10 blank)
  where
    db_after : Option (Outcome ℕ × Db) → Db
    db_after none = blank
    db_after (some (result, db)) = db

inventory_once :
    inventory small_world (ok (codes "1.0")) (codes "baseline") true 2 10 blank
    ≡ some (ok 1, inventoried)
unfolding inventory text_beq
inventory_once = refl

inventory-IsClosed_example : IsClosed inventoried
inventory-IsClosed_example =
    inventory-IsClosed small_world (ok (codes "1.0")) (codes "baseline") true 2 10 blank inventoried
      (ok 1) no_snapshots inventory_once

root_found : (root_uid small_reader (codes "30_plan") blank).0 ≡ ok (codes "u1")
unfolding root_uid text_beq
root_found = refl

root_uid-Resolved_example : Resolved small_reader (codes "u1") blank
root_uid-Resolved_example =
    root_uid-Resolved small_reader (codes "30_plan") blank (codes "u1") root_found
