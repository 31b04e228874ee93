-- ===== src/Proton/Landing.antt =====
-- src/migrator/providers/proton_cli.py, `_Walk`: the state of the walk, and `_collect`. What a
-- listing comes to, when a listing is done, the order of a set of futures, the deadline and the
-- checksum are arguments that may depend on the round.
use dropbox_mirror.Base.{
  ℕ, Bool, true, false, Option, none, some, List, [], ◌∷◌, Text, codes, nat_eq, text_eq, option_eq,
  ok, err, ◌>>=◌,
}
use dropbox_mirror.Base.Json.{Items, nil, item, obj, Fields}
use dropbox_mirror.Failure.{other, Outcome, Failure}
use dropbox_mirror.Proton.Invoke.{Invoked, Attempt}
use dropbox_mirror.Proton.Listing.{
  is_auth_attempt, list_argv, last_attempt, array_of, parse, record_attempts, Reader,
}
use dropbox_mirror.Proton.Mutation.{category_text}
use dropbox_mirror.Proton.Queues.{extend_at, return_to}
use dropbox_mirror.Proton.Snapshots.{list_path, note_failure, commit_listing, map_outcome, Naming}
use dropbox_mirror.State.Tables.{ProtonFolder, Db}

-- A future of `in_flight`: the worker and the row of its folder.
pub record Flight : Type 0 where
  pub worker : ℕ
  pub folder : ProtonFolder

-- What a future's result is: an exception of the worker, or what `_invoke` returned.
pub record World : Type 0 where
  pub reader : Reader
  pub naming : Naming
  pub answer : ℕ → Flight → Outcome Invoked
  pub name_of_failure : Failure → Text
  pub is_ready : ℕ → Flight → Bool
  pub order : ℕ → List Flight → List Flight
  pub past_first : ℕ → Bool
  pub past_last : ℕ → Bool
  pub crc32 : Text → ℕ
  pub segments_key : List Text → Text

pub record Walk : Type 0 where
  pub db : Db
  pub queues : List (List Text)
  pub in_flight : List Flight
  pub rescues : ℕ

pub data Verdict : Type 0 where
  went_well session_died gave_up : Verdict

-- The verdict after a listing without output.
abbrev pub worsen : Bool → Verdict → Verdict
worsen true gave_up = gave_up
worsen true verdict = session_died
worsen false verdict = gave_up

-- `made[-1].category if made else "EXIT_?"`
abbrev pub last_category : Reader → Option Attempt → Text
last_category reader none = codes "EXIT_?"
last_category reader (some a) = category_text reader.digits a.category

-- The entries of a listing; the code fails on one that is no object.
unfoldable pub entries : Items → Outcome (List Fields)
entries nil = ok []
entries (item (obj fields) items) = map_outcome (λ rest. fields ∷ rest) (entries items)
entries (item value items) = err other

-- What a listing leaves: an exception, with the database it leaves, or the walk and the verdict.
pub data Step : Type 0 where
  raised : Failure → Db → Step
  went : Verdict → Walk → Step

abbrev pub after_commit : Flight → Verdict → Walk → Outcome (List Text × Db) → Step
after_commit flight verdict walk (err e) = raised e walk.db
after_commit flight verdict walk (ok (queued, db)) =
    went verdict (record walk { db = db; queues = extend_at flight.worker queued walk.queues })

unfoldable pub commit_output : World → ℕ → Flight → Invoked → Verdict → Walk → Step
unfolding parse commit_listing extend_at entries
commit_output world snapshot_id flight i verdict walk = after_commit flight verdict walk (
    parse world.reader i >>= array_of >>= entries >>= λ children.
    commit_listing world.naming snapshot_id flight.folder children walk.db)

-- The rows of the attempts are recorded first; without output the folder goes back to its queue.
unfoldable pub land : World → ℕ → Flight → Outcome Invoked → Verdict → Walk → Step
unfolding record_attempts note_failure return_to commit_output list_path last_attempt
land world snapshot_id flight (err e) verdict walk =
    raised e (note_failure snapshot_id flight.folder.uid (world.name_of_failure e) walk.db)
land world snapshot_id flight (ok i) verdict walk = landed i.stdout
  where
    recorded : Db
    recorded =
        record_attempts world.reader (codes "filesystem_list")
          (list_argv world.reader (list_path world.naming flight.folder)) i.made walk.db

    landed : Option Text → Step
    landed none =
        let last = last_attempt i.made in
        let noted =
          note_failure snapshot_id flight.folder.uid (last_category world.reader last) recorded in
        went (worsen (is_auth_attempt last) verdict) (record walk {
          db = noted;
          queues = return_to flight.worker flight.folder.uid walk.queues;
        })
    landed (some stdout) =
        commit_output world snapshot_id flight i verdict (record walk { db = recorded })

abbrev pub and_then : Step → (Verdict → Walk → Step) → Step
and_then (raised e db) next = raised e db
and_then (went verdict walk) next = next verdict walk

-- `_collect`, from a verdict on; the futures are no longer in flight.
unfoldable pub collect : World → ℕ → ℕ → List Flight → Verdict → Walk → Step
unfolding land
collect world snapshot_id round [] verdict walk = went verdict walk
collect world snapshot_id round (flight ∷ done) verdict walk =
    and_then (land world snapshot_id flight (world.answer round flight) verdict walk)
      (λ v w. collect world snapshot_id round done v w)
