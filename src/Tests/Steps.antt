-- ===== src/Tests/Steps.antt =====
-- Examples of the hashes, the steps of a batch, and the phases over batches and deletions.
use dropbox_mirror.Base.{
  text_beq, ℕ, ◌+◌, ◌*◌, ◌<◌, true, none, some, List, [], ◌∷◌, length, keep, any, all, In, Text,
  codes, nat_eq, text_eq, option_eq, ok, err, ◌≡◌, refl, inl, inr, arith,
}
use dropbox_mirror.Base.Int.{◌+ℤ◌}
use dropbox_mirror.Base.Json.{field_of, num, str, obj, Fields, field, end}
use dropbox_mirror.Base.Rows.{latest}
use dropbox_mirror.Base.Sort.{sort_by}
use dropbox_mirror.Batch.Evidence.{IsKeyed, Sound}
use dropbox_mirror.Batch.Items.{items, content, Services, Work, Step}
use dropbox_mirror.Batch.Outcomes.{run_steps-Sound, confirm-evidence}
use dropbox_mirror.Batch.Recorded.{checkpoint-recorded, Holds}
use dropbox_mirror.Batch.Staging.{no_files}
use dropbox_mirror.Batch.Steps.{report_of, checkpoint, run_steps, Checkpointed, confirm, Confirmed}
use dropbox_mirror.Batch.Summary.{read_summary, last_summary, Summary}
use dropbox_mirror.Batches.{BatchesOutputs, Round, run as batches_run}
use dropbox_mirror.Batches.Chain.{run-chain}
use dropbox_mirror.Failure.{proton_retries}
use dropbox_mirror.Hashing.{hash_file, dropbox_block_size}
use dropbox_mirror.Hashing.Content.{hash_file_lem, hashes_of, IsCut}
use dropbox_mirror.State.Runs.{current_run}
use dropbox_mirror.State.Tables.{BatchStatus, ItemStatus, Run, Batch, BatchItem}
use dropbox_mirror.Tests.{plain_sha-IsIncremental, after_delta, old_row, the_run, plain_sha, blank}
use dropbox_mirror.Trash.{choose, Calls, node_text}
use dropbox_mirror.Trash.Kept.{run-Accounted, choose-uid, Accounted, Found}
use dropbox_mirror.Trash.Phase.{run as trash_run}

hash_file_lem_example :
    (full : List (List ℕ)) × (rest : List ℕ) × IsCut dropbox_block_size (1 ∷ 2 ∷ 3 ∷ []) full rest
    × (hash_file plain_sha plain_sha (1 ∷ 2 ∷ 3 ∷ [])
        ≡ hashes_of plain_sha plain_sha (1 ∷ 2 ∷ 3 ∷ []) full rest)
hash_file_lem_example =
    hash_file_lem plain_sha plain_sha plain_sha-IsIncremental plain_sha-IsIncremental
      (1 ∷ 2 ∷ 3 ∷ [])

abbrev summary : Fields
summary = field (codes "transferredItems") (num 1) end

-- Every file has the bytes 1 2 3, and every upload reports one item.
abbrev services : Services
services = record {
  download = λ path. content (1 ∷ 2 ∷ 3 ∷ []);
  upload_tree = λ sources destination db. (ok (some (obj summary) ∷ []), db);
  push = λ label db. ok tt;
  now = codes "t1";
  int_of_text = λ s. none;
  str_of = λ value. [];
}

abbrev item_with : ItemStatus → BatchItem
item_with status = record {
  batch_id = 1;
  path_lower = codes "/a";
  path_display = codes "/A";
  size = 3;
  content_hash = 1 ∷ 2 ∷ 3 ∷ [];
  status = status;
  sha1 = none;
  sha256 = none;
}

abbrev batch_row : Batch
batch_row = record {
  id = 1;
  run_id = 1;
  number = 1;
  bytes = 3;
  file_count = 1;
  status = BatchStatus.planned;
  started_at = none;
  completed_at = none;
}

abbrev work_with : ItemStatus → Work
work_with status = record {
  db = record blank { batches = batch_row ∷ []; batch_items = item_with status ∷ [] };
  staging = no_files;
  reports = (1, some (obj summary) ∷ []) ∷ [];
  pushed = [];
}

one_item :
    (i : BatchItem)
    → In i ((work_with ItemStatus.planned).db.batch_items)
    → i ≡ item_with ItemStatus.planned
one_item i (inl e) = e
one_item i (inr m) = elim m [ ]

planned-Sound : Sound plain_sha plain_sha (work_with ItemStatus.planned).db
planned-Sound = record {
  keyed = λ i j mi mj e p. rw (one_item i mi, one_item j mj) (refl, refl);
  trusted = (λ t. cc, tt);
  mirrored = tt;
}

run_steps-Sound_example : Sound plain_sha plain_sha (
    (run_steps plain_sha plain_sha services
      (codes "/my-files/D")
      1
      (codes "0-1")
      1
      (work_with ItemStatus.planned)).1.db)
run_steps-Sound_example =
    run_steps-Sound plain_sha plain_sha services (codes "/my-files/D") 1 (codes "0-1") 1
      (work_with ItemStatus.planned) (λ sources destination db. (refl, refl)) planned-Sound

abbrev confirmed_one : Confirmed
confirmed_one = record { confirmed = 1; skipped_identical = 0; confirm_failed = 0 }

confirms : (confirm services 1 (work_with ItemStatus.verified)).0 ≡ ok confirmed_one
unfolding confirm keep sort_by all text_beq any
confirms = refl

confirm-evidence_example :
    (fields : Fields) × (s : Summary) × (last_summary
        (report_of 1 ((work_with ItemStatus.verified).reports))
      ≡ some fields)
    × (read_summary services fields ≡ ok s)
    × (s.transferred + s.skipped + s.failed
        ≡ length (items 1 ItemStatus.verified (work_with ItemStatus.verified).db) + 0)
    × (s.failed ≡ length s.failures)
    × (1 + 0 ≡ length (items 1 ItemStatus.verified (work_with ItemStatus.verified).db))
confirm-evidence_example =
    confirm-evidence services 1 (work_with ItemStatus.verified) confirmed_one confirms (omega arith)

abbrev confirmed_item : BatchItem
confirmed_item = record (item_with ItemStatus.confirmed) {
  sha1 = some (codes "s");
  sha256 = some (codes "t");
}

abbrev work_confirmed : Work
work_confirmed = record {
  db = record blank { batches = batch_row ∷ []; batch_items = confirmed_item ∷ [] };
  staging = no_files;
  reports = [];
  pushed = [];
}

only_confirmed : (i : BatchItem) → In i work_confirmed.db.batch_items → i ≡ confirmed_item
only_confirmed i (inl e) = e
only_confirmed i (inr m) = elim m [ ]

confirmed-IsKeyed : IsKeyed work_confirmed.db.batch_items
confirmed-IsKeyed i j mi mj e p = rw (only_confirmed i mi, only_confirmed j mj) (refl, refl)

checkpoints :
    (checkpoint services 1 (codes "0-1") 1 work_confirmed).0
    ≡ ok (record { checkpointed = 1; failed = 0 })
unfolding checkpoint keep sort_by
checkpoints = refl

confirmed_there : In confirmed_item (items 1 ItemStatus.confirmed work_confirmed.db)
unfolding items keep sort_by
confirmed_there = inl refl

checkpoint-recorded_example :
    Holds
      (checkpoint services 1 (codes "0-1") 1 work_confirmed).1.db.mirror
      (codes "/a")
      3
      (1 ∷ 2 ∷ 3 ∷ [])
    × ((checkpoint services 1 (codes "0-1") 1 work_confirmed).1.pushed
        ≡ (codes "0-1", (checkpoint services 1 (codes "0-1") 1 work_confirmed).1.db) ∷ [])
checkpoint-recorded_example =
    checkpoint-recorded services 1 (codes "0-1") 1 work_confirmed
      (record { checkpointed = 1; failed = 0 }) confirmed-IsKeyed checkpoints confirmed_item
      confirmed_there

-- A batch takes fifty-five ticks of the sixty, and its steps do nothing.
abbrev clock : ℕ → Round
clock k = record { before = 10 * k; began = 10 * k; ended = 10 * k + 55 }

abbrev no_steps : Batch → Step Checkpointed
no_steps b w = (ok (record { checkpointed = 0; failed = 0 }), w)

abbrev two_batches : Work
two_batches = record {
  db = record blank { batches = batch_row ∷ (record batch_row { id = 2; number = 2 }) ∷ [] };
  staging = no_files;
  reports = [];
  pushed = [];
}

abbrev chained_run : Run
chained_run = record the_run { remaining_batches = some 1; chain = true }

two_in_progress : current_run two_batches.db ≡ ok the_run
unfolding current_run latest keep
two_in_progress = refl

chained : In chained_run (batches_run 1 (codes "t1") clock (ok tt) no_steps two_batches).1.db.runs
unfolding batches_run latest keep sort_by any ◌+ℤ◌
chained = inl refl

run-chain_example :
    (out : BatchesOutputs) × ((batches_run 1 (codes "t1") clock (ok tt) no_steps two_batches).0
      ≡ ok out)
    × (0 < out.completed)
    × (0 < out.remaining)
    × (out.completed + out.remaining ≡ out.planned)
    × (some 1 ≡ some out.remaining)
run-chain_example =
    run-chain 1 (codes "t1") clock no_steps the_run two_batches two_in_progress chained_run chained
      refl refl

abbrev twin : Text → Fields
twin uid = field (codes "uid") (str uid) end

-- The listing fails.
abbrev calls : Calls
calls = record {
  list_folder = λ path. err proton_retries;
  trash = λ paths. ok tt;
  push = λ label db. ok tt;
  casefold = λ s. s;
  str_of = λ value. [];
  now = codes "t1";
}

run-Accounted_example :
    Accounted []
      (Found calls 1 (codes "/my-files/D") after_delta)
      1
      old_row
      ((trash_run calls 1 (codes "0-trash") (codes "/my-files/D") (ok tt) after_delta).1)
run-Accounted_example =
    run-Accounted calls 1 (codes "0-trash") (codes "/my-files/D") (ok tt) after_delta old_row
      (inl refl)

second_uid : node_text calls (codes "uid") (twin (codes "v")) ≡ codes "v"
unfolding node_text field_of text_beq
second_uid = refl

choose-uid_example :
    (chosen : Fields) × (choose calls (some (codes "v")) (twin (codes "u") ∷ twin (codes "v") ∷ [])
      ≡ some chosen)
    × In chosen (twin (codes "u") ∷ twin (codes "v") ∷ [])
    × (node_text calls (codes "uid") chosen ≡ codes "v")
choose-uid_example =
    choose-uid calls (codes "v") (twin (codes "u") ∷ twin (codes "v") ∷ []) (twin (codes "v"))
      (inr (inl refl)) second_uid
