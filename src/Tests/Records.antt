-- ===== src/Tests/Records.antt =====
-- Examples of the state's runs and phases, and of its way through the bucket.
use dropbox_mirror.Base.{
  true, text_beq_refl, drop, text_beq, ℕ, false, Option, none, some, List, [], ◌∷◌, map, keep, Text,
  codes, nat_eq, text_eq, option_eq, ok, err, ◌≡◌, refl,
}
use dropbox_mirror.Base.Json.{null}
use dropbox_mirror.Batch.Staging.{lookup_file}
use dropbox_mirror.Failure.{no_run_in_progress, store_failed, Outcome}
use dropbox_mirror.State.Phases.{latest_phase}
use dropbox_mirror.State.Phases.Laws.{latest_phase-start_phase, added, started}
use dropbox_mirror.State.Runs.{new_run, finish_run, start_run, RunStart, current_run}
use dropbox_mirror.State.Runs.Laws.{current_run-start_run, current_run-finish_run, in_progress}
use dropbox_mirror.State.Tables.{RunStatus, Db}
use dropbox_mirror.Statefile.{restored, Codec, Store, fetch as state_fetch, push as state_push}
use dropbox_mirror.Statefile.Restored.{fetch-push, IsFaithful}
use dropbox_mirror.Tests.{the_run, blank}

latest_phase-start_phase_example :
    latest_phase 10 (started (codes "t1") 10 (codes "10_inventory") true null null blank).1
    ≡ some (added (codes "t1") 10 (codes "10_inventory") true null null blank)
latest_phase-start_phase_example =
    latest_phase-start_phase (codes "t1") 10 (codes "10_inventory") true null null blank

abbrev run_start : RunStart
run_start = record {
  start_epoch = 100;
  hour_utc = 1;
  weekday = 2;
  budget_minutes = 60;
  host = codes "host";
  reconcile = false;
}

current_run-start_run_example :
    (current_run (start_run (codes "t1") run_start blank).1
      ≡ ok (new_run (codes "t1") (start_run (codes "t1") run_start blank).0 run_start))
    × (keep in_progress (start_run (codes "t1") run_start blank).1.runs
        ≡ new_run (codes "t1") (start_run (codes "t1") run_start blank).0 run_start ∷ [])
current_run-start_run_example = current_run-start_run (codes "t1") run_start blank

only_one : keep in_progress blank.runs ≡ the_run ∷ []
unfolding keep
only_one = refl

current_run-finish_run_example :
    (after : Db) × (finish_run 1 RunStatus.success (codes "t1") blank ≡ ok after)
    × (current_run after ≡ err no_run_in_progress)
current_run-finish_run_example =
    current_run-finish_run RunStatus.success (codes "t1") blank the_run refl only_one

-- A bucket of one prefix: the objects, the latest first.
abbrev Bucket : Type 0
Bucket = List (Text × List ℕ)

abbrev get_object : Text → Bucket → Outcome (Option (List ℕ))
get_object key bucket = ok (lookup_file key bucket)

abbrev or_empty : Option (List ℕ) → List ℕ
or_empty none = []
or_empty (some bytes) = bytes

abbrev copy_object : Text → Text → Option (List ℕ) → Bucket → Outcome (Unit {0}) × Bucket
copy_object from to none bucket = (err store_failed, bucket)
copy_object from to (some bytes) bucket = (ok tt, (to, bytes) ∷ bucket)

abbrev store : Store Bucket
store = record {
  get = get_object;
  list = λ prefix bucket. ok (map (λ (o : Text × List ℕ). o.0) bucket);
  probe = λ bucket. ok tt;
  put = λ bytes key bucket. (ok tt, (key, bytes) ∷ bucket);
  copy = λ from to bucket. copy_object from to (lookup_file from bucket) bucket;
}

abbrev codec : Codec
codec = record {
  compress = λ bytes. ok (1 ∷ bytes);
  decompress = λ bytes. ok (drop 1 bytes);
  encrypt = λ bytes. ok (2 ∷ bytes);
  decrypt = λ bytes. ok (drop 1 bytes);
  snapshot = λ db. ok db.migration_id;
}

copied_object :
    (from to : Text) (o : Option (List ℕ)) (bucket : Bucket)
    → lookup_file from bucket ≡ o
    → (copy_object from to o bucket).0 ≡ ok tt
    → get_object to (copy_object from to o bucket).1 ≡ get_object from bucket
copied_object from to none bucket e h = cc
copied_object from to (some bytes) bucket e h = rw (text_beq_refl to, e) refl

store-IsFaithful : IsFaithful store codec
store-IsFaithful = record {
  get_put = λ bytes key bucket h. rw (text_beq_refl key) refl;
  get_copy = λ from to bucket h. copied_object from to (lookup_file from bucket) bucket refl h;
  decompress_compress = λ bytes packed h. cc;
  decrypt_encrypt = λ bytes locked h. cc;
}

pushes : (state_push store codec blank (codes "0-1") []).0 ≡ ok tt
unfolding state_push text_beq
pushes = refl

fetch-push_example :
    state_fetch store codec (state_push store codec blank (codes "0-1") []).1
    ≡ ok (restored (codes "m"))
fetch-push_example =
    fetch-push store codec store-IsFaithful blank (codes "0-1") [] (codes "m") refl pushes
