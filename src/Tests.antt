-- ===== src/Tests.antt =====
-- Small databases, files and services that the examples run the code on.
pub mod Planning
pub mod Steps
pub mod Provider
pub mod Walk
pub mod Dropbox
pub mod Reconcile
pub mod Runner
pub mod Records
use dropbox_mirror.Base.{
  ℕ, zero, suc, ◌+◌, ◌-◌, ◌*◌, ◌≤◌, ◌<◌, min, max, Bool, true, false, ◌&&◌, ◌||◌, not, Option, none,
  some, List, [], ◌∷◌, ◌++◌, map, sum, length, keep, any, all, find, concat, In, All, Text, codes,
  ◌==◌, nat_eq, text_eq, option_eq, nat_beq_iff, text_iff, if◌then◌else◌, ltb, leb, ok, err, Result,
  ◌>>=◌, guard, ◌>>◌, ◌≡◌, ◌≢◌, refl, sym, ap, subst, ◌∙◌, ◌⊎◌, inl, inr, arith, Bool-cases,
}
use dropbox_mirror.Config.{Budget}
use dropbox_mirror.Delta.{DeltaOutputs}
use dropbox_mirror.Hashing.{Sha, IsIncremental}
use dropbox_mirror.State.Tables.{
  Tag, RunStatus, DropboxObject, Run, DeltaChanged, MirrorObject, DeltaDeleted, Db,
}
use mathlib.Core.List.{append_assoc, append-nil}

abbrev pub the_run : Run
the_run = record {
  id = 1;
  started_at = codes "t0";
  start_epoch = 0;
  hour_utc = 0;
  weekday = 0;
  budget_minutes = 1;
  host = codes "host";
  reconcile = false;
  status = RunStatus.running;
  chain = false;
  inventory_id = some 1;
  planned_batches = none;
  remaining_batches = some 0;
  completed_at = none;
}

abbrev pub blank : Db
blank = record {
  migration_id = codes "m";
  current_phase_run_id = none;
  migrations = [];
  phase_runs = [];
  commands = [];
  artifacts = [];
  events = [];
  observations = [];
  inventory_runs = [];
  pages = [];
  objects = [];
  snapshots = [];
  folders = [];
  nodes = [];
  runs = the_run ∷ [];
  mirror = [];
  delta_changed = [];
  delta_deleted = [];
  batches = [];
  batch_items = [];
  deletions = [];
}

abbrev pub new_file : DropboxObject
new_file = record {
  inventory_id = 1;
  object_key = codes "k";
  tag = Tag.file;
  name = codes "A";
  path_display = some (codes "/A");
  path_lower = some (codes "/a");
  comparison_key = codes "a";
  dropbox_id = none;
  revision = none;
  size = some 3;
  content_hash = some (1 ∷ 2 ∷ 3 ∷ []);
  is_downloadable = true;
  first_page = 1;
  last_page = 1;
}

abbrev pub old_row : MirrorObject
old_row = record {
  path_lower = codes "/b";
  path_display = codes "/B";
  size = 2;
  content_hash = 4 ∷ 5 ∷ [];
  sha1 = 4 ∷ 5 ∷ [];
  sha256 = 4 ∷ 5 ∷ [];
  proton_uid = none;
  run_id = 0;
  mirrored_at = codes "t0";
}

abbrev pub before_delta : Db
before_delta = record blank { objects = new_file ∷ []; mirror = old_row ∷ [] }

abbrev pub changed_row : DeltaChanged
changed_row = record {
  run_id = 1;
  path_lower = codes "/a";
  path_display = codes "/A";
  size = 3;
  content_hash = 1 ∷ 2 ∷ 3 ∷ [];
}

abbrev pub gone_row : DeltaDeleted
gone_row = record {
  run_id = 1;
  path_lower = codes "/b";
  path_display = codes "/B";
  proton_uid = none;
}

abbrev pub after_delta : Db
after_delta = record before_delta {
  delta_changed = changed_row ∷ [];
  delta_deleted = gone_row ∷ [];
}

abbrev pub delta_outputs : DeltaOutputs
delta_outputs = record {
  changed_files = 1;
  changed_bytes = 3;
  deleted_files = 1;
  listed_files = 1;
  mirrored_files = 1;
}

-- A hash that is the content itself.
abbrev pub plain_sha : Sha
plain_sha = record {
  State = List ℕ;
  init = [];
  update = λ h a. h ++ a;
  digest = λ h. h;
  hexdigest = λ h. h;
}

pub plain_sha-IsIncremental : IsIncremental plain_sha
plain_sha-IsIncremental = record {
  update-append = λ h a b. append_assoc h a b;
  update-nil = λ h. append-nil h;
}

abbrev pub budget : Budget
budget = record {
  batch_bytes = 100;
  batch_files = 10;
  max_file_bytes = 1000;
  run_budget_minutes = 1;
  ceiling_bytes = 10000;
  headroom_bytes = 5;
  scaled = λ n. n;
}
