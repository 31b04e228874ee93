-- ===== src/State/Runs.antt =====
-- src/migrator/state.py: the methods of `State` on the tables `runs` and `mirror_objects`.
pub mod Laws
use dropbox_mirror.Base.{
  ℕ, ◌+◌, Bool, true, false, Option, none, some, List, [], ◌∷◌, ◌++◌, map, sum, length, keep, Text,
  ◌==◌, nat_eq, if◌then◌else◌, Result, ok, err,
}
use dropbox_mirror.Base.Rows.{next_id, latest}
use dropbox_mirror.Failure.{Failure, Outcome, no_run_in_progress, unknown_columns}
use dropbox_mirror.State.Tables.{Db, Run, RunStatus, running, interrupted, MirrorObject}

abbrev pub is_running : RunStatus → Bool
is_running running = true
is_running _ = false

-- The keyword arguments of `start_run`.
pub record RunStart : Type 0 where
  pub start_epoch : ℕ
  pub hour_utc : ℕ
  pub weekday : ℕ
  pub budget_minutes : ℕ
  pub host : Text
  pub reconcile : Bool

abbrev interrupt : Text → Run → Run
interrupt now r =
    if is_running r.status
    then record r { status = RunStatus.interrupted; completed_at = some now }
    else r

abbrev pub new_run : Text → ℕ → RunStart → Run
new_run now id s = record {
  id = id;
  started_at = now;
  start_epoch = s.start_epoch;
  hour_utc = s.hour_utc;
  weekday = s.weekday;
  budget_minutes = s.budget_minutes;
  host = s.host;
  reconcile = s.reconcile;
  status = RunStatus.running;
  chain = false;
  inventory_id = none;
  planned_batches = none;
  remaining_batches = none;
  completed_at = none;
}

-- Interrupts the runs in progress, adds the new one and returns its id.
unfoldable pub start_run : Text → RunStart → Db → ℕ × Db
start_run now s db =
    let id = next_id (λ (r : Run). r.id) db.runs in
    (id, record db { runs = map (interrupt now) db.runs ++ (new_run now id s ∷ []) })

-- `if not row: raise`
abbrev pub row_or {ℓ} : {A : Type ℓ} → Failure → Option A → Outcome A
row_or e none = err e
row_or e (some row) = ok row

-- `SELECT * FROM runs WHERE status='RUNNING' ORDER BY id DESC LIMIT 1`
unfoldable pub current_run : Db → Outcome Run
current_run db =
    row_or no_run_in_progress
      (latest (λ (r : Run). r.id) (keep (λ (r : Run). is_running r.status) db.runs))

-- A keyword argument of `update_run`; `column` is any name outside RUN_COLUMNS.
pub data Assign : Type 0 where
  status : RunStatus → Assign
  chain : Bool → Assign
  inventory_id : Option ℕ → Assign
  planned_batches : Option ℕ → Assign
  remaining_batches : Option ℕ → Assign
  completed_at : Option Text → Assign
  reconcile : Bool → Assign
  column : Text → Assign

abbrev pub is_known : Assign → Bool
is_known (column name) = false
is_known _ = true

abbrev pub assign : Assign → Run → Run
assign (status v) r = record r { status = v }
assign (chain v) r = record r { chain = v }
assign (inventory_id v) r = record r { inventory_id = v }
assign (planned_batches v) r = record r { planned_batches = v }
assign (remaining_batches v) r = record r { remaining_batches = v }
assign (completed_at v) r = record r { completed_at = v }
assign (reconcile v) r = record r { reconcile = v }
assign (column name) r = r

abbrev pub assign_all : List Assign → Run → Run
assign_all [] r = r
assign_all (a ∷ columns) r = assign_all columns (assign a r)

abbrev pub all_known : List Assign → Bool
all_known [] = true
all_known (a ∷ columns) = if is_known a then all_known columns else false

abbrev pub assign_at : ℕ → List Assign → Run → Run
assign_at run_id columns r = if r.id == run_id then assign_all columns r else r

unfoldable pub update_run : ℕ → List Assign → Db → Outcome Db
update_run run_id columns db =
    if all_known columns
    then ok (record db { runs = map (assign_at run_id columns) db.runs })
    else err unknown_columns

unfoldable pub finish_run : ℕ → RunStatus → Text → Db → Outcome Db
unfolding update_run
finish_run run_id final now db = update_run run_id (status final ∷ completed_at (some now) ∷ []) db

-- The number of mirrored files and their bytes.
unfoldable pub mirror_totals : Db → ℕ × ℕ
mirror_totals db = (length db.mirror, sum (map (λ (m : MirrorObject). m.size) db.mirror))
