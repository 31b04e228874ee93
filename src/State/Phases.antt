-- ===== src/State/Phases.antt =====
-- src/migrator/state.py: the methods of `State` on the tables `migrations` and `phase_runs`.
pub mod Laws
use dropbox_mirror.Base.{
  ℕ, ◌+◌, Bool, true, false, ◌&&◌, Option, none, some, List, [], ◌∷◌, ◌++◌, map, length, keep, any,
  Text, ◌==◌, nat_eq, text_eq, option_eq, if◌then◌else◌, maximum, text_beq, find, not,
}
use dropbox_mirror.Base.Json.{Json, Fields, obj, end}
use dropbox_mirror.Base.Rows.{next_id, latest}
use dropbox_mirror.State.Tables.{Db, Migration, PhaseRun, PhaseStatus, EventRow, Level}

-- `INSERT OR IGNORE` after the update of a migration whose configuration changed.
unfoldable pub initialize_migration : Text → Text → Text → Db → Db
initialize_migration now config_path config_sha256 db =
    let is_ours = λ (m : Migration). m.migration_id == db.migration_id in
    let renew = λ (m : Migration).
      if is_ours m && not (m.config_sha256 == config_sha256)
      then record m { config_sha256 = config_sha256; config_path = config_path }
      else m in
    let updated = map renew db.migrations in
    let inserted : Migration = record {
      migration_id = db.migration_id;
      config_path = config_path;
      config_sha256 = config_sha256;
      created_at = now;
      started_at = some now;
      source_account_id = none;
      source_account_display = none;
      source_root_namespace_id = none;
      source_account_observed_at = none;
    } in
    record db { migrations = if any is_ours updated then updated else updated ++ (inserted ∷ []) }

abbrev pub is_running : PhaseStatus → Bool
is_running PhaseStatus.running = true
is_running _ = false

abbrev pub is_pass : PhaseStatus → Bool
is_pass PhaseStatus.pass = true
is_pass _ = false

-- `migration_id=? AND phase_number=?`
abbrev pub is_phase : Text → ℕ → PhaseRun → Bool
is_phase migration number p = p.migration_id == migration && p.phase_number == number

abbrev pub interrupt : Text → Text → ℕ → PhaseRun → PhaseRun
interrupt now migration number p =
    if is_phase migration number p && is_running p.status
    then record p { status = PhaseStatus.interrupted; completed_at = some now }
    else p

-- `COALESCE(MAX(attempt), 0) + 1`
abbrev pub next_attempt : Text → ℕ → List PhaseRun → ℕ
next_attempt migration number rows =
    maximum (map (λ (p : PhaseRun). p.attempt) (keep (is_phase migration number) rows)) + 1

abbrev pub new_phase_run : Text → Text → ℕ → Text → Bool → Json → Json → ℕ → ℕ → PhaseRun
new_phase_run now migration number name apply inputs parameters id attempt = record {
  id = id;
  migration_id = migration;
  phase_number = number;
  phase_name = name;
  attempt = attempt;
  status = PhaseStatus.running;
  apply_mode = apply;
  started_at = now;
  completed_at = none;
  inputs_json = inputs;
  outputs_json = none;
  tool_versions_json = obj end;
  command_parameters_json = some parameters;
  warning_count = 0;
  error_count = 0;
  error_summary = none;
}

-- `tool_versions` is the default of every call: an empty object.
unfoldable pub start_phase : Text → ℕ → Text → Bool → Json → Json → Db → ℕ × Db
start_phase now number name apply inputs parameters db =
    let rows = map (interrupt now db.migration_id number) db.phase_runs in
    let id = next_id (λ (p : PhaseRun). p.id) rows in
    let attempt = next_attempt db.migration_id number rows in
    (
      id,
      record db {
        phase_runs =
            rows
            ++ (new_phase_run now db.migration_id number name apply inputs parameters id attempt
                ∷ []);
        current_phase_run_id = some id;
      },
    )

abbrev pub is_warning : Level → Bool
is_warning Level.warning = true
is_warning _ = false

abbrev pub is_error : Level → Bool
is_error Level.error = true
is_error _ = false

abbrev pub count_level : (Level → Bool) → ℕ → List EventRow → ℕ
count_level test id events =
    length (keep (λ (e : EventRow). e.phase_run_id == some id && test e.level) events)

unfoldable pub complete_phase : Text → ℕ → PhaseStatus → Json → Option Text → Db → Db
complete_phase now id final outputs error_summary db =
    let finish = λ (p : PhaseRun).
      if p.id == id
      then record p {
        status = final;
        completed_at = some now;
        outputs_json = some outputs;
        warning_count = count_level is_warning id db.events;
        error_count = count_level is_error id db.events;
        error_summary = error_summary;
      }
      else p in
    record db {
      phase_runs = map finish db.phase_runs;
      current_phase_run_id =
          if db.current_phase_run_id == some id then none else db.current_phase_run_id;
    }

-- `ORDER BY attempt DESC LIMIT 1`
unfoldable pub latest_phase : ℕ → Db → Option PhaseRun
latest_phase number db =
    latest (λ (p : PhaseRun). p.attempt) (keep (is_phase db.migration_id number) db.phase_runs)

abbrev row_passed : Option PhaseRun → Bool
row_passed none = false
row_passed (some p) = is_pass p.status

unfoldable pub phase_passed : ℕ → Db → Bool
unfolding latest_phase
phase_passed number db = row_passed (latest_phase number db)
