-- ===== src/State/Records.antt =====
-- src/migrator/state.py: the methods of `State` on the tables of commands and events, and the query
-- for the latest complete walk.
use dropbox_mirror.Base.{
  ℕ, Bool, true, false, ◌&&◌, not, Option, none, some, List, [], ◌∷◌, ◌++◌, map, keep, Text, codes,
  ◌==◌, nat_eq, text_eq, option_eq, if◌then◌else◌, ok, err,
}
use dropbox_mirror.Base.Int.{ℤ}
use dropbox_mirror.Base.Json.{Json}
use dropbox_mirror.Base.Rows.{latest, next_id}
use dropbox_mirror.Failure.{unsupported_table, no_completed_record, Outcome}
use dropbox_mirror.State.Tables.{
  Artifact, Db, Command, IdentityObservation, EventRow, Level, InventoryRun, ProtonSnapshot,
  WalkStatus,
}

unfoldable pub record_command_start : Text → Text → Text → List Text → ℕ → Db → ℕ × Db
record_command_start now provider operation safe_argv attempt db =
    let id = next_id (λ (c : Command). c.id) db.commands in
    (
      id,
      record db {
        commands =
            db.commands
            ++ (record {
              id = id;
              phase_run_id = db.current_phase_run_id;
              provider = provider;
              operation = operation;
              safe_argv = safe_argv;
              started_at = now;
              completed_at = none;
              exit_code = none;
              attempt = attempt;
              response_category = none;
              stdout_artifact = none;
              stderr_artifact = none;
            }
                ∷ []);
      },
    )

abbrev pub end_command : Text → ℕ → ℤ → Text → Command → Command
end_command now command_id exit_code category c =
    if c.id == command_id
    then record c {
      completed_at = some now;
      exit_code = some exit_code;
      response_category = some category;
      stdout_artifact = none;
      stderr_artifact = none;
    }
    else c

-- Without the two optional artifacts, which no caller passes.
unfoldable pub record_command_end : Text → ℕ → ℤ → Text → Db → Db
record_command_end now command_id exit_code category db = record db {
  commands = map (end_command now command_id exit_code category) db.commands;
}

-- The fields of a log event.
pub record Event : Type 0 where
  pub timestamp : Text
  pub level : Level
  pub phase : Text
  pub operation : Text
  pub message : Text
  pub object_identifier : Option Text
  pub retry_count : Option ℕ
  pub provider_category : Option Text
  pub safe_raw_error : Option Text
  pub fields : Json

abbrev pub row_of : Event → Db → EventRow
row_of e db = record {
  id = next_id (λ (v : EventRow). v.id) db.events;
  phase_run_id = db.current_phase_run_id;
  timestamp = e.timestamp;
  level = e.level;
  phase = e.phase;
  operation = e.operation;
  object_identifier = e.object_identifier;
  retry_count = e.retry_count;
  provider_category = e.provider_category;
  message = e.message;
  safe_raw_error = e.safe_raw_error;
  fields_json = e.fields;
}

unfoldable pub record_event : Event → Db → Db
record_event e db = record db { events = db.events ++ (row_of e db ∷ []) }

abbrev is_complete : WalkStatus → Bool
is_complete WalkStatus.complete = true
is_complete _ = false

abbrev for_purpose : Option Text → Text → Bool
for_purpose none purpose = true
for_purpose (some wanted) purpose = purpose == wanted

abbrev walk_id : Option InventoryRun → Outcome ℕ
walk_id none = err no_completed_record
walk_id (some i) = ok i.id

abbrev snapshot_id : Option ProtonSnapshot → Outcome ℕ
snapshot_id none = err no_completed_record
snapshot_id (some s) = ok s.id

-- With the status COMPLETE, which every caller asks for.
unfoldable pub latest_completed_id : Text → Option Text → Db → Outcome ℕ
latest_completed_id table purpose db =
    if table == codes "dropbox_inventory_runs"
    then walk_id (
        latest (λ (i : InventoryRun). i.id)
          (keep (λ (i : InventoryRun). is_complete i.status && for_purpose purpose i.purpose)
            db.inventory_runs))
    else if table == codes "proton_snapshots"
    then snapshot_id (
        latest (λ (s : ProtonSnapshot). s.id)
          (keep (λ (s : ProtonSnapshot). is_complete s.status && for_purpose purpose s.purpose)
            db.snapshots))
    else err unsupported_table

unfoldable pub record_identity_observation :
    Text → Text → Text → Text → Text → Bool → Json → Db → Db
record_identity_observation now provider operation expected observed matched details db =
    record db {
      observations =
          db.observations
          ++ (record {
            id = next_id (λ (o : IdentityObservation). o.id) db.observations;
            phase_run_id = db.current_phase_run_id;
            provider = provider;
            operation = operation;
            expected_identifier = expected;
            observed_identifier = observed;
            matched = matched;
            observed_at = now;
            details_json = details;
          }
              ∷ []);
    }

-- INSERT OR REPLACE; the path from the root of the run, the digest and the size are read off the
-- file.
unfoldable pub record_artifact : Text → ℕ → Text → Text → Text → ℕ → Option ℕ → Db → Db
record_artifact now phase_run_id role relative sha256 size row_count db =
    let same =
      λ (a : Artifact). (a.phase_run_id == phase_run_id) && (a.relative_path == relative) in
    record db {
      artifacts =
          keep (λ (a : Artifact). not (same a)) db.artifacts
          ++ (record {
            id = next_id (λ (a : Artifact). a.id) db.artifacts;
            phase_run_id = phase_run_id;
            role = role;
            relative_path = relative;
            sha256 = sha256;
            size = size;
            row_count = row_count;
            created_at = now;
          }
              ∷ []);
    }
