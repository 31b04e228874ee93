-- ===== src/Proton/Mutation/Accounted.antt =====
-- src/migrator/providers/proton_cli.py: what a call that changes the drive leaves in the tables of
-- commands and events.
use dropbox_mirror.Base.{
  Option, none, some, List, [], ◌∷◌, ◌++◌, Text, codes, nat_eq, text_eq, option_eq, ok, err, ◌≡◌,
}
use dropbox_mirror.Base.Int.{ℤ, pos}
use dropbox_mirror.Base.Rows.{next_id}
use dropbox_mirror.Failure.{Outcome, Failure}
use dropbox_mirror.Log.{new_event}
use dropbox_mirror.Proton.Invoke.{last_chars}
use dropbox_mirror.Proton.Mutation.{Ran, Cli, returned}
use dropbox_mirror.State.Records.{row_of}
use dropbox_mirror.State.Tables.{Db, Command, Level, EventRow}

-- What a call came to, what the caller gets, the exit code that is recorded and the new events.
pub data Account : Outcome Ran → Outcome Text → Option ℤ → List EventRow → Type 0 where
  interrupted : {e : Failure} → Account (err e) (err e) none []
  refused :
      {r : Ran} {e : Failure} {code : ℤ} {v : EventRow}
      → v.level ≡ Level.error
      → Account (ok r) (err e) (some code) (v ∷ [])
  accepted :
      {stdout stderr : Text}
      → Account (ok (returned (pos 0) stdout stderr)) (ok stdout) (some (pos 0)) []
  warned :
      {code : ℤ} {stdout stderr : Text} {v : EventRow}
      → v.level ≡ Level.warning
      → Account (ok (returned code stdout stderr)) (ok stdout) (some code) (v ∷ [])

-- There is one new command and there are new events, at the end of their tables, and nothing else
-- has changed; the command and the events are those of the account.
abbrev pub Recorded : Text → Outcome Ran → Db → Outcome Text × Db → Type 0
Recorded operation call db (result, after) =
    (c : Command) × (events : List EventRow) × (after
      ≡ record db { commands = db.commands ++ (c ∷ []); events = db.events ++ events })
    × (c.operation ≡ operation)
    × (c.phase_run_id ≡ db.current_phase_run_id)
    × Account call result c.exit_code events

abbrev started_command : Cli → Text → List Text → Db → Command
started_command cli operation argv db = record {
  id = next_id (λ (c : Command). c.id) db.commands;
  phase_run_id = db.current_phase_run_id;
  provider = codes "proton";
  operation = operation;
  safe_argv = argv;
  started_at = cli.now;
  completed_at = none;
  exit_code = none;
  attempt = 1;
  response_category = none;
  stdout_artifact = none;
  stderr_artifact = none;
}

abbrev ended_command : Cli → Text → List Text → Db → ℤ → Text → Command
ended_command cli operation argv db code category = record (started_command cli operation argv db) {
  completed_at = some cli.now;
  exit_code = some code;
  response_category = some category;
}

abbrev with_command : Command → Db → Db
with_command c db = record db { commands = db.commands ++ (c ∷ []) }

-- The event of a call of the CLI.
abbrev event_of : Cli → Level → Text → Text → Text → Text → Text → Db → EventRow
event_of cli level phase operation message category stderr db =
    row_of
      (new_event cli.logger level phase operation (codes "official Proton CLI mutation " ++ message)
        (some category) (some (last_chars 4000 stderr)))
      db
