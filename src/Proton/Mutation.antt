-- ===== src/Proton/Mutation.antt =====
-- src/migrator/providers/proton_cli.py: the calls of the CLI that change the drive. What a call and
-- the write-back of the session after it come to is an argument.
pub mod Accounted
use dropbox_mirror.Base.{
  zero, suc, Option, ◌∙◌, sym, ℕ, ◌<◌, Bool, true, false, ◌||◌, not, none, some, List, [], ◌∷◌,
  ◌++◌, map, In, Text, codes, ◌==◌, nat_eq, text_eq, option_eq, nat_beq_iff, if◌then◌else◌, leb, ok,
  err, ◌≡◌, refl, ap, inl, inr, arith, Bool-cases,
}
use dropbox_mirror.Base.Int.{ℤ, pos, negsuc}
use dropbox_mirror.Base.Rows.{next_id, next_id_fresh}
use dropbox_mirror.Failure.{proton_mutation, proton_timeout, Outcome, Failure}
use dropbox_mirror.Log.{Logger, log_event, new_event}
use dropbox_mirror.Proton.Invoke.{category_of, last_chars}
use dropbox_mirror.Proton.Names.{Category, success, rate_limit, auth, timeout, exit, is_auth}
use dropbox_mirror.State.Records.{
  row_of, record_event, end_command, record_command_end, record_command_start,
}
use dropbox_mirror.State.Tables.{Db, Command, Level, EventRow}
use mathlib.Core.List.{append-nil}

-- `frozenset({0})` and `frozenset({0, 1})`, as the largest accepted code.
abbrev pub accepts : ℕ → ℤ → Bool
accepts largest (pos n) = leb n largest
accepts largest (negsuc n) = false

-- What is recorded as the response category.
abbrev pub category_text : (ℤ → Text) → Category → Text
category_text digits success = codes "SUCCESS"
category_text digits rate_limit = codes "RATE_LIMIT"
category_text digits auth = codes "AUTH"
category_text digits timeout = codes "TIMEOUT"
category_text digits (exit code) = codes "EXIT_" ++ digits code

-- A call that ran out of time, with what it had written to stderr, or that exited.
pub data Ran : Type 0 where
  expired : Text → Ran
  returned : ℤ → Text → Text → Ran

-- The clock, the calls, the case folding, the decimal digits of an integer, the log and the limits, in
-- whole seconds.
-- A call is `err` if it, or the write-back after it, raises anything but a timeout.
pub record Cli : Type 0 where
  pub now : Text
  pub call : List Text → Outcome Ran
  pub casefold : Text → Text
  pub digits : ℤ → Text
  pub logger : Logger
  pub transfer_timeout_seconds : ℕ
  pub command_timeout_seconds : ℕ

abbrev pub timeout_of : Cli → Text → ℕ
timeout_of cli operation =
    if operation == codes "upload"
    then cli.transfer_timeout_seconds
    else cli.command_timeout_seconds

abbrev pub log_outcome : Cli → Level → Text → Text → Text → Text → Text → Db → Db
log_outcome cli level phase operation message category stderr db =
    log_event cli.logger level phase operation (codes "official Proton CLI mutation " ++ message)
      (some category) (some (last_chars 4000 stderr)) db

-- A non-zero exit that is accepted is logged.
abbrev pub warn_exit : Cli → Text → Text → ℤ → Text → Text → Db → Db
warn_exit cli phase operation (pos zero) category stderr db = db
warn_exit cli phase operation code category stderr db =
    log_outcome cli Level.warning phase operation
      (codes "exited " ++ cli.digits code ++ codes " and was accepted") category stderr db

-- What follows the call, which is recorded under this id.
unfoldable pub end_mutation : Cli → Text → Text → ℕ → ℕ → Outcome Ran → Db → Outcome Text × Db
unfolding category_of record_command_end log_event
end_mutation cli phase operation largest command_id (err e) db = (err e, db)
end_mutation cli phase operation largest command_id (ok (expired stderr)) db = (
  err proton_timeout,
  log_outcome cli Level.error phase operation
      (codes "timed out after " ++ cli.digits (pos (timeout_of cli operation)) ++ codes " s")
      (codes "TIMEOUT") stderr
      (record_command_end cli.now command_id (negsuc 0) (codes "TIMEOUT") db),
)
end_mutation cli phase operation largest command_id (ok (returned code stdout stderr)) db =
    let c = category_of cli.casefold code stderr in
    let text = category_text cli.digits c in
    let recorded = record_command_end cli.now command_id code text db in
    if not (accepts largest code) || is_auth c
    then (
      err proton_mutation,
      log_outcome cli Level.error phase operation (codes "failed") text stderr recorded,
    )
    else (ok stdout, warn_exit cli phase operation code text stderr recorded)

-- `_mutation`
unfoldable pub mutation : Cli → Text → ℕ → List Text → Text → Db → Outcome Text × Db
unfolding end_mutation record_command_start
mutation cli operation largest argv phase db =
    let (command_id, started) = record_command_start cli.now (codes "proton") operation argv 1 db in
    end_mutation cli phase operation largest command_id (cli.call argv) started

abbrev forget : Outcome Text × Db → Outcome (Unit {0}) × Db
forget (ok stdout, db) = (ok tt, db)
forget (err e, db) = (err e, db)

unfoldable pub upload_tree : Cli → Text → List Text → Text → Text → Db → Outcome Text × Db
unfolding mutation
upload_tree cli executable sources destination = mutation cli (codes "upload") 1 (
    executable
    ∷ codes "filesystem"
    ∷ codes "upload"
    ∷ codes "-f"
    ∷ codes "create-new-revision"
    ∷ codes "-d"
    ∷ codes "merge"
    ∷ codes "--json"
    ∷ codes "--skip-thumbnails"
    ∷ (sources ++ (destination ∷ [])))

-- `trash`: without paths there is no call.
unfoldable pub trash : Cli → Text → List Text → Text → Db → Outcome (Unit {0}) × Db
unfolding mutation
trash cli executable [] phase db = (ok tt, db)
trash cli executable (path ∷ cli_paths) phase db = forget (
    mutation cli (codes "trash") 0
      (executable ∷ codes "filesystem" ∷ codes "trash" ∷ path ∷ cli_paths) phase db)

unfoldable pub empty_trash : Cli → Text → Text → Db → Outcome (Unit {0}) × Db
unfolding mutation
empty_trash cli executable phase db = forget (
    mutation cli (codes "empty_trash") 0
      (executable ∷ codes "filesystem" ∷ codes "empty-trash" ∷ []) phase db)
