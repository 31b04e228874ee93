-- ===== src/Log.antt =====
-- src/migrator/logging.py: what a log event leaves in the database, where the sink of the runner
-- records it. The clock and the redaction of secrets are arguments; the lines in the log files and on
-- the console are left out.
use dropbox_mirror.Base.{Option, none, some, Text, nat_eq, text_eq, option_eq}
use dropbox_mirror.Base.Json.{obj, end}
use dropbox_mirror.State.Records.{Event, record_event}
use dropbox_mirror.State.Tables.{Db, Level}

pub record Logger : Type 0 where
  pub now : Text
  pub redact : Text → Text

-- `self.redact(value)`, where None stays None.
abbrev redacted : Logger → Option Text → Option Text
redacted logger none = none
redacted logger (some s) = some (logger.redact s)

abbrev pub new_event : Logger → Level → Text → Text → Text → Option Text → Option Text → Event
new_event logger level phase operation message provider_category raw_error = record {
  timestamp = logger.now;
  level = level;
  phase = phase;
  operation = operation;
  message = logger.redact message;
  object_identifier = none;
  retry_count = none;
  provider_category = provider_category;
  safe_raw_error = redacted logger raw_error;
  fields = obj end;
}

-- `RunLogger.event` with these two optional arguments and no other.
unfoldable pub log_event : Logger → Level → Text → Text → Text → Option Text → Option Text → Db → Db
unfolding record_event
log_event logger level phase operation message provider_category raw_error db =
    record_event (new_event logger level phase operation message provider_category raw_error) db
