-- ===== src/Tests/Runner.antt =====
-- An example of a phase that fails.
use dropbox_mirror.Base.{
  keep, true, some, In, codes, nat_eq, text_eq, option_eq, err, ◌≡◌, refl, inl,
}
use dropbox_mirror.Base.Json.{null, obj, field, str, end}
use dropbox_mirror.Base.Rows.{latest}
use dropbox_mirror.Failure.{os_failed, phase_failed}
use dropbox_mirror.Runner.{Process, PhaseDefinition, run_phase, end_phase, end_phase_status}
use dropbox_mirror.State.Phases.{start_phase, initialize_migration, new_phase_run}
use dropbox_mirror.State.Tables.{Db, PhaseStatus, PhaseRun}
use dropbox_mirror.Tests.{blank}

abbrev process : Process
process = record {
  now = codes "t1";
  config_path = codes "config.toml";
  config_sha256 = codes "aa";
  apply = true;
  logger = record { now = codes "t1"; redact = λ s. s };
  error_type = λ e. codes "OSError";
  error_text = λ e. codes "disk";
}

abbrev broken_phase : PhaseDefinition
broken_phase = record {
  number = 20;
  command = codes "delta";
  name = codes "20_delta";
  run = λ id db. (err os_failed, db);
}

refused : (run_phase process broken_phase blank).0 ≡ err phase_failed
unfolding run_phase initialize_migration latest keep
refused = refl

abbrev begun : Db
begun = (start_phase (codes "t1") 20 (codes "20_delta") true null null blank).1

abbrev broken_row : PhaseRun
broken_row =
    record (new_phase_run (codes "t1") (codes "m") 20 (codes "20_delta") true null null 1 1) {
      status = PhaseStatus.fail;
      completed_at = some (codes "t1");
      outputs_json = some (obj (field (codes "error_type") (str (codes "OSError")) end));
      error_count = 1;
      error_summary = some (codes "disk");
    }

broken_row_there :
    In broken_row (end_phase process broken_phase 1 (err os_failed, begun)).1.phase_runs
unfolding end_phase start_phase keep
broken_row_there = inl refl

end_phase_status_example : PhaseStatus.fail ≡ PhaseStatus.fail
end_phase_status_example =
    end_phase_status process broken_phase 1 (err os_failed) begun broken_row tt broken_row_there
      refl
