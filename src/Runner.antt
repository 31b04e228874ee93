-- ===== src/Runner.antt =====
-- src/migrator/runner.py: one phase in its own process. The phase is an argument, a function from the
-- database to its result and the database it leaves; the configuration, the directories, the
-- redaction of an error and what the reading of an artifact comes to are arguments. Of the log, the
-- events in the database are modelled.
use dropbox_mirror.Base.{
  subst, All, ◌++◌, In-map, ℕ, Bool, true, false, Option, none, some, List, [], ◌∷◌, In, Text,
  codes, ◌==◌, nat_eq, text_eq, option_eq, nat_beq_iff, if◌then◌else◌, ok, err, ◌≡◌, refl, sym, ap,
  ◌∙◌, ◌⊎◌, inl, inr,
}
use dropbox_mirror.Base.Json.{Json, obj, field, str, num, bool, end}
use dropbox_mirror.Failure.{Outcome, Failure, FailureClass, phase_error, phase_failed, class}
use dropbox_mirror.Log.{Logger, log_event}
use dropbox_mirror.State.Phases.{start_phase, complete_phase, initialize_migration}
use dropbox_mirror.State.Records.{record_artifact}
use dropbox_mirror.State.Runs.{current_run}
use dropbox_mirror.State.Tables.{Db, Level, PhaseStatus, PhaseRun, Run}

-- What `record_artifact` reads of a file: its path from the root of the run, its digest and its size.
pub record ArtifactFile : Type 0 where
  pub relative_path : Text
  pub sha256 : Text
  pub size : ℕ

-- An artifact of a result; its file may be missing or not readable.
pub record NewArtifact : Type 0 where
  pub role : Text
  pub file : Outcome ArtifactFile
  pub row_count : Option ℕ

-- The statuses that the phases return.
pub data ResultStatus : Type 0 where
  passed failed planned : ResultStatus

abbrev pub recorded_as : ResultStatus → PhaseStatus
recorded_as passed = PhaseStatus.pass
recorded_as failed = PhaseStatus.fail
recorded_as planned = PhaseStatus.planned

abbrev pub status_text : ResultStatus → Text
status_text passed = codes "PASS"
status_text failed = codes "FAIL"
status_text planned = codes "PLANNED"

pub record PhaseResult : Type 0 where
  pub status : ResultStatus
  pub outputs : Json
  pub artifacts : List NewArtifact

pub record PhaseDefinition : Type 0 where
  pub number : ℕ
  pub command : Text
  pub name : Text
  pub run : ℕ → Db → Outcome PhaseResult × Db

pub record Process : Type 0 where
  pub now : Text
  pub config_path : Text
  pub config_sha256 : Text
  pub apply : Bool
  pub logger : Logger
  pub error_type : Failure → Text
  pub error_text : Failure → Text

abbrev pub with_file : Text → ℕ → NewArtifact → Outcome ArtifactFile → Db → Outcome (Unit {0}) × Db
with_file now id a (err e) db = (err e, db)
with_file now id a (ok f) db =
    (ok tt, record_artifact now id a.role f.relative_path f.sha256 f.size a.row_count db)

abbrev pub next_artifact :
    (Db → Outcome (Unit {0}) × Db) → Outcome (Unit {0}) × Db → Outcome (Unit {0}) × Db
next_artifact loop (err e, db) = (err e, db)
next_artifact loop (ok done, db) = loop db

-- Each artifact is committed on its own; the first one that cannot be read ends the loop.
unfoldable pub record_artifacts : Text → ℕ → List NewArtifact → Db → Outcome (Unit {0}) × Db
unfolding record_artifact
record_artifacts now id [] db = (ok tt, db)
record_artifacts now id (a ∷ artifacts) db =
    next_artifact (record_artifacts now id artifacts) (with_file now id a a.file db)

abbrev is_phase_error : FailureClass → Bool
is_phase_error phase_error = true
is_phase_error _ = false

-- A failure of a gate is raised as it is, any other as a failure of the phase.
abbrev pub raised_as : Failure → Failure
raised_as e = if is_phase_error (class e) then e else phase_failed

-- The artifacts of a phase that returned are recorded or one of them raised, which nothing catches.
abbrev pub end_artifacts :
    Process
    → PhaseDefinition
    → ℕ
    → PhaseResult
    → Outcome (Unit {0}) × Db
    → Outcome ResultStatus × Db
end_artifacts process phase id result (err e, db) = (err e, db)
end_artifacts process phase id result (ok done, db) = (
  ok result.status,
  log_event process.logger Level.info phase.name (codes "complete")
      (codes "phase " ++ phase.command ++ codes " completed with " ++ status_text result.status)
      none none (complete_phase process.now id (recorded_as result.status) result.outputs none db),
)

-- What follows the phase.
unfoldable pub end_phase :
    Process → PhaseDefinition → ℕ → Outcome PhaseResult × Db → Outcome ResultStatus × Db
unfolding complete_phase record_artifacts log_event
end_phase process phase id (err e, db) = (
  err (raised_as e),
  complete_phase process.now id PhaseStatus.fail
      (obj (field (codes "error_type") (str (process.error_type e)) end))
      (some (process.logger.redact (process.error_text e)))
      (log_event process.logger Level.error phase.name (codes "failure")
        (codes "phase " ++ phase.command ++ codes " failed") (some (process.error_type e))
        (some (process.error_text e)) db),
)
end_phase process phase id (ok result, db) =
    end_artifacts process phase id result (record_artifacts process.now id result.artifacts db)

unfoldable pub start_and_run : Process → PhaseDefinition → Db → Run → Outcome ResultStatus × Db
unfolding start_phase end_phase log_event
start_and_run process phase db r =
    let inputs = obj (
      field (codes "run_id") (num r.id)
        (field (codes "config_sha256") (str process.config_sha256) end)) in
    let parameters = obj (field (codes "apply") (bool process.apply) end) in
    let (id, started) =
      start_phase process.now phase.number phase.name process.apply inputs parameters db in
    let logged =
      log_event process.logger Level.info phase.name (codes "start")
        (codes "starting phase " ++ phase.command) none none started in
    end_phase process phase id (phase.run r.id logged)

abbrev with_row : Process → PhaseDefinition → Db → Outcome Run → Outcome ResultStatus × Db
with_row process phase db (err e) = (err e, db)
with_row process phase db (ok r) = start_and_run process phase db r

-- `run_phase`
unfoldable pub run_phase : Process → PhaseDefinition → Db → Outcome ResultStatus × Db
unfolding initialize_migration current_run start_and_run
run_phase process phase db =
    let initialized =
      initialize_migration process.now process.config_path process.config_sha256 db in
    with_row process phase initialized (current_run initialized)

-- The status that an outcome is recorded as.
abbrev pub status_of : Outcome PhaseResult → PhaseStatus
status_of (err e) = PhaseStatus.fail
status_of (ok result) = recorded_as result.status

abbrev IsReadable : NewArtifact → Type 0
IsReadable a = (f : ArtifactFile) × (a.file ≡ ok f)

-- A phase that raised, or that returned artifacts which can be read.
abbrev pub HasReadable : Outcome PhaseResult → Type 0
HasReadable (err e) = Unit
HasReadable (ok result) = All IsReadable result.artifacts

chosen :
    (b : Bool) (x y p : PhaseRun)
    → p ≡ (if b then x else y)
    → ((b ≡ true) × (p ≡ x)) ⊎ ((b ≡ false) × (p ≡ y))
chosen true x y p h = inl (refl, h)
chosen false x y p h = inr (refl, h)

completed_status :
    (now : Text) (id : ℕ) (final : PhaseStatus) (outputs : Json) (summary : Option Text) (db : Db)
    (p : PhaseRun)
    → In p (complete_phase now id final outputs summary db).phase_runs
    → p.id ≡ id
    → p.status ≡ final
unfolding complete_phase
completed_status now id final outputs summary db p m e =
    let (q, _, same) = In-map _ p db.phase_runs m in
    elim (chosen (q.id == id) _ q p same) [
      | inl (t, done) ↦ ap (λ (x : PhaseRun). x.status) done
      | inr (f, kept) ↦ cc (f, (nat_beq_iff q.id id).1 (sym (ap (λ (x : PhaseRun). x.id) kept) ∙ e))
    ]

record_artifacts_ok :
    (now : Text) (id : ℕ) (artifacts : List NewArtifact) (db : Db)
    → All IsReadable artifacts
    → (after : Db) × (record_artifacts now id artifacts db ≡ (ok tt, after))
unfolding record_artifacts
record_artifacts_ok now id [] db readable = (db, refl)
record_artifacts_ok now id (a ∷ artifacts) db ((f, e), readable) = rw e (
    record_artifacts_ok now id artifacts
      (record_artifact now id a.role f.relative_path f.sha256 f.size a.row_count db) readable)

-- A phase whose artifacts can be read is never left running once it has ended: its row has FAIL if
-- the phase raised, and otherwise the status that the phase returned.
pub end_phase_status :
    (process : Process) (phase : PhaseDefinition) (id : ℕ) (outcome : Outcome PhaseResult) (db : Db)
    (p : PhaseRun)
    → HasReadable outcome
    → In p (end_phase process phase id (outcome, db)).1.phase_runs
    → p.id ≡ id
    → p.status ≡ status_of outcome
unfolding end_phase log_event
end_phase_status process phase id (err e) db p readable m same =
    completed_status process.now id PhaseStatus.fail
      (obj (field (codes "error_type") (str (process.error_type e)) end))
      (some (process.logger.redact (process.error_text e)))
      (log_event process.logger Level.error phase.name (codes "failure")
        (codes "phase " ++ phase.command ++ codes " failed") (some (process.error_type e))
        (some (process.error_text e)) db)
      p m same
end_phase_status process phase id (ok result) db p readable m same =
    let (after, e) = record_artifacts_ok process.now id result.artifacts db readable in
    completed_status process.now id (recorded_as result.status) result.outputs none after p
      (subst
        (λ (x : Outcome (Unit {0}) × Db).
          In p (end_artifacts process phase id result x).1.phase_runs)
        e m)
      same
