-- ===== src/Batches.antt =====
-- src/migrator/phases/p40_batches.py: the phase that takes the planned batches one after the other
-- within the run's budget. Times are whole ticks; what `time.time()` returns is an argument.
pub mod Chain
use dropbox_mirror.Base.{
  is_some, ℕ, zero, suc, ◌+◌, ◌-◌, ◌*◌, ◌≤◌, ◌<◌, min, max, Bool, true, false, ◌&&◌, ◌||◌, not,
  Option, none, some, List, [], ◌∷◌, ◌++◌, map, sum, length, keep, any, all, find, concat, In, All,
  Text, codes, ◌==◌, nat_eq, text_eq, option_eq, nat_beq_iff, text_iff, if◌then◌else◌, ltb, leb, ok,
  err, Result, ◌>>=◌, guard, ◌>>◌, ◌≡◌, ◌≢◌, refl, sym, ap, subst, ◌∙◌, ◌⊎◌, inl, inr, arith,
  Bool-cases,
}
use dropbox_mirror.Base.Int.{ℤ, pos, sub_ℕ, ltb_ℤ, ◌+ℤ◌}
use dropbox_mirror.Base.Sort.{sort_by}
use dropbox_mirror.Batch.Items.{Step, in_batch, Work}
use dropbox_mirror.Batch.Steps.{Checkpointed, end_batch}
use dropbox_mirror.Failure.{Failure, no_batch_completed, batch_failed, Outcome}
use dropbox_mirror.Plan.Run.{is_planned}
use dropbox_mirror.State.Runs.{Assign, update_run, current_run}
use dropbox_mirror.State.Tables.{Run, BatchStatus, Db, Batch}

-- The first batch always runs.
unfoldable pub should_start : ℤ → ℤ → ℕ → ℕ → Bool
should_start elapsed longest budget completed =
    (completed == 0) || not (ltb_ℤ (pos budget) (elapsed +ℤ longest))

-- The readings of the clock in one round: before the batch, at its start and at its end.
pub record Round : Type 0 where
  pub before : ℕ
  pub began : ℕ
  pub ended : ℕ

pub record Progress : Type 0 where
  pub durations : List ℤ
  pub completed : ℕ
  pub failed_batch : Option ℕ

abbrev pub no_progress : Progress
no_progress = record { durations = []; completed = 0; failed_batch = none }

abbrev max_ℤ : ℤ → ℤ → ℤ
max_ℤ a b = if ltb_ℤ a b then b else a

-- `max(durations, default=0.0)`
abbrev pub longest : List ℤ → ℤ
longest [] = pos 0
longest (d ∷ []) = d
longest (d ∷ e ∷ ds) = max_ℤ d (longest (e ∷ ds))

abbrev mark_started : Text → ℕ → Batch → Batch
mark_started now batch_id b = if b.id == batch_id then record b { started_at = some now } else b

unfoldable pub begin_batch : Text → ℕ → Work → Work
begin_batch now batch_id w =
    let db = w.db in
    record w { db = record db { batches = map (mark_started now batch_id) db.batches } }

unfoldable pub fail_batch : Text → ℕ → Work → Work
fail_batch now batch_id w =
    let db = w.db in
    record w {
      db = record db { batches = map (end_batch batch_id now BatchStatus.failed) db.batches };
    }

abbrev is_failed : BatchStatus → Bool
is_failed BatchStatus.failed = true
is_failed _ = false

-- `SELECT status FROM batches WHERE id=?` compared with FAILED.
unfoldable pub has_failed : ℕ → Work → Bool
has_failed batch_id w = any (λ (b : Batch). (b.id == batch_id) && is_failed b.status) w.db.batches

-- `update_run` with the two columns; they are both known, so it does not raise.
abbrev pub after_update : Work → Outcome Db → Work
after_update w (ok db) = record w { db = db }
after_update w (err e) = w

unfoldable pub set_chain : ℕ → ℕ → Bool → Work → Work
unfolding update_run
set_chain run_id remaining chain w =
    after_update w
      (update_run run_id (Assign.remaining_batches (some remaining) ∷ Assign.chain chain ∷ []) w.db)

-- The phase is over a run, the number of batches planned for it, and the steps of a batch.
module _ (run_id total : ℕ) (now : Text) (steps : Batch → Step Checkpointed) where
  -- The `except` branch: the batch says FAILED, and the run does not chain.
  abbrev pub abandon : Batch → Progress → Failure → Work → Outcome Progress × Work
  abandon row p e w =
      (err e, set_chain run_id (total - p.completed) false (fail_batch now row.id w))

  abbrev pub advance : Round → Progress → Progress
  advance t p = record p {
    durations = p.durations ++ (sub_ℕ t.ended t.began ∷ []);
    completed = p.completed + 1;
  }

  abbrev pub stop : Round → Batch → Progress → Progress
  stop t row p = record p {
    durations = p.durations ++ (sub_ℕ t.ended t.began ∷ []);
    failed_batch = some row.number;
  }

  -- The rest of a round once the steps have returned or raised.
  abbrev pub end_round :
      (Progress × Work → Outcome Progress × Work)
      → Round
      → Batch
      → Progress
      → Outcome Checkpointed × Work
      → Outcome Progress × Work
  end_round continue_loop t row p (err e, w) = abandon row p e w
  end_round continue_loop t row p (ok c, w) =
      if has_failed row.id w then (ok (stop t row p), w) else continue_loop (advance t p, w)

  -- `for row in planned`, with the readings of each round.
  unfoldable pub loop : ℕ → ℕ → List (Batch × Round) → Progress × Work → Outcome Progress × Work
  unfolding should_start begin_batch fail_batch has_failed set_chain
  loop start_epoch budget [] (p, w) = (ok p, w)
  loop start_epoch budget ((row, t) ∷ rows) (p, w) =
      let elapsed = sub_ℕ t.before start_epoch in
      let rest =
        end_round (loop start_epoch budget rows) t row p (steps row (begin_batch now row.id w)) in
      if should_start elapsed (longest p.durations) budget p.completed then rest else (ok p, w)

pub record BatchesOutputs : Type 0 where
  pub planned : ℕ
  pub completed : ℕ
  pub remaining : ℕ
  pub chain : Bool

-- `remaining > 0 and completed > 0 and failed_batch is None`
abbrev pub chains : ℕ → Progress → Bool
chains remaining p = ltb 0 remaining && ltb 0 p.completed && not (is_some p.failed_batch)

abbrev pub judge : ℕ → Progress → Outcome BatchesOutputs
judge total p =
    let remaining = total - p.completed in
    if is_some p.failed_batch
    then err batch_failed
    else if ltb 0 remaining && (p.completed == 0)
    then err no_batch_completed
    else ok (record {
      planned = total;
      completed = p.completed;
      remaining = remaining;
      chain = chains remaining p;
    })

-- What follows the loop.
unfoldable pub conclude : ℕ → ℕ → Outcome Progress × Work → Outcome BatchesOutputs × Work
unfolding set_chain
conclude run_id total (err e, w) = (err e, w)
conclude run_id total (ok p, w) =
    let remaining = total - p.completed in
    (judge total p, set_chain run_id remaining (chains remaining p) w)

-- `SELECT * FROM batches WHERE run_id=? AND status='PLANNED' ORDER BY number`
unfoldable pub planned_rows : ℕ → Db → List Batch
planned_rows run_id db =
    sort_by (λ (b : Batch). b.number ∷ [])
      (keep (λ (b : Batch). (b.run_id == run_id) && is_planned b.status) db.batches)

-- The readings of the clock beside the batches; `clock k` are those of round k.
abbrev pub with_rounds : (ℕ → Round) → ℕ → List Batch → List (Batch × Round)
with_rounds clock k [] = []
with_rounds clock k (row ∷ rows) = (row, clock k) ∷ with_rounds clock (k + 1) rows

-- `run` with `apply`, when the run in progress is `r` and the check of the destination has passed.
unfoldable pub run_batches :
    ℕ
    → Text
    → (ℕ → Round)
    → (Batch → Step Checkpointed)
    → Run
    → Work
    → Outcome BatchesOutputs × Work
unfolding loop conclude planned_rows
run_batches run_id now clock steps r w =
    let rows = planned_rows run_id w.db in
    conclude run_id (length rows) (
      loop run_id (length rows) now steps r.start_epoch (r.budget_minutes * 60)
        (with_rounds clock 0 rows) (no_progress, w))

-- `proton.root_uid`
abbrev pub with_root :
    Outcome (Unit {0}) → Outcome Run → (Run → Step BatchesOutputs) → Step BatchesOutputs
with_root root (err e) k w = (err e, w)
with_root (err e) (ok r) k w = (err e, w)
with_root (ok done) (ok r) k w = k r w

-- `run` with `apply`.
unfoldable pub run :
    ℕ → Text → (ℕ → Round) → Outcome (Unit {0}) → (Batch → Step Checkpointed) → Step BatchesOutputs
unfolding run_batches current_run
run run_id now clock root steps w =
    with_root root (current_run w.db) (run_batches run_id now clock steps) w
