-- ===== src/Batches/Chain.antt =====
-- src/migrator/phases/p40_batches.py: what the phase says of the run when it is over.
use dropbox_mirror.Base.{
  is_some, In-map, ℕ, ◌+◌, ◌-◌, ◌*◌, ◌≤◌, ◌<◌, Bool, true, false, some, List, [], ◌∷◌, length, In,
  Text, ◌==◌, nat_eq, text_eq, option_eq, nat_beq_iff, ok, err, ◌≡◌, refl, sym, ap, ◌∙◌, inl, inr,
  arith, Bool-cases,
}
use dropbox_mirror.Batches.{
  no_progress, has_failed, planned_rows, begin_batch, fail_batch, run_batches, judge, longest,
  end_round, current_run, BatchesOutputs, sub_ℕ, advance, run, conclude, chains, with_rounds,
  should_start, Outcome, loop, Work, Progress, Round, Checkpointed, Step, Assign, set_chain,
}
use dropbox_mirror.State.Runs.{update_run, assign_at}
use dropbox_mirror.State.Tables.{Run, Batch, Db}

-- A row of the run with its two columns set.
abbrev pub Marked : ℕ → ℕ → Bool → Db → Type 0
Marked run_id remaining chain db =
    (r : Run)
    → In r db.runs
    → r.id ≡ run_id
    → (r.remaining_batches ≡ some remaining) × (r.chain ≡ chain)

assigned :
    (run_id remaining : ℕ) (chain : Bool) (q r : Run)
    → r ≡ assign_at run_id (Assign.remaining_batches (some remaining) ∷ Assign.chain chain ∷ []) q
    → r.id ≡ run_id
    → (r.remaining_batches ≡ some remaining) × (r.chain ≡ chain)
assigned run_id remaining chain q r e same = elim (Bool-cases (q.id == run_id)) [
  | inl t ↦
      let e' = rw t at e in (ap (λ (x : Run). x.remaining_batches) e', ap (λ (x : Run). x.chain) e')
  | inr n ↦
      let same_id = ap (λ (x : Run). x.id) (rw n at e) in
      ground (arith, n, same, same_id, nat_beq_iff q.id run_id)
]

set_chain-Marked :
    (run_id remaining : ℕ) (chain : Bool) (w : Work)
    → Marked run_id remaining chain ((set_chain run_id remaining chain w).db)
unfolding set_chain update_run
set_chain-Marked run_id remaining chain w r m e =
    let columns = Assign.remaining_batches (some remaining) ∷ Assign.chain chain ∷ [] in
    let (q, mq, eq) = In-map (assign_at run_id columns) r w.db.runs m in
    assigned run_id remaining chain q r eq e

-- What is known when the loop is over: it has completed at most n batches, or it has raised and
-- the run does not chain.
abbrev LoopEnd : ℕ → ℕ → Outcome Progress × Work → Type 0
LoopEnd run_id n (ok p, w) = p.completed ≤ n
LoopEnd run_id n (err e, w) = (k : ℕ) × Marked run_id k false w.db

end_round-LoopEnd :
    (run_id total : ℕ) (now : Text) (steps : Batch → Step Checkpointed)
    (next : Progress × Work → Outcome Progress × Work) (t : Round) (row : Batch) (p : Progress)
    (o : Outcome Checkpointed × Work) (n : ℕ)
    → ((w : Work) → LoopEnd run_id n (next (advance run_id total now steps t p, w)))
    → p.completed ≤ n
    → LoopEnd run_id n (end_round run_id total now steps next t row p o)
end_round-LoopEnd run_id total now steps next t row p (err e, w) n later below = (
  total - p.completed,
  set_chain-Marked run_id (total - p.completed) false (fail_batch now row.id w),
)
end_round-LoopEnd run_id total now steps next t row p (ok c, w) n later below =
    elim (Bool-cases (has_failed row.id w)) [
      | inl failed ↦ rw failed below
      | inr fine ↦ rw fine (later w)
    ]

loop-LoopEnd :
    (run_id total : ℕ) (now : Text) (steps : Batch → Step Checkpointed) (start_epoch budget : ℕ)
    (rows : List (Batch × Round)) (p : Progress) (w : Work) (n : ℕ)
    → p.completed + length rows ≤ n
    → LoopEnd run_id n (loop run_id total now steps start_epoch budget rows (p, w))
unfolding loop
loop-LoopEnd run_id total now steps start_epoch budget [] p w n below = omega (arith, below)
loop-LoopEnd run_id total now steps start_epoch budget ((row, t) ∷ rows) p w n below =
    elim (Bool-cases
      (should_start (sub_ℕ t.before start_epoch) (longest p.durations) budget p.completed)) [
        | inl go ↦ rw go (
            end_round-LoopEnd run_id total now steps
              (loop run_id total now steps start_epoch budget rows) t row p
              (steps row (begin_batch now row.id w)) n
              (λ v.
                loop-LoopEnd run_id total now steps start_epoch budget rows
                  (advance run_id total now steps t p) v n (omega (arith, below)))
              (omega (arith, below)))
        | inr stopped ↦ rw stopped (omega (arith, below))
      ]

length-with_rounds :
    (clock : ℕ → Round) (k : ℕ) (rows : List Batch)
    → length (with_rounds clock k rows) ≡ length rows
length-with_rounds clock k [] = refl
length-with_rounds clock k (row ∷ rows) = omega (arith, length-with_rounds clock (k + 1) rows)

-- What a chaining run says of itself.
abbrev Chains : ℕ → Outcome BatchesOutputs × Work → Type 0
Chains run_id o =
    (row : Run)
    → In row o.1.db.runs
    → row.id ≡ run_id
    → row.chain ≡ true
    → (out : BatchesOutputs) × (o.0 ≡ ok out)
      × (0 < out.completed)
      × (0 < out.remaining)
      × (out.completed + out.remaining ≡ out.planned)
      × (row.remaining_batches ≡ some out.remaining)

chains_parts :
    (remaining : ℕ) (p : Progress)
    → chains remaining p ≡ true
    → (0 < remaining) × (0 < p.completed) × (is_some p.failed_batch ≡ false)
chains_parts remaining p t = ground (arith, t)

positive : (n : ℕ) → 0 < n → (n == 0) ≡ false
positive n h = ground arith

judge-chains :
    (total : ℕ) (p : Progress)
    → p.completed ≤ total
    → chains (total - p.completed) p ≡ true
    → (out : BatchesOutputs) × (judge total p ≡ ok out)
      × (0 < out.completed)
      × (0 < out.remaining)
      × (out.completed + out.remaining ≡ out.planned)
      × (out.remaining ≡ total - p.completed)
judge-chains total p below t =
    let (left, done, fine) = chains_parts (total - p.completed) p t in
    (
      record {
        planned = total;
        completed = p.completed;
        remaining = total - p.completed;
        chain = chains (total - p.completed) p;
      },
      rw (fine, positive p.completed done) (ground arith),
      done,
      left,
      omega (arith, below),
      refl,
    )

conclude-Chains :
    (run_id total : ℕ) (o : Outcome Progress × Work)
    → LoopEnd run_id total o
    → Chains run_id (conclude run_id total o)
unfolding conclude
conclude-Chains run_id total (err e, w) (k, marked) row m same chain =
    ground (arith, marked row m same, chain)
conclude-Chains run_id total (ok p, w) below row m same chain =
    let remaining = total - p.completed in
    let (er, ec) = set_chain-Marked run_id remaining (chains remaining p) w row m same in
    let (out, e, some_done, some_left, adds_up, left) =
      judge-chains total p below (sym ec ∙ chain) in
    (out, e, some_done, some_left, adds_up, er ∙ ap some (sym left))

-- The workflow starts the next run only after progress and with work left: if the phase is over, with
-- a run in progress and the destination checked, and a row of the run says that it chains, then the
-- phase has returned, has completed a batch, and has batches left, which together are those that
-- were planned, and the row has the number that is left. A batch that raises or fails never chains.
pub run-chain :
    (run_id : ℕ) (now : Text) (clock : ℕ → Round) (steps : Batch → Step Checkpointed) (r : Run)
    (w : Work)
    → current_run w.db ≡ ok r
    → (row : Run) → In row (run run_id now clock (ok tt) steps w).1.db.runs
    → row.id ≡ run_id
    → row.chain ≡ true
    → (out : BatchesOutputs) × ((run run_id now clock (ok tt) steps w).0 ≡ ok out)
      × (0 < out.completed)
      × (0 < out.remaining)
      × (out.completed + out.remaining ≡ out.planned)
      × (row.remaining_batches ≡ some out.remaining)
unfolding run
run-chain run_id now clock steps r w in_progress = rw in_progress (
    unfold run_batches in
    let rows = planned_rows run_id w.db in
    conclude-Chains run_id (length rows)
      (loop run_id (length rows) now steps r.start_epoch (r.budget_minutes * 60)
        (with_rounds clock 0 rows) (no_progress, w))
      (loop-LoopEnd run_id (length rows) now steps r.start_epoch (r.budget_minutes * 60)
        (with_rounds clock 0 rows) no_progress w (length rows)
        (omega (arith, length-with_rounds clock 0 rows))))
