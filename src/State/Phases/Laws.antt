-- ===== src/State/Phases/Laws.antt =====
-- src/migrator/state.py: the attempts at a phase around `start_phase`.
use dropbox_mirror.Base.{
  ℕ, ◌+◌, ◌<◌, Bool, true, ◌&&◌, some, List, [], ◌∷◌, ◌++◌, map, keep, Text, nat_eq, text_eq,
  maximum, ◌≡◌, arith, In, inl, inr, keep-append, In-keep_of, text_beq_refl,
}
use dropbox_mirror.Base.Json.{Json}
use dropbox_mirror.Base.Rows.{next_id, latest-snoc}
use dropbox_mirror.State.Phases.{
  latest_phase, is_running, is_phase, interrupt, next_attempt, new_phase_run, start_phase,
}
use dropbox_mirror.State.Tables.{Db, PhaseRun}

abbrev pub is_running_phase : Text → ℕ → PhaseRun → Bool
is_running_phase migration number p = is_phase migration number p && is_running p.status

attempt-lt :
    (rows : List PhaseRun) (p : PhaseRun)
    → In p rows
    → p.attempt < maximum (map (λ (q : PhaseRun). q.attempt) rows) + 1
attempt-lt [] p m = elim m [ ]
attempt-lt (q ∷ rows) p (inl e) = rw e (omega arith)
attempt-lt (q ∷ rows) p (inr m) = omega (arith, attempt-lt rows p m)

module _ (now : Text) (number : ℕ) (name : Text) (apply : Bool) (inputs parameters : Json)
    (db : Db) where
  abbrev pub started : ℕ × Db
  started = start_phase now number name apply inputs parameters db

  abbrev older : List PhaseRun
  older = map (interrupt now db.migration_id number) db.phase_runs

  abbrev pub added : PhaseRun
  added =
      new_phase_run now db.migration_id number name apply inputs parameters
        (next_id (λ (p : PhaseRun). p.id) older) (next_attempt db.migration_id number older)

  self_is_phase : is_phase db.migration_id number added ≡ true
  self_is_phase = ground (arith, text_beq_refl db.migration_id)

  -- Every earlier attempt has a smaller number, so the key (migration_id, phase_number, attempt)
  -- of the new row is free.
  pub start_phase_attempt :
      (p : PhaseRun)
      → In p older
      → is_phase db.migration_id number p ≡ true
      → p.attempt < added.attempt
  start_phase_attempt p m same =
      attempt-lt (keep (is_phase db.migration_id number) older) p (In-keep_of _ p older m same)

  -- After `start_phase` the phase's latest attempt is the row that was added.
  pub latest_phase-start_phase : latest_phase number started.1 ≡ some added
  unfolding start_phase latest_phase
  latest_phase-start_phase =
      let kept : keep (is_phase db.migration_id number) (older ++ (added ∷ []))
          ≡ keep (is_phase db.migration_id number) older ++ (added ∷ []) =
        rw keep-append (unfold keep in rw self_is_phase) in
      rw kept (
        latest-snoc (λ (p : PhaseRun). p.attempt) (keep (is_phase db.migration_id number) older)
          added (λ p m. attempt-lt (keep (is_phase db.migration_id number) older) p m))
