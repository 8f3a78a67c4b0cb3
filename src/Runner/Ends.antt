-- ===== src/Runner/Ends.antt =====
-- src/core/orchestrator/manual-run.ts: how the run and its stage run stand when the terminal hook is called.
use fluxaos.Prelude.{
  find-written, ◌>>=◌, ◌∙◌, ℕ, ◌≡◌, refl, sym, ap, false, String, Option, none, some, List, find,
  Bool-cases, inl, inr, ◌⊎◌, ◌==◌, Result, ok, err,
}
use fluxaos.Store.{
  EventType, PipelineRunStatus, StageRunStatus, PipelineRun, StageRun, Db, run_has_id,
  stage_run_has_id,
}
use fluxaos.Runs.Service.{
  complete_run, finish, sum_costs, fail_stage, fail_run, fail_stage_and_run, append_event,
  append_issue_event,
}
use fluxaos.Executor.Launch.{was_cancelled}
use fluxaos.Runner.Execute.{StageRunResult, Attempt, execute_stage_run}
use fluxaos.Runner.Manual.{
  ManualPorts, is_hold, on_hold, gate_at, note_gate, status_of, note_end, finish_manually, held,
  gated, after_stage, recovered, manual_outcome,
}
use fluxaos.Runner.Ports.{RunnerPorts}
use fluxaos.Runner.Completion.{IsAt, HasEnded, IsSettled, is_stage_cancelled-eq}
use fluxaos.Runner.Settled.{execute_stage_run-settles}

-- The status of a stage run and the one of its manual run.
abbrev pub Agrees : PipelineRunStatus → StageRunStatus → Type 0
Agrees status stage_status =
    ((status ≡ PipelineRunStatus.completed)
      × ((stage_status ≡ StageRunStatus.completed) ⊎ (stage_status ≡ StageRunStatus.cancelled)))
    ⊎ ((status ≡ PipelineRunStatus.failed)
        × ((stage_status ≡ StageRunStatus.failed) ⊎ (stage_status ≡ StageRunStatus.cancelled)))

IsAt-status :
    (id : ℕ) (status : StageRunStatus) (s : StageRun) (rows : List StageRun)
    → find (stage_run_has_id id) rows ≡ some s
    → IsAt status id rows
    → s.status ≡ status
IsAt-status id status s rows f (inl missing) = absurd (cc)
IsAt-status id status s rows f (inr (t, e, same)) =
    let found : some s ≡ some t = sym f ∙ e in
    let s_is_t : s ≡ t = cc in ap (λ (x : StageRun). x.status) s_is_t ∙ same

HasEnded-status :
    (ports : RunnerPorts) (id : ℕ) (status : StageRunStatus) (s : StageRun) (rows : List StageRun)
    → find (stage_run_has_id id) rows ≡ some s
    → HasEnded ports status id rows
    → (s.status ≡ status) ⊎ (s.status ≡ StageRunStatus.cancelled)
HasEnded-status ports id status s rows f (inl h) = inl (IsAt-status id status s rows f h)
HasEnded-status ports id status s rows f (inr (h, others)) =
    inr (IsAt-status id StageRunStatus.cancelled s rows f h)

module _ (ports : ManualPorts) (run_id stage_run_id : ℕ) where
  abbrev Ends : PipelineRunStatus × Db → Type 0
  Ends (status, db) =
      (run : PipelineRun) (s : StageRun)
      → find (run_has_id run_id) db.runs ≡ some run
      → find (stage_run_has_id stage_run_id) db.stage_runs ≡ some s
      → (run.status ≡ status) × Agrees status s.status

  thrown-Ends :
      (db : Db) → Ends (PipelineRunStatus.failed, fail_stage_and_run stage_run_id run_id db)
  unfolding fail_stage_and_run
  thrown-Ends db run s e f =
      let (r, same) =
        find-written (run_has_id run_id) (fail_run db.now) db.runs run (λ x. refl) e in
      let (t, same_stage) =
        find-written (stage_run_has_id stage_run_id) (fail_stage db.now) db.stage_runs s (λ x. refl)
          f in
      (
        ap (λ (x : PipelineRun). x.status) same,
        inr (refl, inl (ap (λ (x : StageRun). x.status) same_stage)),
      )

  stage-Agrees :
      (r : StageRunResult) (db : Db) (s : StageRun)
      → IsSettled ports.runner stage_run_id r db
      → find (stage_run_has_id stage_run_id) db.stage_runs ≡ some s
      → Agrees (status_of ports run_id stage_run_id r.exit_code) s.status
  stage-Agrees r db s (inl (signal, c)) f = elim (Bool-cases (r.exit_code == 0)) [
    | inl e ↦ rw e (inl (refl, inr stopped))
    | inr e ↦ rw e (inr (refl, inr stopped))
  ]
    where
      stopped : s.status ≡ StageRunStatus.cancelled
      stopped = is_stage_cancelled-eq s.status (rw (f, was_cancelled) at c)
  stage-Agrees r db s (inr (inl (signal, e, at_rest))) f =
      rw e (inl (refl, HasEnded-status ports.runner stage_run_id _ s db.stage_runs f at_rest))
  stage-Agrees r db s (inr (inr (signal, e, at_rest))) f =
      rw e (inr (refl, HasEnded-status ports.runner stage_run_id _ s db.stage_runs f at_rest))

  finished-Ends :
      (r : StageRunResult) (db : Db)
      → IsSettled ports.runner stage_run_id r db
      → Ends (
        status_of ports run_id stage_run_id r.exit_code,
        finish_manually ports run_id stage_run_id r db,
      )
  unfolding finish_manually complete_run append_issue_event
  finished-Ends r db h = go r.issue_id
    where
      status : PipelineRunStatus
      status = status_of ports run_id stage_run_id r.exit_code

      ends :
          (run : PipelineRun) (s : StageRun)
          → find (run_has_id run_id) (complete_run run_id status db).runs ≡ some run
          → find (stage_run_has_id stage_run_id) db.stage_runs ≡ some s
          → (run.status ≡ status) × Agrees status s.status
      ends run s e f =
          let (row, same) =
            find-written (run_has_id run_id) (finish status (sum_costs run_id db.stage_runs) db.now)
              db.runs run (λ x. refl) e in
          (ap (λ (x : PipelineRun). x.status) same, stage-Agrees r db s h f)

      go :
          (o : Option ℕ)
          → Ends (status, note_end ports run_id stage_run_id r o (complete_run run_id status db))
      go none run s e f = ends run s e f
      go (some issue_id) run s e f = ends run s e f

  not_hold :
      (r : StageRunResult) (db : Db)
      → IsSettled ports.runner stage_run_id r db
      → is_hold r.skill_signal ≡ false
  not_hold r db (inl (e, c)) = rw e refl
  not_hold r db (inr (inl (e, clean, rest))) = rw e refl
  not_hold r db (inr (inr (e, dirty, rest))) = rw e refl

  held-Ends :
      (r : StageRunResult) (db : Db)
      → IsSettled ports.runner stage_run_id r db
      → Ends
          (recovered ports run_id stage_run_id (held ports run_id stage_run_id r db (on_hold r db)))
  unfolding on_hold
  held-Ends r db h = rw (not_hold r db h) (finished-Ends r db h)

  gated-Ends :
      (r : StageRunResult) (db : Db)
      → IsSettled ports.runner stage_run_id r db
      → Ends (
          recovered ports run_id stage_run_id
            (gated ports run_id stage_run_id r db (note_gate ports run_id stage_run_id r db)))
  unfolding note_gate append_event
  gated-Ends r db h = go (find (stage_run_has_id stage_run_id) db.stage_runs)
    where
      noted :
          (s : StageRun) (x : Result String String)
          → Ends (
              recovered ports run_id stage_run_id (
                gated ports run_id stage_run_id r db (
                  x >>= λ reason.
                  ok (append_event stage_run_id EventType.gate_checked none reason db))))
      noted s (err text) = thrown-Ends db
      noted s (ok reason) =
          held-Ends r (append_event stage_run_id EventType.gate_checked none reason db) h

      go :
          (o : Option StageRun)
          → Ends (
              recovered ports run_id stage_run_id
                (gated ports run_id stage_run_id r db (gate_at ports run_id stage_run_id o r db)))
      go none = held-Ends r db h
      go (some s) = noted s (ports.evaluate_gate s.pipeline_stage_id stage_run_id r db)

-- When the terminal hook of a manual run is called, the run, where it is stored, has the status that the hook
-- is told: completed with its stage run completed or cancelled, or failed with its stage run failed or
-- cancelled. It is neither left running nor cancelled.
pub manual_outcome-Ends :
    (ports : ManualPorts) (run_id stage_run_id : ℕ) (db : Db) (run : PipelineRun) (s : StageRun)
    → find (run_has_id run_id) (manual_outcome ports run_id stage_run_id db).1.runs ≡ some run
    → find
        (stage_run_has_id stage_run_id)
        (manual_outcome ports run_id stage_run_id db).1.stage_runs
      ≡ some s
    → (run.status ≡ (manual_outcome ports run_id stage_run_id db).0)
      × Agrees (manual_outcome ports run_id stage_run_id db).0 s.status
unfolding manual_outcome
manual_outcome-Ends ports run_id stage_run_id db =
    go (execute_stage_run ports.runner run_id stage_run_id "manual" db)
      (λ r db' e. execute_stage_run-settles ports.runner run_id stage_run_id "manual" db db' r e)
  where
    go :
        (x : Attempt StageRunResult)
        → ((r : StageRunResult) (db' : Db)
            → x ≡ (ok r, db')
            → IsSettled ports.runner stage_run_id r db')
        → Ends ports run_id stage_run_id
            (recovered ports run_id stage_run_id (after_stage ports run_id stage_run_id x))
    go (err text, db) h = thrown-Ends ports run_id stage_run_id db
    go (ok r, db) h = gated-Ends ports run_id stage_run_id r db (h r db refl)
