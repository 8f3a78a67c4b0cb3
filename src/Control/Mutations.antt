-- ===== src/Control/Mutations.antt =====
-- The mutations `cancel`, `cancelStage`, `approveStage`, `rejectStage` and `executeStage` of
-- src/server/routers/pipeline.ts. What was written before an exception stays.
use fluxaos.Prelude.{
  ℕ, String, Bool, true, false, ◌==◌, Option, none, some, List, [], ◌∷◌, find, if◌then◌else◌,
  Result, ok, err,
}
use fluxaos.Store.{PipelineRunStatus, StageRunStatus, EventType, StageRun, Db, stage_run_has_id}
use fluxaos.Runs.Service.{
  get_stage_runs, update_stage_run_status, complete_stage_run, complete_run, append_event,
}
use fluxaos.Executor.Launch.{no_results}
use fluxaos.Control.Access.{
  Members, RouterError, internal, not_found, assert_run_ownership, assert_stage_run_ownership,
}

abbrev pub is_stage_terminal : StageRunStatus → Bool
is_stage_terminal StageRunStatus.completed = true
is_stage_terminal StageRunStatus.failed = true
is_stage_terminal StageRunStatus.timed_out = true
is_stage_terminal StageRunStatus.cancelled = true
is_stage_terminal _ = false

-- How `process.kill(pid, 'SIGTERM')` ends.
pub data Signal : Type 0 where
  sent no_process : Signal
  refused : String → Signal

abbrev pub MutationResult : Type 0
MutationResult = Result RouterError (Unit {0}) × Db

abbrev signalled : Signal → Result RouterError (Unit {0})
signalled sent = ok tt
signalled no_process = ok tt
signalled (refused text) = err (internal text)

abbrev pub mark_cancelled : ℕ → Db → Db
mark_cancelled stage_run_id db =
    append_event stage_run_id EventType.cancelled none "cancelled by user"
      (complete_stage_run stage_run_id StageRunStatus.cancelled no_results db)

abbrev pub run_ended : ℕ → Db → MutationResult
run_ended run_id db = (ok tt, complete_run run_id PipelineRunStatus.cancelled db)

-- An exception of the signal leaves the mutation, and `next` is the rest of it.
abbrev pub once_signalled : Result RouterError (Unit {0}) → MutationResult → Db → MutationResult
once_signalled (err e) next db = (err e, db)
once_signalled (ok done) next db = next

abbrev pub when_granted :
    Result RouterError (Unit {0}) → (Db → MutationResult) → Db → MutationResult
when_granted (err e) mutation db = (err e, db)
when_granted (ok granted) mutation db = mutation db

module _ (kill : ℕ → Signal) where
  abbrev pub terminate_stage_process : Option ℕ → Result RouterError (Unit {0})
  terminate_stage_process none = ok tt
  terminate_stage_process (some pid) = if pid == 0 then ok tt else signalled (kill pid)

  -- The stage runs as they were read before the loop.
  unfoldable pub cancel_each : ℕ → List StageRun → Db → MutationResult
  unfolding complete_stage_run append_event complete_run
  cancel_each run_id [] db = run_ended run_id db
  cancel_each run_id (s ∷ rest) db =
      let skipped = cancel_each run_id rest db in
      let cancelled = cancel_each run_id rest (mark_cancelled s.id db) in
      if is_stage_terminal s.status
      then skipped
      else once_signalled (terminate_stage_process s.pid) cancelled db

  module _ (m : Members) (id project_id : ℕ) (viewer : Option ℕ) where
    abbrev cancel_all : Db → MutationResult
    cancel_all db = cancel_each id (get_stage_runs id db) db

    unfoldable pub cancel : Db → MutationResult
    unfolding assert_run_ownership get_stage_runs cancel_each
    cancel db = when_granted (assert_run_ownership m id project_id viewer db) cancel_all db

    abbrev cancel_found : Option StageRun → Db → MutationResult
    cancel_found none db = (err not_found, db)
    cancel_found (some row) db =
        once_signalled (terminate_stage_process row.pid)
          (run_ended row.pipeline_run_id (mark_cancelled id db)) db

    abbrev owned : (Db → MutationResult) → Db → MutationResult
    owned mutation db =
        when_granted (assert_stage_run_ownership m id project_id viewer db) mutation db

    unfoldable pub cancel_stage : Db → MutationResult
    unfolding assert_stage_run_ownership complete_stage_run append_event complete_run
    cancel_stage = owned (λ db. cancel_found (find (stage_run_has_id id) db.stage_runs) db)

    unfoldable pub approve_stage : Db → MutationResult
    unfolding assert_stage_run_ownership update_stage_run_status append_event
    approve_stage = owned (λ db. (
      ok tt,
      append_event id EventType.gate_checked none "manually approved"
          (update_stage_run_status id StageRunStatus.launching db),
    ))

    -- `abort` is true for the verdict abort, and false for rework.
    unfoldable pub reject_stage : (abort : Bool) → Db → MutationResult
    unfolding assert_stage_run_ownership complete_stage_run append_event
    reject_stage abort = owned (λ db. (
      ok tt,
      append_event id (if abort then EventType.cancelled else EventType.failed) none
          (if abort then "manually rejected: abort" else "manually rejected: rework")
          (complete_stage_run id (if abort then StageRunStatus.cancelled else StageRunStatus.failed)
            no_results db),
    ))

    unfoldable pub execute_stage : Db → MutationResult
    unfolding assert_stage_run_ownership update_stage_run_status append_event
    execute_stage = owned (λ db. (
      ok tt,
      append_event id EventType.launched none "manually executed by user"
          (update_stage_run_status id StageRunStatus.launching db),
    ))
