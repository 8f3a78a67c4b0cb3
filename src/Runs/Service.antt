-- ===== src/Runs/Service.antt =====
-- src/core/orchestrator/pipeline-run-service.ts, one function for each method: those on runs and stage runs by children, the events here.
mod PipelineRuns
mod StageRuns
unfoldable pub use PipelineRuns.*
unfoldable pub use StageRuns.*
use fluxaos.Prelude.{
  ℕ, suc, ◌+◌, String, Bool, ◌&&◌, ◌||◌, not, Option, none, some, List, [], ◌∷◌, ◌++◌, map, find,
  filter, count, update_where, ltb, leb, ◌==◌, if◌then◌else◌, sort_by,
}
use fluxaos.Store.{
  PipelineRunStatus, StageRunStatus, EventType, IssueEventType, Actor, Payload, is_run_pending,
  is_run_running, is_stage_running, is_stage_cancelled, PipelineStage, PipelineRun, StageRun, Db,
  run_has_id, stage_run_has_id,
}

unfoldable pub append_event : ℕ → EventType → Option ℕ → String → Db → Db
append_event stage_run_id type line_number message db = record db {
  events =
      db.events
      ++ record {
        stage_run_id = stage_run_id;
        type = type;
        line_number = line_number;
        message = message;
        timestamp = db.now;
      }
        ∷ [];
}

unfoldable pub append_issue_event : ℕ → IssueEventType → Payload → Actor → Db → Db
append_issue_event issue_id type payload actor db = record db {
  issue_events =
      db.issue_events
      ++ record { issue_id = issue_id; actor = actor; type = type; payload = payload } ∷ [];
}

abbrev pub fail_stage : ℕ → StageRun → StageRun
fail_stage now s = record s {
  status = StageRunStatus.failed;
  completed_at = some now;
  updated_at = now;
}

abbrev pub fail_run : ℕ → PipelineRun → PipelineRun
fail_run now r = record r {
  status = PipelineRunStatus.failed;
  completed_at = some now;
  updated_at = now;
}

-- One transaction.
unfoldable pub fail_stage_and_run : ℕ → ℕ → Db → Db
fail_stage_and_run stage_run_id run_id db = record db {
  stage_runs = update_where (stage_run_has_id stage_run_id) (fail_stage db.now) db.stage_runs;
  runs = update_where (run_has_id run_id) (fail_run db.now) db.runs;
}

unfoldable pub record_pid : ℕ → ℕ → Db → Db
record_pid stage_run_id pid db = record db {
  stage_runs =
      update_where (stage_run_has_id stage_run_id)
        (λ s. record s { pid = some pid; updated_at = db.now }) db.stage_runs;
}
