-- ===== src/Executor/Finish.antt =====
-- `resolveProjectIdForRun` and `blockIssueOnRun` (src/core/orchestrator/run-helpers.ts), and `finishRun`
-- (src/core/orchestrator/event-orchestrator.ts).
use fluxaos.Prelude.{
  ℕ, String, Bool, true, false, Option, none, some, [], ◌∷◌, ◌++◌, find, ◌==◌, Result, ok, ◌>>=◌,
}
use fluxaos.Store.{
  PipelineRunStatus, IssueEventType, Actor, Payload, PipelineRun, Pipeline, Issue, Db,
}
use fluxaos.Runs.Service.{get_run, complete_run, append_issue_event}
use fluxaos.Issues.Lookup.{IssueError, find_issue, resolve_status_by_config_key}
use fluxaos.Issues.Service.{update_status}
use fluxaos.Executor.Ports.{Ports, World}

unfoldable pub find_pipeline : ℕ → Db → Option Pipeline
find_pipeline id db = find (λ (p : Pipeline). p.id == id) db.pipelines

abbrev issue_of : Option ℕ → Db → Option Issue
issue_of none db = none
issue_of (some id) db = find_issue id db

abbrev project_of : Option Issue → Option Pipeline → Option ℕ
project_of (some i) pipe = some i.project_id
project_of none (some pipe) = some pipe.project_id
project_of none none = none

-- The project of the run's issue, or that of its pipeline.
unfoldable pub resolve_project_id_for_run : ℕ → Db → Option ℕ
unfolding get_run find_pipeline find_issue
resolve_project_id_for_run run_id db = elim (get_run run_id db) [
  | none ↦ none
  | some run ↦ project_of (issue_of run.issue_id db) (find_pipeline run.pipeline_id db)
]

-- `finishRun`; the draining of the queue that it starts goes on beside it.
unfoldable pub finish_run : Ports → PipelineRun → PipelineRunStatus → World → World
unfolding complete_run resolve_project_id_for_run
finish_run ports run status w =
    let db = complete_run run.id status w.db in
    record {
      db = ports.on_terminal run.id (resolve_project_id_for_run run.id db) status db;
      terminals = w.terminals ++ (run.id, status) ∷ [];
    }

abbrev append_failed : Bool → ℕ → Payload → Db → Db
append_failed true issue_id payload db =
    append_issue_event issue_id IssueEventType.pipeline_failed payload Actor.orchestrator db
append_failed false issue_id payload db = db

-- The calls of the stage executor: the actor is the orchestrator, and the status event is appended.
unfoldable pub block_issue : ℕ → Issue → String → Option String → Bool → Db → Result IssueError Db
unfolding update_status resolve_status_by_config_key append_issue_event
block_issue issue_id row reason question append_pipeline_failed db = do
  blocked_status_id ← resolve_status_by_config_key row.project_id "issues.status.on_blocked_key" db
  (updated, db') ←
      update_status issue_id blocked_status_id Actor.orchestrator row.version question db
  let payload = Payload.blocked reason question
  ok (
      append_failed append_pipeline_failed issue_id payload
        (append_issue_event issue_id IssueEventType.status_changed payload Actor.orchestrator db'))

abbrev block_found : ℕ → Option Issue → String → Option String → Bool → Db → Result IssueError Db
block_found issue_id none reason question failed db = ok db
block_found issue_id (some row) reason question failed db =
    block_issue issue_id row reason question failed db

unfoldable pub block_issue_on_run :
    Option ℕ → String → Option String → Bool → Db → Result IssueError Db
unfolding block_issue find_issue
block_issue_on_run none reason question failed db = ok db
block_issue_on_run (some issue_id) reason question failed db =
    block_found issue_id (find_issue issue_id db) reason question failed db
