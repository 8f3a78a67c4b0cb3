-- ===== src/Runner/Manual.antt =====
-- `executeManualRun` of src/core/orchestrator/manual-run.ts. The gate's verdict is only noted.
use fluxaos.Prelude.{
  ℕ, String, Bool, false, Option, none, some, find, ◌==◌, str_eq, if◌then◌else◌, Result, ok, err,
  ◌>>=◌,
}
use fluxaos.Store.{
  PipelineRunStatus, StageRun, EventType, IssueEventType, Payload, Actor, Issue, Db,
  stage_run_has_id,
}
use fluxaos.Runs.Service.{complete_run, fail_stage_and_run, append_event, append_issue_event}
use fluxaos.Issues.Lookup.{IssueError, find_issue, find_state_by_key, resolve_status_by_config_key}
use fluxaos.Issues.Service.{state_override, update_status}
use fluxaos.Executor.Ports.{given}
use fluxaos.Executor.Finish.{resolve_project_id_for_run}
use fluxaos.Runner.Ports.{RunnerPorts}
use fluxaos.Runner.Execute.{Metadata, StageRunResult, Attempt, execute_stage_run}

-- `evaluate_gate` writes its result to a table of its own; the hook catches its exceptions.
pub record ManualPorts : Type 0 where
  pub runner : RunnerPorts
  pub evaluate_gate : (stage_id stage_run_id : ℕ) → StageRunResult → Db → Result String String
  pub on_terminal : (run_id : ℕ) (project_id : Option ℕ) → PipelineRunStatus → Db → Db

abbrev thrown {ℓ} : {A : Type ℓ} → Result IssueError A → Result String A
thrown (err e) = err "issue service"
thrown (ok a) = ok a

abbrev or_hold : Option String → String
or_hold none = "hold"
or_hold (some reason) = reason

abbrev or_needs_human : Option String → String
or_needs_human none = "needs_human"
or_needs_human (some reason) = reason

unfoldable pub override_state : ℕ → Issue → String → Option String → Db → Result String Db
unfolding state_override find_state_by_key append_issue_event
override_state issue_id row target_key reason db = do
  target ← thrown (find_state_by_key row.project_id target_key db)
  (updated, db') ←
      thrown (state_override issue_id target.id row.version (some "orchestrator") db db)
  ok (
      append_issue_event issue_id IssueEventType.state_changed
        (Payload.redirected (or_hold reason) target_key) Actor.manual_run db')

-- `blockIssueOnRun` as this caller asks for it.
unfoldable pub block_issue_manually :
    ℕ → Issue → Option String → Option String → Db → Result String Db
unfolding update_status resolve_status_by_config_key append_issue_event
block_issue_manually issue_id row reason question db = do
  blocked_status_id ←
      thrown (resolve_status_by_config_key row.project_id "issues.status.on_blocked_key" db)
  (updated, db') ←
      thrown (update_status issue_id blocked_status_id Actor.manual_run row.version question db)
  ok (
      append_issue_event issue_id IssueEventType.pipeline_failed
        (Payload.blocked (or_needs_human reason) question) Actor.manual_run db')

abbrev question_of : Option Metadata → Option String
question_of none = none
question_of (some m) = m.question

abbrev target_of : Option Metadata → Option String
target_of none = none
target_of (some m) = given m.target_state

abbrev hold_found : StageRunResult → ℕ → Option Issue → Db → Result String Db
hold_found r issue_id none db = ok db
hold_found r issue_id (some row) db = elim (target_of r.skill_metadata) [
  | some target_key ↦ override_state issue_id row target_key r.skill_signal_reason db
  | none ↦ block_issue_manually issue_id row r.skill_signal_reason (question_of r.skill_metadata) db
]

abbrev pub is_hold : Option String → Bool
is_hold none = false
is_hold (some signal) = str_eq signal "hold"

abbrev hold_issue : StageRunResult → Option ℕ → Db → Result String Db
hold_issue r none db = ok db
hold_issue r (some issue_id) db = hold_found r issue_id (find_issue issue_id db) db

unfoldable pub on_hold : StageRunResult → Db → Result String Db
unfolding override_state block_issue_manually find_issue
on_hold r db = if is_hold r.skill_signal then hold_issue r r.issue_id db else ok db

module _ (ports : ManualPorts) (run_id stage_run_id : ℕ) where
  abbrev pub gate_at : Option StageRun → StageRunResult → Db → Result String Db
  gate_at none r db = ok db
  gate_at (some s) r db = do
    reason ← ports.evaluate_gate s.pipeline_stage_id stage_run_id r db
    ok (append_event stage_run_id EventType.gate_checked none reason db)

  unfoldable pub note_gate : StageRunResult → Db → Result String Db
  unfolding append_event
  note_gate r db = gate_at (find (stage_run_has_id stage_run_id) db.stage_runs) r db

  abbrev pub status_of : ℕ → PipelineRunStatus
  status_of exit_code =
      if exit_code == 0 then PipelineRunStatus.completed else PipelineRunStatus.failed

  abbrev pub note_end : StageRunResult → Option ℕ → Db → Db
  note_end r none db = db
  note_end r (some issue_id) db =
      append_issue_event issue_id
        (if r.exit_code == 0
          then IssueEventType.pipeline_completed
          else IssueEventType.pipeline_failed)
        (Payload.exited run_id r.exit_code) Actor.manual_run db

  unfoldable pub finish_manually : StageRunResult → Db → Db
  unfolding complete_run append_issue_event
  finish_manually r db = note_end r r.issue_id (complete_run run_id (status_of r.exit_code) db)

  -- After the stage: a throw leaves the store as it is, since what was written before stays.
  abbrev pub held : StageRunResult → Db → Result String Db → Attempt PipelineRunStatus
  held r db (err text) = (err text, db)
  held r db (ok db') = (ok (status_of r.exit_code), finish_manually r db')

  abbrev pub gated : StageRunResult → Db → Result String Db → Attempt PipelineRunStatus
  gated r db (err text) = (err text, db)
  gated r db (ok db') = held r db' (on_hold r db')

  abbrev pub after_stage : Attempt StageRunResult → Attempt PipelineRunStatus
  after_stage (err text, db) = (err text, db)
  after_stage (ok r, db) = gated r db (note_gate r db)

  -- The status that the terminal hook is told, and the store that it finds.
  abbrev pub recovered : Attempt PipelineRunStatus → PipelineRunStatus × Db
  recovered (ok status, db) = (status, db)
  recovered (err text, db) = (PipelineRunStatus.failed, fail_stage_and_run stage_run_id run_id db)

  unfoldable pub manual_outcome : Db → PipelineRunStatus × Db
  unfolding execute_stage_run note_gate on_hold finish_manually fail_stage_and_run
  manual_outcome db =
      recovered (after_stage (execute_stage_run ports.runner run_id stage_run_id "manual" db))

  unfoldable pub execute_manual_run : Db → Db
  unfolding manual_outcome resolve_project_id_for_run
  execute_manual_run db =
      let (status, db') = manual_outcome db in
      ports.on_terminal run_id (resolve_project_id_for_run run_id db') status db'
