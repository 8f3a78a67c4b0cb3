-- ===== src/Store/RunRows.antt =====
-- The rows of pipelines, runs and events (src/core/db/schema.ts), with the status strings of
-- src/core/constants.ts. A uuid is a number, a timestamp a number of milliseconds, and a cost a number of
-- millionths of a dollar, the scale of the column.
use fluxaos.Prelude.{ℕ, String, Bool, true, false, Option, ◌==◌}

pub data PipelineRunStatus : Type 0 where
  pending queued running completed failed timed_out cancelled blocked : PipelineRunStatus

pub data StageRunStatus : Type 0 where
  pending launching running completed failed timed_out cancelled : StageRunStatus

pub data EventType : Type 0 where
  launched heartbeat output gate_checked error timed_out completed failed cancelled : EventType

-- `PIPELINE_RUN_TERMINAL.has(status)`; `blocked` is not in the set.
abbrev pub is_run_terminal : PipelineRunStatus → Bool
is_run_terminal PipelineRunStatus.completed = true
is_run_terminal PipelineRunStatus.failed = true
is_run_terminal PipelineRunStatus.timed_out = true
is_run_terminal PipelineRunStatus.cancelled = true
is_run_terminal _ = false

abbrev pub is_run_pending : PipelineRunStatus → Bool
is_run_pending PipelineRunStatus.pending = true
is_run_pending _ = false

abbrev pub is_run_running : PipelineRunStatus → Bool
is_run_running PipelineRunStatus.running = true
is_run_running _ = false

abbrev pub is_stage_pending : StageRunStatus → Bool
is_stage_pending StageRunStatus.pending = true
is_stage_pending _ = false

abbrev pub is_stage_running : StageRunStatus → Bool
is_stage_running StageRunStatus.running = true
is_stage_running _ = false

abbrev pub is_stage_cancelled : StageRunStatus → Bool
is_stage_cancelled StageRunStatus.cancelled = true
is_stage_cancelled _ = false

pub data GateMode : Type 0 where
  auto rules hold manual skip : GateMode

pub record PipelineStage : Type 0 where
  pub id : ℕ
  pub pipeline_id : ℕ
  pub name : String
  pub sort_order : ℕ
  pub persona_id : Option ℕ
  pub driver_id : Option ℕ
  pub timeout_sec : ℕ
  pub max_retries : Option ℕ
  pub gate_mode : GateMode
  pub on_pass : Option String
  pub on_fail : Option String
  pub fallback : Option String

pub record PipelineRun : Type 0 where
  pub id : ℕ
  pub pipeline_id : ℕ
  pub issue_id : Option ℕ
  pub status : PipelineRunStatus
  pub started_at : Option ℕ
  pub completed_at : Option ℕ
  pub total_cost_usd : ℕ
  pub artifacts_path : Option String
  pub created_at : ℕ
  pub updated_at : ℕ

pub record StageRun : Type 0 where
  pub id : ℕ
  pub pipeline_run_id : ℕ
  pub pipeline_stage_id : ℕ
  pub status : StageRunStatus
  pub provider : Option String
  pub model : Option String
  pub driver : Option String
  pub attempt : ℕ
  pub pid : Option ℕ
  pub cost_usd : Option ℕ
  pub tokens_in : ℕ
  pub tokens_out : ℕ
  pub skill_signal : Option String
  pub trigger : Option String
  pub error_message : Option String
  pub result_doc : Option String
  pub started_at : Option ℕ
  pub completed_at : Option ℕ
  pub created_at : ℕ
  pub updated_at : ℕ

-- `line_number` is the payload's `lineNumber`, where that is a number.
pub record Event : Type 0 where
  pub stage_run_id : ℕ
  pub type : EventType
  pub line_number : Option ℕ
  pub message : String
  pub timestamp : ℕ

abbrev pub run_has_id : ℕ → PipelineRun → Bool
run_has_id id r = r.id == id

abbrev pub stage_run_has_id : ℕ → StageRun → Bool
stage_run_has_id id s = s.id == id
