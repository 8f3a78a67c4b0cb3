-- ===== src/Runs/Service/StageRuns.antt =====
-- src/core/orchestrator/pipeline-run-service.ts: the methods that read and write stage runs.
use fluxaos.Prelude.{
  ℕ, suc, ◌+◌, String, Bool, ◌&&◌, ◌||◌, not, Option, none, some, List, [], ◌∷◌, ◌++◌, filter,
  update_where, leb, ◌==◌, if◌then◌else◌, sort_by,
}
use fluxaos.Store.{
  StageRunStatus, is_stage_running, is_stage_cancelled, PipelineStage, StageRun, Db,
  stage_run_has_id,
}
use fluxaos.Runs.Service.PipelineRuns.{cost_or_zero}

unfoldable pub get_stages : ℕ → Db → List PipelineStage
get_stages pipeline_id db =
    sort_by (λ (s : PipelineStage). s.sort_order)
      (filter (λ (s : PipelineStage). s.pipeline_id == pipeline_id) db.stages)

abbrev pub is_attempt_of : ℕ → ℕ → StageRun → Bool
is_attempt_of run_id stage_id s = s.pipeline_run_id == run_id && s.pipeline_stage_id == stage_id

abbrev pub larger : ℕ → ℕ → ℕ
larger a b = if leb a b then b else a

-- `coalesce(max(attempt), 0)` over the stage runs of one run and stage
unfoldable pub max_attempt : ℕ → ℕ → List StageRun → ℕ
max_attempt run_id stage_id [] = 0
max_attempt run_id stage_id (s ∷ rest) =
    let others = max_attempt run_id stage_id rest in
    if is_attempt_of run_id stage_id s then larger s.attempt others else others

unfoldable pub create_stage_run : ℕ → ℕ → Db → StageRun × Db
unfolding max_attempt
create_stage_run run_id stage_id db =
    let row : StageRun = record {
      id = db.next_id;
      pipeline_run_id = run_id;
      pipeline_stage_id = stage_id;
      status = StageRunStatus.pending;
      provider = none;
      model = none;
      driver = none;
      attempt = max_attempt run_id stage_id db.stage_runs + 1;
      pid = none;
      cost_usd = some 0;
      tokens_in = 0;
      tokens_out = 0;
      skill_signal = none;
      trigger = some "manual";
      error_message = none;
      result_doc = none;
      started_at = none;
      completed_at = none;
      created_at = db.now;
      updated_at = db.now;
    } in
    (row, record db { stage_runs = db.stage_runs ++ row ∷ []; next_id = suc db.next_id })

unfoldable pub get_stage_runs : ℕ → Db → List StageRun
get_stage_runs run_id db =
    sort_by (λ (s : StageRun). s.created_at)
      (filter (λ (s : StageRun). s.pipeline_run_id == run_id) db.stage_runs)

abbrev pub set_stage_status : StageRunStatus → ℕ → StageRun → StageRun
set_stage_status status now s = record s {
  status = status;
  started_at = if is_stage_running status then some now else s.started_at;
  updated_at = now;
}

unfoldable pub update_stage_run_status : ℕ → StageRunStatus → Db → Db
update_stage_run_status id status db = record db {
  stage_runs = update_where (stage_run_has_id id) (set_stage_status status db.now) db.stage_runs;
}

-- The argument `results`; `none` where the caller gives no value.
pub record StageResults : Type 0 where
  pub provider : Option String
  pub model : Option String
  pub driver : Option String
  pub cost_usd : Option ℕ
  pub tokens_in : Option ℕ
  pub tokens_out : Option ℕ
  pub skill_signal : Option String
  pub trigger : Option String
  pub error_message : Option String
  pub result_doc : Option String

-- `set({ column: undefined })` leaves the column alone.
abbrev pub keep {ℓ} : {A : Type ℓ} → Option A → Option A → Option A
keep (some new) old = some new
keep none old = old

abbrev pub complete : StageRunStatus → StageResults → ℕ → StageRun → StageRun
complete status results now s = record s {
  status = status;
  completed_at = some now;
  provider = keep results.provider s.provider;
  model = keep results.model s.model;
  driver = keep results.driver s.driver;
  cost_usd = some (cost_or_zero results.cost_usd);
  tokens_in = cost_or_zero results.tokens_in;
  tokens_out = cost_or_zero results.tokens_out;
  skill_signal = keep results.skill_signal s.skill_signal;
  trigger = keep results.trigger s.trigger;
  error_message = keep results.error_message s.error_message;
  result_doc = keep results.result_doc s.result_doc;
  updated_at = now;
}

-- The `where` clause: only a cancellation may overwrite a cancelled row.
abbrev pub may_complete : ℕ → StageRunStatus → StageRun → Bool
may_complete id status s =
    s.id == id && (is_stage_cancelled status || not (is_stage_cancelled s.status))

unfoldable pub complete_stage_run : ℕ → StageRunStatus → StageResults → Db → Db
complete_stage_run id status results db = record db {
  stage_runs = update_where (may_complete id status) (complete status results db.now) db.stage_runs;
}
