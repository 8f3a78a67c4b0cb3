-- ===== src/Runner/Tests.antt =====
-- src/core/orchestrator/stage-runner.ts and manual-run.ts with a stage whose process ends cleanly.
use fluxaos.Prelude.{◌≡◌, refl, true, none, some, [], ◌∷◌, find, ok, update_where, filter, sort_by}
use fluxaos.Store.{
  PipelineRun, PipelineRunStatus, StageRunStatus, StageRun, Db, run_has_id, stage_run_has_id,
}
use fluxaos.Runs.Service.{fail_stage_and_run, sum_costs, complete_run, get_run}
use fluxaos.Routing.Resolver.{SortStrategy, Routes}
use fluxaos.Commands.Build.{DriverConfig}
use fluxaos.Executor.Sample.{the_run, start_db}
use fluxaos.Issues.Lookup.{find_issue}
use fluxaos.Routing.Resolver.{
  resolve, rule_for, candidates, flat_map, provider_by_id, sort_candidates,
}
use fluxaos.Commands.Template.{render_template, render_from}
use fluxaos.Commands.Build.{build_command}
use fluxaos.Runner.Environment.{
  resolve_project_id, acquire_isolation_env, resolve_stage_brand, derive_branch_name,
  find_inherited_artifacts_path, latest,
}
use fluxaos.Runner.Load.{prepare, render}
use fluxaos.Runs.Service.{
  complete_stage_run, append_event, append_issue_event, update_stage_run_status,
}
use fluxaos.Runner.Ports.{RepoProject, DriverRow, RunnerPorts, exited}
use fluxaos.Runner.Load.{prepare, load}
use fluxaos.Runner.Execute.{
  mark_started, complete_clean, ended, caught, run_process, StageRunResult, execute_stage_run,
}
use fluxaos.Runner.Manual.{finish_manually, on_hold, note_gate, ManualPorts, manual_outcome}
use fluxaos.Runner.Ends.{Agrees, manual_outcome-Ends}

abbrev agent_config : DriverConfig
agent_config = record {
  binary = "agent";
  default_args = some [];
  model_flag = none;
  dir_flag = none;
  session_name_flag = none;
  prompt_transport = "stdin";
  output_format = "text";
  output_format_flag = none;
  env_vars = none;
}

abbrev repo_project : RepoProject
repo_project = record {
  id = 1;
  repo_url = some "u";
  target_repo_path = some "/r";
  default_branch = "main";
  copy_files = [];
  brand_id = none;
}

abbrev agent : DriverRow
agent = record {
  name = "agent";
  config = agent_config;
  issue_prompt_template = some "do it";
  context_layout = some ("a", "b");
}

abbrev routes : Routes
routes = record {
  stages = record { id = 1; name = "build"; driver = none } ∷ [];
  project_ids = 1 ∷ [];
  profile_ids = 9 ∷ [];
  rules =
      record {
        id = 5;
        profile_id = 9;
        stage_name = some "build";
        allowed_models_pattern = some ".*";
        preferred_driver = some "agent";
        sort_strategy = some SortStrategy.cost;
        max_cost_usd = some 4000;
      }
      ∷ [];
  providers =
      record { id = 3; name = "local"; base_url = none; api_key_ref = none; is_healthy = true }
      ∷ [];
  models =
      record {
        id = 20;
        provider_id = 3;
        identifier = "m";
        cost_per_1k_input = some 500;
        cost_per_1k_output = none;
      }
      ∷ [];
}

abbrev clean_ports : RunnerPorts
clean_ports = record {
  short_id = λ id. "12345678";
  project_row = λ id db. some repo_project;
  driver = λ id project_id db. some agent;
  skill = λ id project_id db. none;
  skill_of = λ id db. none;
  persona = λ id project_id db. none;
  brand = λ id project_id db. none;
  routes = λ db. routes;
  compile = λ pattern. some (λ text. true);
  acquire = λ params db. ok (record { working_path = "/w"; artifacts_path = none });
  materialize = λ options. ok "/m";
  process_env = λ name. none;
  execute = λ cmd cwd timeout_ms db. (exited 0, db);
  commit_all = λ path message db. (ok (some "sha"), db);
  meanwhile = λ db. db;
}

abbrev manual_ports : ManualPorts
manual_ports = record {
  runner = clean_ports;
  evaluate_gate = λ stage_id stage_run_id r db. ok "passed";
  on_terminal = λ run_id project_id status db. db;
}

abbrev pending_stage : StageRun
pending_stage = record {
  id = 7;
  pipeline_run_id = 3;
  pipeline_stage_id = 1;
  status = StageRunStatus.pending;
  provider = none;
  model = none;
  driver = none;
  attempt = 1;
  pid = none;
  cost_usd = none;
  tokens_in = 0;
  tokens_out = 0;
  skill_signal = none;
  trigger = none;
  error_message = none;
  result_doc = none;
  started_at = none;
  completed_at = none;
  created_at = 0;
  updated_at = 0;
}

abbrev started_db : Db
started_db = record start_db { stage_runs = pending_stage ∷ [] }

abbrev clean_exit : StageRunResult
clean_exit = record {
  exit_code = 0;
  issue_id = some 5;
  stage_id = 1;
  driver_name = "agent";
  provider_name = some "local";
  model_identifier = some "m";
  skill_signal = some "proceed";
  skill_signal_reason = some "no_signal_clean_exit";
  skill_metadata = none;
}

abbrev left_db : Db
left_db = (execute_stage_run clean_ports 3 7 "manual" started_db).1

abbrev ended_run : PipelineRun
ended_run = record the_run {
  status = PipelineRunStatus.completed;
  completed_at = some 100;
  updated_at = 100;
}

abbrev ended_stage : StageRun
ended_stage = record pending_stage {
  status = StageRunStatus.completed;
  provider = some "local";
  model = some "m";
  driver = some "agent";
  cost_usd = some 0;
  skill_signal = some "proceed";
  trigger = some "manual";
  started_at = some 100;
  completed_at = some 100;
  updated_at = 100;
}

run_found : find (run_has_id 3) (manual_outcome manual_ports 3 7 started_db).1.runs ≡ some ended_run
unfolding manual_outcome note_gate on_hold finish_manually complete_run sum_costs fail_stage_and_run
    execute_stage_run load prepare run_process caught ended complete_clean mark_started get_run
    find_issue find resolve_project_id resolve acquire_isolation_env resolve_stage_brand
    derive_branch_name find_inherited_artifacts_path latest filter render render_template
    render_from build_command complete_stage_run append_event append_issue_event
    update_stage_run_status update_where rule_for candidates flat_map provider_by_id sort_candidates
    sort_by
run_found = refl

stage_found :
    find (stage_run_has_id 7) (manual_outcome manual_ports 3 7 started_db).1.stage_runs
    ≡ some ended_stage
unfolding manual_outcome note_gate on_hold finish_manually complete_run sum_costs fail_stage_and_run
    execute_stage_run load prepare run_process caught ended complete_clean mark_started get_run
    find_issue find resolve_project_id resolve acquire_isolation_env resolve_stage_brand
    derive_branch_name find_inherited_artifacts_path latest filter render render_template
    render_from build_command complete_stage_run append_event append_issue_event
    update_stage_run_status update_where rule_for candidates flat_map provider_by_id sort_candidates
    sort_by
stage_found = refl

manual_outcome-Ends_example :
    (ended_run.status ≡ (manual_outcome manual_ports 3 7 started_db).0)
    × Agrees (manual_outcome manual_ports 3 7 started_db).0 ended_stage.status
manual_outcome-Ends_example =
    manual_outcome-Ends manual_ports 3 7 started_db ended_run ended_stage run_found stage_found
