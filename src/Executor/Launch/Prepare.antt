-- ===== src/Executor/Launch/Prepare.antt =====
-- `launchStage` of src/core/orchestrator/stage-executor.ts, up to the run of the driver.
use fluxaos.Prelude.{
  decimal, ℕ, String, Bool, true, false, Option, none, some, find, ◌==◌, ◌+s◌, Result, ok, err,
  ◌>>=◌,
}
use fluxaos.Store.{
  PipelineRunStatus, StageRunStatus, PipelineRun, PipelineStage, StageRun, Pipeline, Project,
}
use fluxaos.Runs.Service.{StageResults, update_stage_run_status}
use fluxaos.Issues.Lookup.{find_issue}
use fluxaos.Executor.Ports.{Ports, World, Driver, Env, Invocation, given}
use fluxaos.Executor.Prompt.{compose_prompt}
use fluxaos.Executor.Finish.{find_pipeline, finish_run}
use fluxaos.Executor.Route.{Exit, stopped, threw, handle_stage_failed}
use fluxaos.Executor.Launch.Rows.{
  mark_failed, message, number_of, usable, or_throw, keep_artifacts, effective_driver, binary_of,
  driver_message, driver_args, Loaded,
}

module _ (ports : Ports) (run : PipelineRun) (stage : PipelineStage) where
  -- The stage and the run fail together.
  abbrev pub fail_run : StageRun → StageResults → World → Exit
  fail_run s_run results w =
      stopped (finish_run ports run PipelineRunStatus.failed (mark_failed s_run results w))

  -- The stage fails; it may be tried again.
  abbrev pub fail_stage : StageRun → StageResults → World → Exit
  fail_stage s_run results w =
      handle_stage_failed ports run stage s_run (mark_failed s_run results w)

  -- The persona, the issue, the project and the arguments; a missing one is an exception.
  unfoldable pub load : Driver → ℕ → World → Result String Loaded
  unfolding find_issue
  load driver project_id w = do
    persona_id ← or_throw stage.persona_id "every stage must have a persona assigned"
    persona ← or_throw (ports.persona persona_id project_id w.db) "Persona not found"
    soul ← or_throw (given persona.soul) "Persona soul is empty"
    issue_id ← or_throw run.issue_id "Pipeline run has no issueId"
    issue ← or_throw (find_issue issue_id w.db) "Issue not found"
    project ←
        or_throw (find (λ (p : Project). p.id == project_id) w.db.projects) "Project not found"
    args ← or_throw driver.default_args "defaultArgs must be a string array"
    ok (record { soul = soul; issue = issue; project = project; args = args })

  abbrev pub invocation_of :
      Driver → String → Env → String → Loaded → StageRun → ℕ → World → Invocation
  invocation_of driver binary env artifacts loaded s_run project_id w =
      let result_doc_path = artifacts +s "/result.json" in
      let prompt = compose_prompt loaded.soul (usable (ports.skills project_id w.db)) (record {
        title = loaded.issue.title;
        description = loaded.issue.body_md;
        stage_name = stage.name;
        project_name = loaded.project.name;
        result_doc_path = result_doc_path;
        artifacts_dir = artifacts;
      }) in
      record {
        stage_run_id = s_run.id;
        result_doc_path = result_doc_path;
        artifacts_dir = artifacts;
        prompt = prompt;
        driver_command = binary;
        driver_args = driver_args driver prompt loaded.args;
        cwd = env.working_path;
        timeout_sec = stage.timeout_sec;
      }

  abbrev pub started : StageRun → World → World
  started s_run w = record w { db = update_stage_run_status s_run.id StageRunStatus.running w.db }

  -- Without the configuration the executor throws; without a runner the run fails.
  abbrev pub start :
      Bool
      → Bool
      → String
      → Invocation
      → StageRun
      → World
      → Result Exit (String × Invocation × World)
  start false runner binary invocation s_run w = err (threw w)
  start true false binary invocation s_run w =
      err (fail_run s_run (message "stageGraphRunner not injected — cannot execute stage") w)
  start true true binary invocation s_run w = ok (binary, invocation, w)

  abbrev pub with_loaded :
      Driver
      → String
      → ℕ
      → Env
      → String
      → Result String Loaded
      → StageRun
      → World
      → Result Exit (String × Invocation × World)
  with_loaded driver binary project_id env artifacts (err text) s_run w = err (threw w)
  with_loaded driver binary project_id env artifacts (ok loaded) s_run w =
      start ports.has_config ports.has_runner binary
        (invocation_of driver binary env artifacts loaded s_run project_id w) s_run
        (started s_run w)

  abbrev pub with_artifacts :
      Driver
      → String
      → ℕ
      → Env
      → Option String
      → StageRun
      → World
      → Result Exit (String × Invocation × World)
  with_artifacts driver binary project_id env none s_run w = err (
      fail_run s_run
        (message ("isolation provider returned no artifactsPath for run " +s decimal run.id)) w)
  with_artifacts driver binary project_id env (some artifacts) s_run w =
      let kept = keep_artifacts run artifacts w in
      with_loaded driver binary project_id env artifacts (load driver project_id kept) s_run kept

  abbrev pub in_env :
      Driver
      → String
      → ℕ
      → Result String Env
      → StageRun
      → World
      → Result Exit (String × Invocation × World)
  in_env driver binary project_id (err text) s_run w = err (fail_stage s_run (message text) w)
  in_env driver binary project_id (ok env) s_run w =
      with_artifacts driver binary project_id env (given env.artifacts_path) s_run w

  abbrev pub with_driver :
      ℕ → Option (Driver × String) → StageRun → World → Result Exit (String × Invocation × World)
  with_driver project_id none s_run w =
      err (fail_run s_run (message (driver_message stage.driver_id)) w)
  with_driver project_id (some (driver, binary)) s_run w =
      in_env driver binary project_id
        (ports.acquire project_id run.id (number_of run.issue_id w.db) w.db) s_run w

  abbrev pub in_pipeline :
      Option Pipeline → StageRun → World → Result Exit (String × Invocation × World)
  in_pipeline none s_run w = err (threw w)
  in_pipeline (some pipe) s_run w =
      with_driver pipe.project_id
        (binary_of (effective_driver ports stage.driver_id pipe.project_id w.db)) s_run w

  -- Everything up to the run of the driver, with the driver's binary.
  unfoldable pub prepare : StageRun → World → Result Exit (String × Invocation × World)
  unfolding find_pipeline finish_run mark_failed handle_stage_failed update_stage_run_status load
      compose_prompt
  prepare s_run w = in_pipeline (find_pipeline run.pipeline_id w.db) s_run w
