-- ===== src/Executor/Launch.antt =====
-- `launchStage` of src/core/orchestrator/stage-executor.ts: one stage, from its gate to its verdict.
mod Rows
mod Prepare
unfoldable pub use Rows.*
unfoldable pub use Prepare.*
use fluxaos.Prelude.{
  decimal, ℕ, zero, suc, String, Bool, true, false, Option, none, some, List, [], ◌∷◌, ◌++◌, find,
  update_where, ◌==◌, str_eq, ◌+s◌, if◌then◌else◌, Result, ok, err, ◌>>=◌,
}
use fluxaos.Store.{
  PipelineRunStatus, StageRunStatus, EventType, IssueEventType, Payload, GateMode, PipelineRun,
  PipelineStage, StageRun, Pipeline, Project, Issue, Db, is_stage_cancelled, run_has_id,
  stage_run_has_id,
}
use fluxaos.Gates.Rules.{GateVerdict}
use fluxaos.Runs.Service.{
  StageResults, create_stage_run, update_stage_run_status, complete_stage_run, append_event,
}
use fluxaos.Issues.Lookup.{find_issue}
use fluxaos.Executor.Ports.{
  Ports, World, Driver, Skill, Env, DocVerdict, ResultDoc, IngestOutput, valid, invalid,
  GraphResult, returned, Invocation, given,
}
use fluxaos.Executor.Prompt.{SkillRef, compose_prompt}
use fluxaos.Executor.Finish.{find_pipeline, finish_run}
use fluxaos.Executor.Route.{
  Exit, stopped, threw, launches, note_on_issue, handle_stage_failed, apply_verdict,
}

module _ (ports : Ports) (run : PipelineRun) (stage : PipelineStage) where
  abbrev pub completed_with : String → StageResults → StageRun → World → World
  completed_with binary results s_run w = record w {
    db =
        complete_stage_run s_run.id StageRunStatus.completed
          (record results { driver = some binary; trigger = some "automated" }) w.db;
  }

  abbrev pub results_of : ResultDoc → StageResults
  results_of doc = record no_results {
    tokens_in = doc.input_tokens;
    tokens_out = doc.output_tokens;
    model = doc.model;
    result_doc = some doc.text;
  }

  -- `if (!parsed.valid && parsed.raw)`
  abbrev pub keep_raw : Option String → StageRun → World → World
  keep_raw none s_run w = w
  keep_raw (some raw) s_run w = record w {
    db = record w.db {
      stage_runs =
          update_where (stage_run_has_id s_run.id)
            (λ (s : StageRun). record s { result_doc = some raw; updated_at = w.db.now })
            w.db.stage_runs;
    };
  }

  -- The verdict of an output; that of an invalid document is the initial one, `proceed`.
  unfoldable pub ingest : String → Option IngestOutput → StageRun → World → Exit
  unfolding complete_stage_run mark_failed handle_stage_failed apply_verdict
  ingest binary none s_run w =
      fail_stage ports run stage s_run (run_failure binary "Ingest output failed validation") w
  ingest binary (some (invalid raw)) s_run w =
      apply_verdict ports run stage GateVerdict.proceed none none
        (completed_with binary no_results s_run (keep_raw raw s_run w))
  ingest binary (some (valid doc)) s_run w =
      apply_verdict ports run stage (verdict_of doc.verdict) doc.signal_reason doc.question
        (completed_with binary (results_of doc) s_run w)

  abbrev pub after_graph : String → Option String → String → StageRun → World → Exit
  after_graph binary (some text) output s_run w =
      fail_stage ports run stage s_run (run_failure binary text) w
  after_graph binary none output s_run w = ingest binary (ports.parse output) s_run w

  unfoldable pub settle : String → GraphResult → StageRun → World → Exit
  unfolding ingest mark_failed handle_stage_failed
  settle binary (GraphResult.threw text) s_run w =
      fail_stage ports run stage s_run (run_failure binary text) w
  settle binary (returned output error) s_run w = after_graph binary (given error) output s_run w

  -- A stage that was cancelled while it ran is not touched again.
  unfoldable pub executed : String → GraphResult → StageRun → World → Exit
  unfolding settle finish_run
  executed binary result s_run w =
      if was_cancelled s_run.id w.db
      then stopped (finish_run ports run PipelineRunStatus.cancelled w)
      else settle binary result s_run w

  abbrev pub launched : StageRun → Result Exit (String × Invocation × World) → Exit
  launched s_run (err e) = e
  launched s_run (ok (binary, invocation, w)) =
      let (result, db) = ports.run invocation w.db in
      executed binary result s_run (record w { db = db })

  unfoldable pub launch_step : Option StageRun → World → Exit
  unfolding stage_run_for hold_stage prepare executed
  launch_step pre_existing w =
      let (s_run, w') = stage_run_for run stage pre_existing w in
      if is_held stage.gate_mode
      then stopped (hold_stage run stage s_run w')
      else launched s_run (prepare ports run stage s_run w')

-- How a chain of launches ends; `unfinished` where the fuel did not suffice.
pub data Ended : Type 0 where
  finished failed unfinished : World → Ended

abbrev pub go_on : (PipelineStage → World → Ended) → Exit → Ended
go_on launch (stopped w) = finished w
go_on launch (threw w) = failed w
go_on launch (launches stage w) = launch stage w

-- The launches that follow a launch: each is the last call of the one before.
unfoldable pub launch_stage :
    ℕ → Ports → PipelineRun → PipelineStage → Option StageRun → World → Ended
unfolding launch_step
launch_stage zero ports run stage pre_existing w = unfinished w
launch_stage (suc fuel) ports run stage pre_existing w =
    go_on (λ next_stage w'. launch_stage fuel ports run next_stage none w')
      (launch_step ports run stage pre_existing w)
