-- ===== src/Executor/Route.antt =====
-- `applyVerdict`, `handleStageFailed` and `completePipelineRun` of
-- src/core/orchestrator/stage-executor.ts. Each ends a launch, or goes on with the launch of a stage,
-- which is the last thing that it does.
use fluxaos.Prelude.{
  decimal, ℕ, ◌+◌, String, Bool, true, false, ◌&&◌, Option, none, some, find, ltb, ◌==◌, str_eq,
  ◌+s◌, if◌then◌else◌, Result, ok, err,
}
use fluxaos.Store.{
  PipelineRunStatus, IssueEventType, Actor, Payload, PipelineRun, PipelineStage, StageRun, Issue,
  Db,
}
use fluxaos.Gates.Rules.{GateVerdict}
use fluxaos.Runs.Service.{append_issue_event}
use fluxaos.Issues.Lookup.{IssueError, find_issue}
use fluxaos.Executor.Ports.{Ports, World, given}
use fluxaos.Executor.Finish.{finish_run, block_issue_on_run}

-- How a launch ends: it returns, it throws, or it goes on with another stage.
pub data Exit : Type 0 where
  stopped threw : World → Exit
  launches : PipelineStage → World → Exit

abbrev pub complete_sentinel : String
complete_sentinel = "__complete__"

abbrev pub blocked_sentinel : String
blocked_sentinel = "__blocked__"

-- `if (run.issueId) await runService.appendIssueEvent(…)`
abbrev pub note_on_issue : Option ℕ → IssueEventType → Payload → World → World
note_on_issue none type payload w = w
note_on_issue (some issue_id) type payload w = record w {
  db = append_issue_event issue_id type payload Actor.orchestrator w.db;
}

abbrev pub retries_or_zero : Option ℕ → ℕ
retries_or_zero none = 0
retries_or_zero (some n) = n

-- `hold`, `abort` and anything else go to the fallback.
abbrev pub route_of : GateVerdict → PipelineStage → Option String
route_of GateVerdict.proceed stage = stage.on_pass
route_of GateVerdict.rework stage = stage.on_fail
route_of GateVerdict.hold stage = stage.fallback
route_of GateVerdict.abort stage = stage.fallback

abbrev pub is_stage_named : ℕ → String → PipelineStage → Bool
is_stage_named pipeline_id name s = s.pipeline_id == pipeline_id && str_eq s.name name

abbrev verdict_text : GateVerdict → String
verdict_text GateVerdict.proceed = "proceed"
verdict_text GateVerdict.hold = "hold"
verdict_text GateVerdict.rework = "rework"
verdict_text GateVerdict.abort = "abort"

abbrev is_missing : Option Issue → Bool
is_missing none = true
is_missing (some i) = false

-- The issue of the run was deleted.
abbrev pub is_gone : Option ℕ → Db → Bool
is_gone none db = false
is_gone (some issue_id) db = is_missing (find_issue issue_id db)

abbrev pub signal_or_blocked : Option String → String
signal_or_blocked none = "blocked"
signal_or_blocked (some reason) = reason

-- The issue service throws from within `blockIssueOnRun` before it has written anything.
abbrev pub after_block : World → Result IssueError Db → (World → World) → Exit
after_block w (err e) then_do = threw w
after_block w (ok db) then_do = stopped (then_do (record w { db = db }))

module _ (ports : Ports) where
  unfoldable pub handle_stage_failed : PipelineRun → PipelineStage → StageRun → World → Exit
  unfolding finish_run append_issue_event
  handle_stage_failed run stage s_run w =
      if ltb s_run.attempt (retries_or_zero stage.max_retries + 1)
      then launches stage w
      else stopped (
          note_on_issue run.issue_id IssueEventType.pipeline_failed
            (Payload.failed_run run.id
              ("Stage failed after " +s (decimal s_run.attempt +s " attempt(s)")) stage.name)
            (finish_run ports run PipelineRunStatus.failed w))

  unfoldable pub complete_pipeline_run : PipelineRun → World → World
  unfolding finish_run append_issue_event
  complete_pipeline_run run w =
      note_on_issue run.issue_id IssueEventType.pipeline_completed (Payload.completed_run run.id)
        (finish_run ports run PipelineRunStatus.completed w)

  -- No route: the run is blocked first, and then the issue.
  unfoldable pub dead_end : PipelineRun → String → World → Exit
  unfolding finish_run block_issue_on_run
  dead_end run reason w =
      let finished = finish_run ports run PipelineRunStatus.blocked w in
      after_block finished (block_issue_on_run run.issue_id reason none true finished.db) (λ x. x)

  -- A stage asks for input: the issue is blocked first, and then the run.
  unfoldable pub block_for_input : PipelineRun → Option String → Option String → World → Exit
  unfolding finish_run block_issue_on_run
  block_for_input run signal_reason question w =
      after_block w
        (block_issue_on_run run.issue_id (signal_or_blocked signal_reason) question false w.db)
        (finish_run ports run PipelineRunStatus.blocked)

  abbrev pub to_stage : PipelineRun → String → GateVerdict → Option PipelineStage → World → Exit
  to_stage run name verdict none w =
      dead_end run
        ("Routing target stage '"
          +s (name
              +s ("' not found in pipeline "
                  +s (decimal run.pipeline_id
                      +s (" (verdict: " +s (verdict_text verdict +s ")"))))))
        w
  to_stage run name verdict (some stage) w = launches stage w

  abbrev pub to_target :
      PipelineRun
      → PipelineStage
      → GateVerdict
      → Option String
      → Option String
      → Option String
      → World
      → Exit
  to_target run stage verdict none signal_reason question w =
      dead_end run
        ("Routing field for verdict '"
          +s (verdict_text verdict +s ("' is null or empty on stage '" +s (stage.name +s "'"))))
        w
  to_target run stage verdict (some name) signal_reason question w =
      if str_eq name complete_sentinel
      then stopped (complete_pipeline_run run w)
      else if str_eq name blocked_sentinel
      then block_for_input run signal_reason question w
      else to_stage run name verdict (find (is_stage_named run.pipeline_id name) w.db.stages) w

  unfoldable pub apply_verdict :
      PipelineRun → PipelineStage → GateVerdict → Option String → Option String → World → Exit
  unfolding complete_pipeline_run block_for_input dead_end find_issue
  apply_verdict run stage verdict signal_reason question w =
      if is_gone run.issue_id w.db
      then stopped (finish_run ports run PipelineRunStatus.failed w)
      else to_target run stage verdict (given (route_of verdict stage)) signal_reason question w
