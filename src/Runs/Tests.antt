-- ===== src/Runs/Tests.antt =====
-- Runs of src/core/orchestrator/pipeline-run-service.ts on a small store.
use fluxaos.Prelude.{
  ℕ, ◌≡◌, Option, none, some, [], ◌∷◌, arith, filter, count, IsSortedBy, ◌==◌, ◌+◌,
}
use fluxaos.Store.{PipelineRunStatus, StageRunStatus, EventType, PipelineRun, StageRun, Event, Db}
use fluxaos.Runs.Service.{
  get_running_runs, try_acquire_running_slot, create_stage_run, StageResults, is_attempt_of,
  max_attempt, create_run,
}
use mathlib.Core.List.{Perm}
use fluxaos.Runs.Timeline.{line_of, is_stream, list_events}
use fluxaos.Runs.Timeline.Order.{IsPlaced, is_lifecycle, list_events-order}
use fluxaos.Runs.Slots.{AreUnique}
use fluxaos.Runs.Limit.{Step, Reach, IsWithin, Reach-IsWithin}
use fluxaos.Runs.Limiter.{acquire, perform_all}
use fluxaos.Runs.Refinement.{view}
use fluxaos.Runs.Traces.{commands, Reach-refines}
use fluxaos.Runs.Attempts.{IsNumbered, create_stage_run-attempt}

abbrev run_of : ℕ → PipelineRunStatus → PipelineRun
run_of id status = record {
  id = id;
  pipeline_id = 1;
  issue_id = none;
  status = status;
  started_at = none;
  completed_at = none;
  total_cost_usd = 0;
  artifacts_path = none;
  created_at = id;
  updated_at = id;
}

abbrev stage_run_of : ℕ → ℕ → StageRunStatus → StageRun
stage_run_of id n status = record {
  id = id;
  pipeline_run_id = 1;
  pipeline_stage_id = 7;
  status = status;
  provider = none;
  model = none;
  driver = none;
  attempt = n;
  pid = none;
  cost_usd = some 0;
  tokens_in = 0;
  tokens_out = 0;
  skill_signal = none;
  trigger = none;
  error_message = none;
  result_doc = none;
  started_at = none;
  completed_at = none;
  created_at = id;
  updated_at = id;
}

abbrev waiting : PipelineRun
waiting = run_of 1 PipelineRunStatus.pending

abbrev busy : PipelineRun
busy = run_of 2 PipelineRunStatus.running

abbrev stopped : StageRun
stopped = stage_run_of 10 1 StageRunStatus.cancelled

abbrev going : StageRun
going = stage_run_of 11 2 StageRunStatus.running

abbrev two_runs : Db
two_runs = record {
  projects = [];
  pipelines = [];
  stages = [];
  runs = waiting ∷ busy ∷ [];
  stage_runs = stopped ∷ going ∷ [];
  events = [];
  issues = [];
  states = [];
  statuses = [];
  config = [];
  issue_events = [];
  next_id = 20;
  now = 100;
}

two_runs-AreUnique : AreUnique two_runs.runs
unfolding count
two_runs-AreUnique id = ground arith

two_runs-IsWithin : IsWithin 1 two_runs
two_runs-IsWithin = record {
  unique = two_runs-AreUnique;
  numbered = (omega arith, (omega arith, tt));
  within = unfold get_running_runs count in omega arith;
}

Reach-IsWithin_example : IsWithin 1 (try_acquire_running_slot 1 1 (create_run 1 5 two_runs).1).1
Reach-IsWithin_example =
    Reach-IsWithin two_runs-IsWithin
      (Reach.next (Reach.next Reach.here (Step.created 1 5)) (Step.attempted 1))

abbrev created_and_tried :
    Reach 1 two_runs (try_acquire_running_slot 1 1 (create_run 1 5 two_runs).1).1
created_and_tried = Reach.next (Reach.next Reach.here (Step.created 1 5)) (Step.attempted 1)

Reach-refines_example :
    (view (try_acquire_running_slot 1 1 (create_run 1 5 two_runs).1).1
      ≡ perform_all 1 (commands created_and_tried) (view two_runs))
    × ((id : ℕ)
        → (try_acquire_running_slot id 1
            (try_acquire_running_slot 1 1 (create_run 1 5 two_runs).1).1).0
          ≡ (acquire 1 id (view (try_acquire_running_slot 1 1 (create_run 1 5 two_runs).1).1)).0)
Reach-refines_example = Reach-refines two_runs-IsWithin created_and_tried

two_runs-IsNumbered : IsNumbered two_runs.stage_runs
unfolding count max_attempt
two_runs-IsNumbered run_id stage_id = ground arith

create_stage_run-attempt_example :
    ((create_stage_run 1 7 two_runs).0.attempt ≡ count (is_attempt_of 1 7) two_runs.stage_runs + 1)
    × ((create_stage_run 1 7 two_runs).0.attempt
        ≡ count (is_attempt_of 1 7) (create_stage_run 1 7 two_runs).1.stage_runs)
    × IsNumbered (create_stage_run 1 7 two_runs).1.stage_runs
create_stage_run-attempt_example = create_stage_run-attempt 1 7 two_runs two_runs-IsNumbered

abbrev no_results : StageResults
no_results = record {
  provider = none;
  model = none;
  driver = none;
  cost_usd = none;
  tokens_in = none;
  tokens_out = none;
  skill_signal = none;
  trigger = none;
  error_message = none;
  result_doc = none;
}

abbrev event_of : EventType → Option ℕ → ℕ → Event
event_of type line_number timestamp = record {
  stage_run_id = 10;
  type = type;
  line_number = line_number;
  message = "";
  timestamp = timestamp;
}

abbrev logged : Db
logged = record two_runs {
  events =
      event_of EventType.output (some 2) 3
      ∷ event_of EventType.launched none 1
      ∷ event_of EventType.output (some 1) 2
      ∷ [];
}

list_events-order_example :
    Perm (list_events 10 logged) (filter (λ (e : Event). e.stage_run_id == 10) logged.events)
    × IsSortedBy line_of (filter is_stream (list_events 10 logged))
    × IsSortedBy (λ e. e.timestamp) (filter is_lifecycle (list_events 10 logged))
    × IsPlaced (list_events 10 logged)
list_events-order_example = list_events-order 10 logged
