-- ===== src/Control/Tests.antt =====
-- src/server/routers/pipeline.ts with a member of the project, and with a stranger.
use fluxaos.Prelude.{
  insert_by, arith, count, sort_by, filter, any, find, ◌≡◌, refl, true, false, none, some, [], ◌∷◌,
  ◌⊎◌, ok, err,
}
use fluxaos.Store.{StageRun, StageRunStatus, Db}
use fluxaos.Executor.Sample.{start_db}
use fluxaos.Executor.Finish.{resolve_project_id_for_run, find_pipeline}
use fluxaos.Runs.Service.{
  create_run, get_stages, get_running_runs, complete_run, append_event, complete_stage_run,
  get_stage_runs, get_run,
}
use fluxaos.Issues.Lookup.{open_count, has_open_children, find_issue}
use fluxaos.Control.Access.{
  Members, not_found, unauthorized, assert_project_access, assert_run_ownership,
  assert_stage_run_ownership, get_project_id_for_stage_run,
}
use fluxaos.Control.Mutations.{
  cancel_each, Signal, cancel, cancel_stage, approve_stage, reject_stage, execute_stage,
}
use fluxaos.Control.Guarded.{IsRefused, IsGranted, mutations-IsGranted}
use fluxaos.Control.Cancelled.{IsCancelled, cancel-IsCancelled}
use fluxaos.Store.{PipelineRun}
use fluxaos.Executor.Sample.{build, review, the_run, quiet, start_world}
use fluxaos.Gates.Rules.{GateVerdict}
use fluxaos.Control.Access.{assert_routing_fields_valid}
use fluxaos.Control.Routes.{LeadsOn, apply_verdict-LeadsOn}
use fluxaos.Runs.Limit.{IsWithin}
use fluxaos.Orchestrator.Handlers.{take_up}
use fluxaos.Control.Trigger.{trigger}
use fluxaos.Control.Seeded.{take_up-trigger}

abbrev one_member : Members
one_member = record {
  bypass = false;
  teams = (1, some 4) ∷ [];
  project_members = [];
  team_members = (4, 7) ∷ [];
}

abbrev row : StageRun
row = record {
  id = 3;
  pipeline_run_id = 3;
  pipeline_stage_id = 1;
  status = StageRunStatus.running;
  provider = none;
  model = none;
  driver = none;
  attempt = 1;
  pid = some 9;
  cost_usd = none;
  tokens_in = 0;
  tokens_out = 0;
  skill_signal = none;
  trigger = none;
  error_message = none;
  result_doc = none;
  started_at = none;
  completed_at = none;
  created_at = 0;
  updated_at = 0;
}

abbrev staged : Db
staged = record start_db { stage_runs = row ∷ [] }

-- A member of the project's team may act, a stranger may not, and nobody may without a viewer.
access_tests :
    (assert_stage_run_ownership one_member 3 1 (some 7) staged ≡ ok tt)
    × (assert_stage_run_ownership one_member 3 1 (some 6) staged ≡ err not_found)
    × (assert_run_ownership one_member 3 2 (some 7) staged ≡ err not_found)
    × (assert_project_access one_member 1 none ≡ err unauthorized)
unfolding assert_stage_run_ownership assert_run_ownership assert_project_access
    get_project_id_for_stage_run resolve_project_id_for_run find_pipeline find_issue get_run find
    any
access_tests = (refl, refl, refl, refl)

mutations-IsGranted_example :
    (IsRefused (cancel (λ pid. Signal.sent) one_member 3 1 (some 7) staged) staged
      ⊎ IsGranted one_member (resolve_project_id_for_run 3 staged) 1 (some 7))
    × (IsRefused (cancel_stage (λ pid. Signal.sent) one_member 3 1 (some 7) staged) staged
        ⊎ IsGranted one_member (get_project_id_for_stage_run 3 staged) 1 (some 7))
    × (IsRefused (approve_stage (λ pid. Signal.sent) one_member 3 1 (some 7) staged) staged
        ⊎ IsGranted one_member (get_project_id_for_stage_run 3 staged) 1 (some 7))
    × (IsRefused (reject_stage (λ pid. Signal.sent) one_member 3 1 (some 7) true staged) staged
        ⊎ IsGranted one_member (get_project_id_for_stage_run 3 staged) 1 (some 7))
    × (IsRefused (execute_stage (λ pid. Signal.sent) one_member 3 1 (some 7) staged) staged
        ⊎ IsGranted one_member (get_project_id_for_stage_run 3 staged) 1 (some 7))
mutations-IsGranted_example =
    mutations-IsGranted (λ pid. Signal.sent) one_member 3 1 (some 7) true staged

-- The member cancels the run, and its running stage run with it.
ended_by_member : (cancel (λ pid. Signal.sent) one_member 3 1 (some 7) staged).0 ≡ ok tt
unfolding cancel cancel_each assert_run_ownership assert_project_access resolve_project_id_for_run
    find_pipeline find_issue get_run get_stage_runs filter sort_by complete_stage_run append_event
    complete_run find any
ended_by_member = refl

cancel-IsCancelled_example :
    IsCancelled 3 (cancel (λ pid. Signal.sent) one_member 3 1 (some 7) staged).1
cancel-IsCancelled_example =
    cancel-IsCancelled (λ pid. Signal.sent) one_member 3 1 (some 7) staged ended_by_member

build-IsAccepted :
    assert_routing_fields_valid 1 build.on_pass build.on_fail build.fallback (some 1) start_db
    ≡ ok tt
unfolding assert_routing_fields_valid any
build-IsAccepted = refl

apply_verdict-LeadsOn_example :
    LeadsOn quiet the_run build GateVerdict.proceed none none start_world "review"
apply_verdict-LeadsOn_example =
    apply_verdict-LeadsOn quiet the_run build GateVerdict.proceed none none start_world (some 1)
      "review" build-IsAccepted (unfold find_issue find in refl) refl

start_db-IsWithin : IsWithin 2 start_db
start_db-IsWithin = record {
  unique = λ id. unfold count in ground arith;
  numbered = (omega arith, tt);
  within = unfold get_running_runs count in omega arith;
}

take_up-trigger_example :
    (run : PipelineRun) × (seed : StageRun) × ((trigger
        (λ db. db)
        (λ db. db)
        1
        5
        2
        start_db
        start_db).0
      ≡ ok run)
    × (seed.pipeline_stage_id ≡ 2)
    × (seed.status ≡ StageRunStatus.pending)
    × ((take_up 2 run.id (trigger (λ db. db) (λ db. db) 1 5 2 start_db start_db).1).0
        ≡ some (record { run = run; stage = review; pre_existing = some seed }))
    × ((take_up 2 run.id (create_run 1 5 start_db).1).0
        ≡ some (record { run = run; stage = build; pre_existing = none }))
take_up-trigger_example =
    take_up-trigger (λ db. db) (λ db. db) 2 1 5 2 start_db start_db build review (review ∷ [])
      (λ db. (refl, refl, refl)) (λ db. (refl, refl, refl))
      (unfold has_open_children open_count count in refl) start_db-IsWithin tt
      (unfold get_running_runs count in omega arith)
      (unfold get_stages sort_by insert_by filter in refl) (unfold find in refl)
