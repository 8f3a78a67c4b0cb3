-- ===== src/Orchestrator/Handlers.antt =====
-- `handleNewRun`, `drainPending` and `recoverOnStartup` of src/core/orchestrator/event-orchestrator.ts.
-- One call runs to its end here; Runs/Limit interleaves the claims of calls that overlap.
use fluxaos.Prelude.{
  ℕ, ◌+◌, Bool, true, false, not, ◌&&◌, Option, none, some, List, [], ◌∷◌, find, filter, any, ltb,
  ◌==◌, if◌then◌else◌,
}
use fluxaos.Store.{
  PipelineRunStatus, StageRunStatus, EventType, PipelineRun, PipelineStage, StageRun, Db,
  is_run_pending, is_stage_pending, is_stage_running,
}
use fluxaos.Runs.Service.{
  get_run, get_stages, update_run_status, try_acquire_running_slot, get_stage_runs,
  get_pending_runs, complete_stage_run, complete_run, append_event,
}
use fluxaos.Executor.Ports.{Ports, World}
use fluxaos.Executor.Finish.{finish_run}
use fluxaos.Executor.Route.{retries_or_zero}
use fluxaos.Executor.Launch.{no_results, launch_stage, Ended, finished, failed, unfinished}

-- What `launchStage` is called with.
pub record Launch : Type 0 where
  pub run : PipelineRun
  pub stage : PipelineStage
  pub pre_existing : Option StageRun

abbrev pub stage_with_id : ℕ → PipelineStage → Bool
stage_with_id id s = s.id == id

abbrev seed_in : PipelineRun → PipelineStage → StageRun → Option PipelineStage → Launch
seed_in run first seed (some stage) = record { run = run; stage = stage; pre_existing = some seed }
seed_in run first seed none = record { run = run; stage = first; pre_existing = none }

-- The stage run that a user has asked for, where it waits, or else the first stage.
abbrev seeded : PipelineRun → PipelineStage → List PipelineStage → Option StageRun → Launch
seeded run first stages (some seed) =
    seed_in run first seed (find (stage_with_id seed.pipeline_stage_id) stages)
seeded run first stages none = record { run = run; stage = first; pre_existing = none }

unfoldable pub choose_stage : PipelineRun → PipelineStage → List PipelineStage → Db → Launch
unfolding get_stage_runs
choose_stage run first stages db =
    seeded run first stages
      (find (λ (s : StageRun). is_stage_pending s.status) (get_stage_runs run.id db))

abbrev pub claim : ℕ → PipelineRun → List PipelineStage → Db → Option Launch × Db
claim max_concurrent run [] db = (none, update_run_status run.id PipelineRunStatus.failed db)
claim max_concurrent run (first ∷ rest) db =
    let (acquired, db') = try_acquire_running_slot run.id max_concurrent db in
    if acquired then (some (choose_stage run first (first ∷ rest) db'), db') else (none, db')

abbrev pub take_up_row : ℕ → Option PipelineRun → Db → Option Launch × Db
take_up_row max_concurrent none db = (none, db)
take_up_row max_concurrent (some run) db =
    if is_run_pending run.status
    then claim max_concurrent run (get_stages run.pipeline_id db) db
    else (none, db)

-- `handleNewRun` up to its launch.
unfoldable pub take_up : ℕ → ℕ → Db → Option Launch × Db
unfolding get_run get_stages update_run_status try_acquire_running_slot choose_stage
take_up max_concurrent run_id db = take_up_row max_concurrent (get_run run_id db) db

pub record Daemon : Type 0 where
  pub world : World
  pub in_flight : List ℕ

abbrev pub world_of : Ended → World
world_of (finished w) = w
world_of (failed w) = w
world_of (unfinished w) = w

abbrev pub is_in_flight : ℕ → List ℕ → Bool
is_in_flight run_id ids = any (λ id. id == run_id) ids

abbrev pub raised_by : Ended → Bool
raised_by (failed w) = true
raised_by _ = false

module _ (ports : Ports) (max_concurrent fuel : ℕ) where
  abbrev pub launch_taken : Option Launch → World → Ended
  launch_taken none w = finished w
  launch_taken (some l) w = launch_stage fuel ports l.run l.stage l.pre_existing w

  -- `inFlight.add(runId)`, and the `finally` of the call.
  abbrev pub enter : ℕ → Daemon → Daemon
  enter run_id d = record d { in_flight = run_id ∷ d.in_flight }

  abbrev pub leave : ℕ → Daemon → Daemon
  leave run_id d = record d { in_flight = filter (λ id. not (id == run_id)) d.in_flight }

  -- The body of the `try`: whether an exception of the launch leaves it, and the daemon then.
  abbrev pub handled : ℕ → Daemon → Bool × Daemon
  handled run_id d =
      let (taken, db) = take_up max_concurrent run_id d.world.db in
      let ended = launch_taken taken (record d.world { db = db }) in
      (raised_by ended, record d { world = world_of ended })

  -- The draining that the end of a run starts goes on beside the call.
  unfoldable pub handle_new_run : ℕ → Daemon → Bool × Daemon
  unfolding take_up launch_stage any filter
  handle_new_run run_id d =
      let (raised, after) = handled run_id (enter run_id d) in
      if is_in_flight run_id d.in_flight then (false, d) else (raised, leave run_id after)

  -- The loop of `drainPending`, which an exception leaves.
  unfoldable pub handle_all : List ℕ → Daemon → Bool × Daemon
  unfolding handle_new_run
  handle_all [] d = (false, d)
  handle_all (id ∷ ids) d =
      let (raised, next) = handle_new_run id d in
      let rest = handle_all ids next in if raised then (true, next) else rest

  unfoldable pub drain_pending : Daemon → Bool × Daemon
  unfolding handle_all get_pending_runs
  drain_pending d = handle_all (get_pending_runs d.world.db) d

  -- The process of a stage run that was running when the daemon started.
  abbrev is_alive : (ℕ → Bool) → Option ℕ → Bool
  is_alive alive none = false
  is_alive alive (some pid) = not (pid == 0) && alive pid

  abbrev recover_run : StageRun → PipelineStage → Option PipelineRun → World → Ended
  recover_run s_run stage (some run) w =
      if ltb s_run.attempt (retries_or_zero stage.max_retries + 1)
      then launch_stage fuel ports run stage none w
      else finished (finish_run ports run PipelineRunStatus.failed w)
  recover_run s_run stage none w =
      if ltb s_run.attempt (retries_or_zero stage.max_retries + 1)
      then finished w
      else finished
          (record w { db = complete_run s_run.pipeline_run_id PipelineRunStatus.failed w.db })

  abbrev mark_dead : StageRun → World → World
  mark_dead s_run w = record w {
    db = complete_stage_run s_run.id StageRunStatus.failed no_results w.db;
  }

  -- A stage run without its stage is failed, and its run is left as it is.
  abbrev recover_at : StageRun → Option PipelineStage → World → Ended
  recover_at s_run none w = finished (mark_dead s_run w)
  recover_at s_run (some stage) w =
      let dead = mark_dead s_run w in
      let noted = record dead {
        db = append_event s_run.id EventType.error none "Process died — crash recovery" dead.db;
      } in
      recover_run s_run stage (get_run s_run.pipeline_run_id noted.db) noted

  unfoldable pub recover_stage_run : (ℕ → Bool) → StageRun → World → Ended
  unfolding launch_stage finish_run complete_run complete_stage_run append_event get_run
  recover_stage_run alive s_run w =
      if is_alive alive s_run.pid
      then finished w
      else recover_at s_run (find (stage_with_id s_run.pipeline_stage_id) w.db.stages) w

  abbrev go_on_after : Ended → Ended → Ended
  go_on_after (finished w) later = later
  go_on_after (failed w) later = failed w
  go_on_after (unfinished w) later = unfinished w

  unfoldable pub recover_all : (ℕ → Bool) → List StageRun → World → Ended
  unfolding recover_stage_run
  recover_all alive [] w = finished w
  recover_all alive (s_run ∷ rest) w =
      let ended = recover_stage_run alive s_run w in
      let later = recover_all alive rest (world_of ended) in go_on_after ended later

  abbrev drain_after : Ended → Daemon → Bool × Daemon
  drain_after (finished w) d = drain_pending (record d { world = w })
  drain_after (failed w) d = (true, record d { world = w })
  drain_after (unfinished w) d = (false, record d { world = w })

  -- An exception ends the recovery, and with it the first drain.
  unfoldable pub recover_on_startup : (ℕ → Bool) → Daemon → Bool × Daemon
  unfolding recover_all drain_pending
  recover_on_startup alive d =
      let stale = filter (λ (s : StageRun). is_stage_running s.status) d.world.db.stage_runs in
      drain_after (recover_all alive stale d.world) d
