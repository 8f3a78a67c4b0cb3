-- ===== src/Runs/Service/PipelineRuns.antt =====
-- src/core/orchestrator/pipeline-run-service.ts: the methods that read and write pipeline runs. A query that returns one row returns the
-- first that matches.
use fluxaos.Prelude.{
  ℕ, suc, ◌+◌, Bool, ◌&&◌, Option, none, some, List, [], ◌∷◌, ◌++◌, map, find, filter, count,
  update_where, ltb, ◌==◌, if◌then◌else◌, sort_by,
}
use fluxaos.Store.{
  PipelineRunStatus, is_run_pending, is_run_running, PipelineRun, StageRun, Db, run_has_id,
}

unfoldable pub create_run : ℕ → ℕ → Db → PipelineRun × Db
create_run pipeline_id issue_id db =
    let row : PipelineRun = record {
      id = db.next_id;
      pipeline_id = pipeline_id;
      issue_id = some issue_id;
      status = PipelineRunStatus.pending;
      started_at = none;
      completed_at = none;
      total_cost_usd = 0;
      artifacts_path = none;
      created_at = db.now;
      updated_at = db.now;
    } in
    (row, record db { runs = db.runs ++ row ∷ []; next_id = suc db.next_id })

unfoldable pub get_run : ℕ → Db → Option PipelineRun
get_run id db = find (run_has_id id) db.runs

abbrev pub has_running_status : PipelineRun → Bool
has_running_status r = is_run_running r.status

unfoldable pub get_running_runs : Db → ℕ
get_running_runs db = count has_running_status db.runs

-- `orderBy(asc(createdAt))`
unfoldable pub get_pending_runs : Db → List ℕ
get_pending_runs db =
    map (λ (r : PipelineRun). r.id)
      (sort_by (λ (r : PipelineRun). r.created_at)
        (filter (λ (r : PipelineRun). is_run_pending r.status) db.runs))

abbrev pub start_run : ℕ → PipelineRun → PipelineRun
start_run now r = record r {
  status = PipelineRunStatus.running;
  started_at = some now;
  updated_at = now;
}

-- The advisory lock makes the transaction one step: the `UPDATE … WHERE id AND pending AND count <
-- max RETURNING id`, which returns one row exactly when it has changed one.
abbrev pub claims : ℕ → ℕ → Db → PipelineRun → Bool
claims run_id max_concurrent db r =
    r.id == run_id && is_run_pending r.status && ltb (get_running_runs db) max_concurrent

unfoldable pub try_acquire_running_slot : ℕ → ℕ → Db → Bool × Db
unfolding get_running_runs
try_acquire_running_slot run_id max_concurrent db =
    let claimed = claims run_id max_concurrent db in
    (
      count claimed db.runs == 1,
      record db { runs = update_where claimed (start_run db.now) db.runs },
    )

abbrev pub set_run_status : PipelineRunStatus → ℕ → PipelineRun → PipelineRun
set_run_status status now r = record r {
  status = status;
  started_at = if is_run_running status then some now else r.started_at;
  updated_at = now;
}

unfoldable pub update_run_status : ℕ → PipelineRunStatus → Db → Db
update_run_status id status db = record db {
  runs = update_where (run_has_id id) (set_run_status status db.now) db.runs;
}

abbrev pub cost_or_zero : Option ℕ → ℕ
cost_or_zero none = 0
cost_or_zero (some c) = c

unfoldable pub sum_costs : ℕ → List StageRun → ℕ
sum_costs run_id [] = 0
sum_costs run_id (s ∷ rest) =
    (if s.pipeline_run_id == run_id then cost_or_zero s.cost_usd else 0) + sum_costs run_id rest

abbrev pub finish : PipelineRunStatus → ℕ → ℕ → PipelineRun → PipelineRun
finish status cost now r = record r {
  status = status;
  completed_at = some now;
  total_cost_usd = cost;
  updated_at = now;
}

unfoldable pub complete_run : ℕ → PipelineRunStatus → Db → Db
unfolding sum_costs
complete_run id status db =
    let total_cost = sum_costs id db.stage_runs in
    record db { runs = update_where (run_has_id id) (finish status total_cost db.now) db.runs }
