-- ===== src/Runner/Environment.antt =====
-- src/core/orchestrator/stage-runner-env.ts and brand-resolver.ts: the project, the worktree and the brand of
-- a stage.
use fluxaos.Prelude.{
  ℕ, String, Bool, false, ◌&&◌, not, Option, none, some, List, [], ◌∷◌, filter, ltb, is_some, ◌==◌,
  decimal, ◌+s◌, if◌then◌else◌, Result, ok, err, ◌>>=◌,
}
use fluxaos.Store.{PipelineRun, Pipeline, Issue, Db}
use fluxaos.Executor.Ports.{given}
use fluxaos.Executor.Finish.{find_pipeline}
use fluxaos.Runner.Ports.{RepoProject, Brand, IsolationEnv, RunnerPorts}

abbrev pub or_throw {ℓ} : {A : Type ℓ} → Option A → String → Result String A
or_throw none text = err text
or_throw (some a) text = ok a

abbrev project_of_pipeline : Option Pipeline → Option ℕ
project_of_pipeline none = none
project_of_pipeline (some pipe) = some pipe.project_id

unfoldable pub resolve_project_id : Option Issue → ℕ → Db → Option ℕ
unfolding find_pipeline
resolve_project_id (some issue) pipeline_id db = some issue.project_id
resolve_project_id none pipeline_id db = project_of_pipeline (find_pipeline pipeline_id db)

-- An issue number of zero counts as none.
unfoldable pub derive_branch_name : String → Option ℕ → String
derive_branch_name run_short none = "fluxaos/run-" +s run_short
derive_branch_name run_short (some n) =
    if n == 0
    then "fluxaos/run-" +s run_short
    else "fluxaos/issue-" +s (decimal n +s ("-" +s run_short))

abbrev is_for_issue : ℕ → PipelineRun → Bool
is_for_issue issue_id r = elim r.issue_id [ none ↦ false | some i ↦ i == issue_id ]

abbrev is_prior : ℕ → ℕ → ℕ → PipelineRun → Bool
is_prior pipeline_id issue_id run_id r =
    r.pipeline_id == pipeline_id
    && is_for_issue issue_id r
    && not (r.id == run_id)
    && is_some r.artifacts_path

abbrev later_of : PipelineRun → Option PipelineRun → PipelineRun
later_of r none = r
later_of r (some s) = if ltb r.created_at s.created_at then s else r

-- `orderBy(desc(createdAt)).limit(1)`
unfoldable pub latest : List PipelineRun → Option PipelineRun
latest [] = none
latest (r ∷ rest) = some (later_of r (latest rest))

abbrev artifacts_of : Option PipelineRun → Option String
artifacts_of none = none
artifacts_of (some r) = r.artifacts_path

unfoldable pub find_inherited_artifacts_path : ℕ → Option ℕ → ℕ → Db → Option String
unfolding latest
find_inherited_artifacts_path pipeline_id none run_id db = none
find_inherited_artifacts_path pipeline_id (some issue_id) run_id db =
    artifacts_of (latest (filter (is_prior pipeline_id issue_id run_id) db.runs))

unfoldable pub acquire_isolation_env :
    RunnerPorts
    → (project_id : ℕ) → PipelineRun
    → Option ℕ
    → Db
    → Result String (IsolationEnv × RepoProject)
unfolding derive_branch_name find_inherited_artifacts_path
acquire_isolation_env ports project_id run issue_number db = do
  project ← or_throw (ports.project_row project_id db) "Project not found"
  repo_url ← or_throw (given project.repo_url) "Project has no repoUrl"
  repo_path ← or_throw (given project.target_repo_path) "project.target_repo_path is null"
  env ←
      ports.acquire
        (record {
          project_id = project.id;
          run_id = run.id;
          repo_path = repo_path;
          repo_url = repo_url;
          branch_name = derive_branch_name (ports.short_id run.id) issue_number;
          base_branch = project.default_branch;
          copy_files = project.copy_files;
          artifacts_path = find_inherited_artifacts_path run.pipeline_id run.issue_id run.id db;
        })
        db
  ok (env, project)

abbrev find_brand : RunnerPorts → ℕ → Option ℕ → Db → Option Brand
find_brand ports project_id none db = none
find_brand ports project_id (some brand_id) db = ports.brand brand_id project_id db

abbrev or_brand : Option Brand → Option Brand → Option Brand
or_brand (some b) other = some b
or_brand none other = other

-- The persona's brand, or else the project's.
unfoldable pub resolve_stage_brand :
    RunnerPorts → (project_id : ℕ) → Option ℕ → Option ℕ → Db → Option Brand
resolve_stage_brand ports project_id persona_brand_id project_brand_id db =
    or_brand (find_brand ports project_id persona_brand_id db)
      (find_brand ports project_id project_brand_id db)
