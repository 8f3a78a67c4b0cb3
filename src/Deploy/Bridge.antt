-- ===== src/Deploy/Bridge.antt =====
-- `createDeployBridge` of src/core/deploy/deploy-bridge.ts. An exception is the stage of its
-- DeployBridgeError, and blank where it is another one.
use fluxaos.Prelude.{
  ℕ, String, Bool, true, false, ◌&&◌, ◌==◌, ltb, Option, none, some, List, [], ◌∷◌, ◌++◌, ◌+◌, ◌+s◌,
  find, filter, any, if◌then◌else◌, Result, ok, err,
}
use fluxaos.Prelude.Actions.{Action, ◌>>=◌, done, throw, settled, reading, catch}
use fluxaos.Store.{Project, PipelineStage, PipelineRun, StageRun, Issue, IssueState, Db}
use fluxaos.Runs.Service.{get_run}
use fluxaos.Issues.Lookup.{IssueError, find_issue, resolve_state_by_config_key}
use fluxaos.Issues.Service.{transition}
use fluxaos.Executor.Ports.{given}
use fluxaos.Isolation.Ports.{
  Environment, RepoIdentity, PullRequestState, DeployStatus, DeployRow, Host, PathPorts, DiskPorts,
}
use fluxaos.Isolation.Provider.{on_disk, find_active, release}
use fluxaos.Deploy.Templates.{build_commit_message, build_pr_title, build_pr_body}

pub record CommitResult : Type 0 where
  pub no_changes : Bool
  pub commit_sha : Option String

pub record PullRequest : Type 0 where
  pub number : ℕ
  pub state : PullRequestState
  pub head_branch : String

-- Git and the forge; `for_url` picks the adapter of the forge.
pub record DeployPorts (D : Type 0) : Type 0 where
  pub resolve_repo_identity : String → Result String RepoIdentity
  pub commit_all : (working_path message : String) → Action D CommitResult
  pub branch_ahead_count : (working_path base_branch : String) → D → Result String ℕ
  pub get_head_sha : (working_path : String) → D → Result String String
  pub push : (working_path branch_name : String) → Action D (Unit {0})
  pub for_url : String → Result String (Unit {0})
  pub create_pull_request :
      (repo title body head_branch base_branch : String) → Action D PullRequest

pub data DeployResult : Type 0 where
  no_issue no_changes : DeployResult
  deployed : (pr : PullRequest) (branch_row_id pr_row_id : ℕ) (commit_sha : String) → DeployResult

abbrev pub or_stage {ℓ} : {A : Type ℓ} → String → Option A → Result String A
or_stage stage none = err stage
or_stage stage (some a) = ok a

-- Another exception than the bridge's own.
abbrev pub blank_error : {A : Type 0} → Result String A → Result String A
blank_error (err text) = err ""
blank_error (ok a) = ok a

abbrev pub wrapped : {S A : Type 0} → String → Action S A → Action S A
wrapped stage action = catch action (λ text. throw stage)

abbrev pub is_deploy_of : ℕ → DeployRow → Bool
is_deploy_of run_id d = d.pipeline_run_id == run_id

abbrev pub later_of : StageRun → Option StageRun → StageRun
later_of s none = s
later_of s (some t) = if ltb s.created_at t.created_at then t else s

abbrev latest_of : List StageRun → Option StageRun
latest_of [] = none
latest_of (s ∷ rest) = some (later_of s (latest_of rest))

abbrev name_of : Option PipelineStage → Option String
name_of none = none
name_of (some s) = some s.name

-- The stage of the latest stage run; a stage run without its stage drops out of the join.
unfoldable pub load_most_recent_stage_name : ℕ → Db → Option String
load_most_recent_stage_name run_id db =
    elim (latest_of (
      filter
        (λ (s : StageRun).
          s.pipeline_run_id == run_id
          && any (λ (t : PipelineStage). t.id == s.pipeline_stage_id) db.stages)
        db.stage_runs)) [
          | none ↦ none
          | some s ↦ name_of (find (λ (t : PipelineStage). t.id == s.pipeline_stage_id) db.stages)
        ]

abbrev pub deploy_row : ℕ → DeployStatus → Option String → ℕ → DeployRow
deploy_row run_id status note id = record {
  id = id;
  pipeline_run_id = run_id;
  status = status;
  note = note;
  pr_row_id = none;
  branch_row_id = none;
  commit_sha = none;
}

-- The index `deploy_run_pipeline_run_id_idx` refuses a second row of a run.
abbrev pub insert_checked : {D : Type 0} → Bool → (ℕ → DeployRow) → Action (Host D) (Unit {0})
insert_checked true row h = (err "", h)
insert_checked false row h = (
  ok tt,
  record h {
    db = record h.db { next_id = h.db.next_id + 1 };
    deploys = h.deploys ++ row h.db.next_id ∷ [];
  },
)

unfoldable pub insert_deploy : {D : Type 0} → ℕ → (ℕ → DeployRow) → Action (Host D) (Unit {0})
insert_deploy run_id row h = insert_checked (any (is_deploy_of run_id) h.deploys) row h

-- A transaction: an exception takes back what was written.
abbrev pub all_or_nothing : {S A : Type 0} → S → Result String A × S → Result String A × S
all_or_nothing s (err text, t) = (err text, s)
all_or_nothing s (ok a, t) = (ok a, t)

abbrev pub transaction : {S A : Type 0} → Action S A → Action S A
transaction action s = all_or_nothing s (action s)

module _ {D : Type 0} (paths : PathPorts) (disk : DiskPorts D) (ports : DeployPorts D)
    (run_id : ℕ) where
  abbrev pub insert_branch : Issue → String → String → Action (Host D) ℕ
  insert_branch row repo branch_name h = (
    ok h.db.next_id,
    record h {
      db = record h.db { next_id = h.db.next_id + 1 };
      branches =
          h.branches
          ++ record { id = h.db.next_id; issue_id = row.id; repo = repo; branch_name = branch_name }
            ∷ [];
    },
  )

  abbrev pub insert_pull_request : Issue → String → PullRequest → Action (Host D) ℕ
  insert_pull_request row repo pr h = (
    ok h.db.next_id,
    record h {
      db = record h.db { next_id = h.db.next_id + 1 };
      pull_requests =
          h.pull_requests
          ++ record {
            id = h.db.next_id;
            issue_id = row.id;
            repo = repo;
            pr_number = pr.number;
            state = pr.state;
            head_branch = pr.head_branch;
          }
            ∷ [];
    },
  )

  abbrev pub advanced : Result IssueError (Issue × Db) → Host D → Result String (Unit {0}) × Host D
  advanced (err e) h = (err "", h)
  advanced (ok (row, db)) h = (ok tt, record h { db = db })

  abbrev pub moved_to : Issue → Result IssueError IssueState → Action (Host D) (Unit {0})
  moved_to row (err e) h = (err "", h)
  moved_to row (ok state) h =
      advanced
        (transition row.id state.id row.version row.project_id (some "deploy-bridge") h.db h.db) h

  unfoldable pub advance_issue : Issue → Action (Host D) (Unit {0})
  unfolding transition resolve_state_by_config_key
  advance_issue row h =
      moved_to row
        (resolve_state_by_config_key row.project_id "issues.state.on_deploy_complete_key" h.db) h

  abbrev pub succeeded_row : ℕ → ℕ → String → ℕ → DeployRow
  succeeded_row branch_row_id pr_row_id commit_sha id = record {
    id = id;
    pipeline_run_id = run_id;
    status = DeployStatus.succeeded;
    note = none;
    pr_row_id = some pr_row_id;
    branch_row_id = some branch_row_id;
    commit_sha = some commit_sha;
  }

  unfoldable pub record_deploy :
      Issue → Environment → String → String → PullRequest → Action (Host D) DeployResult
  unfolding insert_deploy advance_issue
  record_deploy row env repo commit_sha pr = transaction (do
    branch_row_id ← insert_branch row repo env.branch_name
    pr_row_id ← insert_pull_request row repo pr
    recorded ← insert_deploy run_id (succeeded_row branch_row_id pr_row_id commit_sha)
    advanced ← advance_issue row
    done (DeployResult.deployed pr branch_row_id pr_row_id commit_sha))

  -- The environment is released after the transaction, and its exceptions are only logged.
  abbrev pub release_quietly : Environment → Action (Host D) (Unit {0})
  release_quietly env h = (ok tt, (release paths disk env.id false h).1)

  abbrev pub skip_deploy : String → DeployResult → Action (Host D) DeployResult
  skip_deploy reason result = do
    inserted ← insert_deploy run_id (deploy_row run_id DeployStatus.skipped (some reason))
    done result

  abbrev pub publish :
      Issue → Project → String → Environment → String → Option String → Action (Host D) DeployResult
  publish row project repo_url env repo none = throw "commit"
  publish row project repo_url env repo (some commit_sha) = do
    pushed ← on_disk (wrapped "push" (ports.push env.working_path env.branch_name))
    forge ← settled (blank_error (ports.for_url repo_url))
    pr ← on_disk (
        wrapped "create-pr" (
          ports.create_pull_request repo (build_pr_title row.title row.number)
            (build_pr_body row.title row.number (paths.show_id row.id) (paths.show_id run_id)
              commit_sha)
            env.branch_name project.default_branch))
    result ← wrapped "record-db" (record_deploy row env repo commit_sha pr)
    released ← release_quietly env
    done result

  abbrev pub with_ahead :
      Issue → Project → String → Environment → String → ℕ → Action (Host D) DeployResult
  with_ahead row project repo_url env repo ahead =
      if ahead == 0 then skip_deploy "no-changes" DeployResult.no_changes else do
        head ← reading (λ (h : Host D). blank_error (ports.get_head_sha env.working_path h.disk))
        publish row project repo_url env repo (given (some head))

  abbrev pub count_ahead :
      Issue → Project → String → Environment → String → Action (Host D) DeployResult
  count_ahead row project repo_url env repo = do
    ahead ← reading (λ (h : Host D).
        blank_error (ports.branch_ahead_count env.working_path project.default_branch h.disk))
    with_ahead row project repo_url env repo ahead

  abbrev pub given_sha : Option String → Option String
  given_sha none = none
  given_sha (some sha) = given (some sha)

  abbrev pub with_commit :
      Issue → Project → String → Environment → String → CommitResult → Action (Host D) DeployResult
  with_commit row project repo_url env repo commit =
      if commit.no_changes
      then count_ahead row project repo_url env repo
      else publish row project repo_url env repo (given_sha commit.commit_sha)

  abbrev pub deploy_issue : PipelineRun → ℕ → Action (Host D) DeployResult
  deploy_issue run issue_id = do
    row ← reading (λ (h : Host D). or_stage "load-issue" (find_issue issue_id h.db))
    project ← reading (λ (h : Host D).
        or_stage "load-project" (find (λ (p : Project). p.id == row.project_id) h.db.projects))
    repo_url ← settled (or_stage "load-project" (given project.repo_url))
    env ← reading (λ (h : Host D). or_stage "find-env" (find_active project.id run_id h))
    identity ← settled (blank_error (ports.resolve_repo_identity repo_url))
    stage_name ← reading (λ (h : Host D). ok (load_most_recent_stage_name run_id h.db))
    commit ← on_disk (
        wrapped "commit" (
          ports.commit_all env.working_path
            (build_commit_message row.title row.number (paths.show_id run_id) stage_name)))
    with_commit row project repo_url env (identity.owner +s "/" +s identity.repo) commit

  abbrev pub deploy_run_of : PipelineRun → Option ℕ → Action (Host D) DeployResult
  deploy_run_of run none = skip_deploy "no-issue" DeployResult.no_issue
  deploy_run_of run (some issue_id) = deploy_issue run issue_id

  unfoldable pub deploy : Action (Host D) DeployResult
  unfolding get_run find_issue load_most_recent_stage_name build_commit_message build_pr_title
      build_pr_body insert_deploy record_deploy release
  deploy = do
    run ← reading (λ (h : Host D). or_stage "load-run" (get_run run_id h.db))
    deploy_run_of run run.issue_id
