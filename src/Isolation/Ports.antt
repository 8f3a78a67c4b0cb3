-- ===== src/Isolation/Ports.antt =====
-- The table of environments, and what src/adapters/git/worktree-isolation-provider.ts is given: git, the file
-- system and the module `path` of Node.
use fluxaos.Prelude.{ℕ, String, Bool, true, false, ◌&&◌, ◌==◌, Option, List, Result}
use fluxaos.Prelude.Actions.{Action}
use fluxaos.Store.{Db}

pub data EnvStatus : Type 0 where
  active inactive : EnvStatus

abbrev pub is_active : EnvStatus → Bool
is_active EnvStatus.active = true
is_active EnvStatus.inactive = false

-- A row of `isolation_environment`; its metadata is not read.
pub record Environment : Type 0 where
  pub id : ℕ
  pub project_id : ℕ
  pub run_id : ℕ
  pub working_path : String
  pub branch_name : String
  pub status : EnvStatus
  pub artifacts_path : Option String
  pub created_at : ℕ
  pub updated_at : ℕ

abbrev pub env_has_id : ℕ → Environment → Bool
env_has_id id e = e.id == id

abbrev pub is_active_for : ℕ → ℕ → Environment → Bool
is_active_for project_id run_id e =
    e.project_id == project_id && e.run_id == run_id && is_active e.status

pub record RepoIdentity : Type 0 where
  pub owner : String
  pub repo : String

pub data PullRequestState : Type 0 where
  opened draft closed merged : PullRequestState

-- The columns of `issue_pull_request` that are read back.
pub record PullRequestRow : Type 0 where
  pub id : ℕ
  pub issue_id : ℕ
  pub repo : String
  pub pr_number : ℕ
  pub state : PullRequestState
  pub head_branch : String

pub record BranchRow : Type 0 where
  pub id : ℕ
  pub issue_id : ℕ
  pub repo : String
  pub branch_name : String

pub data DeployStatus : Type 0 where
  succeeded skipped failed : DeployStatus

-- A row of `deploy_run`; `note` is the reason of a skip, or the stage of a failure.
pub record DeployRow : Type 0 where
  pub id : ℕ
  pub pipeline_run_id : ℕ
  pub status : DeployStatus
  pub note : Option String
  pub pr_row_id : Option ℕ
  pub branch_row_id : Option ℕ
  pub commit_sha : Option String

-- The database, more of its tables, and what is on disk, which only the parameters read.
pub record Host (D : Type 0) : Type 0 where
  pub db : Db
  pub envs : List Environment
  pub pull_requests : List PullRequestRow
  pub branches : List BranchRow
  pub deploys : List DeployRow
  pub disk : D

-- `node:path`
pub record PathPorts : Type 0 where
  pub is_absolute : String → Bool
  pub join : List String → String
  pub resolve : String → String
  pub dirname : String → String
  pub basename : String → String
  pub show_id : ℕ → String

-- src/adapters/git/worktree.ts, gitignore.ts, worktree-copy.ts and src/adapters/fs.
pub record DiskPorts (D : Type 0) : Type 0 where
  pub worktree_exists : String → D → Bool
  pub has_uncommitted_changes : String → D → Result String Bool
  pub get_canonical_repo_path : String → D → Result String String
  pub is_branch_merged : (repo_path branch_name base_branch : String) → D → Result String Bool
  pub create_worktree :
      (repo_path worktree_path branch_name base_branch : String) → Action D (Unit {0})
  -- `git worktree add` of a branch that exists.
  pub add_worktree : (repo_path worktree_path branch_name : String) → Action D (Unit {0})
  pub remove_worktree : (repo_path worktree_path : String) (force : Bool) → Action D (Unit {0})
  pub ensure_gitignore_entry : (repo_path entry : String) → Action D (Unit {0})
  pub copy_configured_files : (repo_path worktree_path : String) → List String → Action D (Unit {0})
  pub ensure_artifacts_dir : String → Action D (Unit {0})
  pub remove_artifacts_dir : String → Action D (Unit {0})
  pub list_artifact_dirs : String → D → Result String (List String)
  pub get_artifacts_dir_age : String → D → Result String ℕ
