-- ===== src/Isolation/Sample.antt =====
-- A disk that is the list of its worktrees, for src/adapters/git/worktree-isolation-provider.ts, and a run
-- with an environment on it.
use fluxaos.Prelude.{
  String, Bool, true, false, any, str_eq, filter, not, none, some, List, [], ◌∷◌, ok,
}
use fluxaos.Store.{ConfigValue, Db}
use fluxaos.Executor.Sample.{start_db}
use fluxaos.Isolation.Ports.{EnvStatus, Environment, Host, PathPorts, DiskPorts}
use fluxaos.Isolation.Provider.{AcquireParams}

abbrev joined : List String → String
joined [] = ""
joined (part ∷ rest) = part

abbrev pub paths : PathPorts
paths = record {
  is_absolute = λ path. true;
  join = λ parts. "/r/wt";
  resolve = λ path. path;
  dirname = λ path. "/a";
  basename = λ path. path;
  show_id = λ id. "3";
}

abbrev holds : String → List String → Bool
holds path disk = any (str_eq path) disk

abbrev pub listed : DiskPorts (List String)
listed = record {
  worktree_exists = holds;
  has_uncommitted_changes = λ path disk. ok false;
  get_canonical_repo_path = λ path disk. ok "/r";
  is_branch_merged = λ repo branch base disk. ok true;
  create_worktree = λ repo path branch base disk. (ok tt, path ∷ disk);
  add_worktree = λ repo path branch disk. (ok tt, path ∷ disk);
  remove_worktree = λ repo path force disk. (ok tt, filter (λ other. not (str_eq path other)) disk);
  ensure_gitignore_entry = λ repo entry disk. (ok tt, disk);
  copy_configured_files = λ repo path files disk. (ok tt, disk);
  ensure_artifacts_dir = λ path disk. (ok tt, disk);
  remove_artifacts_dir = λ path disk. (ok tt, disk);
  list_artifact_dirs = λ base disk. ok ("/a/3" ∷ []);
  get_artifacts_dir_age = λ path disk. ok 0;
}

abbrev pub settings : Db
settings = record start_db {
  config =
      record { project_id = none; key = "runtime.workspace_root"; value = ConfigValue.null }
      ∷ record { project_id = none; key = "runtime.artifacts_root"; value = ConfigValue.null }
      ∷ record { project_id = none; key = "cleanup.stale_days"; value = ConfigValue.whole 7 }
      ∷ record {
        project_id = none;
        key = "cleanup.artifacts_retention_days";
        value = ConfigValue.whole 7;
      }
      ∷ [];
}

abbrev pub empty_host : Host (List String)
empty_host = record {
  db = settings;
  envs = [];
  pull_requests = [];
  branches = [];
  deploys = [];
  disk = [];
}

abbrev pub params : AcquireParams
params = record {
  project_id = 1;
  run_id = 3;
  repo_path = "/r";
  repo_identity = record { owner = "o"; repo = "r" };
  branch_name = "fluxaos/run-3";
  base_branch = "main";
  copy_files = [];
  artifacts_path = some "/a/3";
}

abbrev pub env : Environment
env = record {
  id = 10;
  project_id = 1;
  run_id = 3;
  working_path = "/r/wt";
  branch_name = "fluxaos/run-3";
  status = EnvStatus.active;
  artifacts_path = some "/a/3";
  created_at = 100;
  updated_at = 100;
}

abbrev pub host : Host (List String)
host = record empty_host {
  db = record settings { next_id = 11 };
  envs = env ∷ [];
  disk = "/r/wt" ∷ [];
}
