-- ===== src/Deploy/Hook.antt =====
-- `createPipelineTerminalHook` of src/core/orchestrator/pipeline-terminal-hook.ts.
use fluxaos.Prelude.{false, ℕ, String, Option, none, some, Result, ok, err}
use fluxaos.Store.{PipelineRunStatus}
use fluxaos.Executor.Ports.{given}
use fluxaos.Isolation.Ports.{Environment, DeployStatus, Host, PathPorts, DiskPorts}
use fluxaos.Isolation.Provider.{find_active, release}
use fluxaos.Deploy.Bridge.{
  DeployPorts, DeployResult, no_issue, no_changes, deployed, deploy_row, insert_deploy, deploy,
}

module _ {D : Type 0} (paths : PathPorts) (disk : DiskPorts D) (ports : DeployPorts D)
    (run_id : ℕ) where
  -- All exceptions of the release are only logged.
  abbrev pub release_found : Option Environment → Host D → Host D
  release_found none h = h
  release_found (some env) h = (release paths disk env.id false h).1

  unfoldable pub release_terminal_env : Option ℕ → Host D → Host D
  unfolding release
  release_terminal_env none h = h
  release_terminal_env (some project_id) h = release_found (find_active project_id run_id h) h

  -- Where the row cannot be inserted, that is only logged.
  unfoldable pub record_deploy_failure : String → Host D → Host D
  unfolding insert_deploy
  record_deploy_failure stage h =
      (insert_deploy run_id (deploy_row run_id DeployStatus.failed (given (some stage))) h).1

  abbrev pub after_deploy : Option ℕ → Result String DeployResult × Host D → Host D
  after_deploy project_id (err stage, h) =
      release_terminal_env project_id (record_deploy_failure stage h)
  after_deploy project_id (ok (deployed pr branch_row_id pr_row_id commit_sha), h) = h
  after_deploy project_id (ok no_issue, h) = release_terminal_env project_id h
  after_deploy project_id (ok no_changes, h) = release_terminal_env project_id h

  unfoldable pub on_terminal : Option ℕ → PipelineRunStatus → Host D → Host D
  unfolding deploy record_deploy_failure release_terminal_env
  on_terminal project_id PipelineRunStatus.completed h =
      after_deploy project_id (deploy paths disk ports run_id h)
  on_terminal project_id _ h = release_terminal_env project_id h
