-- ===== src/Deploy/Tests.antt =====
-- src/core/orchestrator/pipeline-terminal-hook.ts: a completed run whose branch is deployed.
use fluxaos.Prelude.{String, false, some, List, ok}
use fluxaos.Store.{PipelineRunStatus}
use fluxaos.Isolation.Ports.{PullRequestState}
use fluxaos.Isolation.Sample.{paths, listed, host}
use fluxaos.Deploy.Bridge.{DeployPorts}
use fluxaos.Deploy.Hook.{on_terminal}
use fluxaos.Deploy.Recorded.{IsOnce, on_terminal-IsOnce}

abbrev forge : DeployPorts (List String)
forge = record {
  resolve_repo_identity = λ url. ok (record { owner = "o"; repo = "r" });
  commit_all =
      λ path message disk. (ok (record { no_changes = false; commit_sha = some "sha" }), disk);
  branch_ahead_count = λ path base disk. ok 1;
  get_head_sha = λ path disk. ok "sha";
  push = λ path branch disk. (ok tt, disk);
  for_url = λ url. ok tt;
  create_pull_request = λ repo title body head base disk.
      (ok (record { number = 4; state = PullRequestState.opened; head_branch = head }), disk);
}

on_terminal-IsOnce_example :
    IsOnce paths listed forge 3 host
      (on_terminal paths listed forge 3 (some 1) PipelineRunStatus.completed host)
on_terminal-IsOnce_example = on_terminal-IsOnce paths listed forge 3 (some 1) host
