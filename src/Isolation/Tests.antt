-- ===== src/Isolation/Tests.antt =====
-- src/adapters/git/worktree-isolation-provider.ts: a first acquisition on an empty disk, and a second one.
use fluxaos.Prelude.{◌≡◌, refl, find, any, ok}
use fluxaos.Isolation.Config.{
  get_runtime_workspace_root, get_runtime_artifacts_root, read_global_config_value,
}
use fluxaos.Isolation.Paths.{
  get_workspace_root, get_worktree_base, get_worktree_path, safe_branch_dir,
}
use fluxaos.Isolation.Provider.{
  ensure_worktree_gitignored, ensure_artifacts_gitignored, insert_environment, mint, acquire,
}
use fluxaos.Isolation.Reuse.{acquire-again}
use fluxaos.Isolation.Sample.{paths, listed, empty_host, params, env, host}

acquired : acquire paths listed params empty_host ≡ (ok env, host)
unfolding acquire mint insert_environment ensure_worktree_gitignored ensure_artifacts_gitignored
    get_runtime_workspace_root get_runtime_artifacts_root read_global_config_value
    get_workspace_root get_worktree_base get_worktree_path safe_branch_dir find any
acquired = refl

acquire-again_example : acquire paths listed params host ≡ (ok env, host)
acquire-again_example =
    acquire-again paths listed params empty_host host env tt acquired refl (unfold any in refl)
