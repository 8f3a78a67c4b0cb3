-- ===== src/Isolation/Paths.antt =====
-- src/adapters/git/path-resolver.ts and artifacts-path.ts: where the worktrees and the artifacts of a run are.
use Prim.Native.Char.{Char, code}
use fluxaos.Prelude.{
  ◌++◌, ℕ, String, ◌==◌, Option, none, some, List, [], ◌∷◌, chars, of_chars, if◌then◌else◌, Result,
  ok, err, ◌>>=◌,
}
use fluxaos.Executor.Ports.{given}
use fluxaos.Isolation.Ports.{RepoIdentity, PathPorts}

-- `branchName.replace(/\//g, '__')`
unfoldable pub safe_branch_dir : List Char → List Char
safe_branch_dir [] = []
safe_branch_dir (c ∷ s) =
    let rest = safe_branch_dir s in if code c == 47 then chars "__" ++ rest else c ∷ rest

module _ (paths : PathPorts) where
  abbrev absolute : String → Option String → Result String (Option String)
  absolute text none = ok none
  absolute text (some path) = if paths.is_absolute path then ok (some path) else err text

  unfoldable pub get_workspace_root : Option String → Result String (Option String)
  get_workspace_root none = ok none
  get_workspace_root (some override) =
      absolute "runtime.workspace_root must be an absolute path" (given (some override))

  abbrev base_under : Option String → String → RepoIdentity → String
  base_under none repo_path identity =
      paths.join (paths.resolve repo_path ∷ ".fluxaos-worktrees" ∷ [])
  base_under (some root) repo_path identity =
      paths.join (root ∷ identity.owner ∷ identity.repo ∷ "worktrees" ∷ [])

  unfoldable pub get_worktree_base : String → RepoIdentity → Option String → Result String String
  unfolding get_workspace_root
  get_worktree_base repo_path identity workspace_root = do
    override ← get_workspace_root workspace_root
    ok (base_under override repo_path identity)

  unfoldable pub get_worktree_path :
      String → RepoIdentity → String → Option String → Result String String
  unfolding get_worktree_base safe_branch_dir
  get_worktree_path repo_path identity branch_name workspace_root = do
    base ← get_worktree_base repo_path identity workspace_root
    ok (paths.join (base ∷ of_chars (safe_branch_dir (chars branch_name)) ∷ []))

  abbrev or_in_project : String → Option String → String
  or_in_project repo_path none = paths.join (paths.resolve repo_path ∷ ".fluxaos-artifacts" ∷ [])
  or_in_project repo_path (some root) = root

  -- The root of the artifacts goes before that of the workspaces.
  abbrev artifacts_override : Option String → Option String → Result String (Option String)
  artifacts_override (some root) workspace_root =
      absolute "runtime.artifacts_root must be an absolute path" (some root)
  artifacts_override none workspace_root =
      absolute "runtime.workspace_root must be an absolute path" workspace_root

  unfoldable pub get_artifacts_base : String → Option String → Option String → Result String String
  get_artifacts_base repo_path artifacts_root workspace_root = do
    override ← artifacts_override (given artifacts_root) (given workspace_root)
    ok (or_in_project repo_path override)

  unfoldable pub get_artifacts_path :
      String → ℕ → Option String → Option String → Result String String
  unfolding get_artifacts_base
  get_artifacts_path repo_path run_id artifacts_root workspace_root = do
    base ← get_artifacts_base repo_path artifacts_root workspace_root
    ok (paths.join (base ∷ paths.show_id run_id ∷ []))
