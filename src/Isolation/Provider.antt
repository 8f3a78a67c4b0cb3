-- ===== src/Isolation/Provider.antt =====
-- `createWorktreeIsolationProvider` of src/adapters/git/worktree-isolation-provider.ts.
use fluxaos.Prelude.{
  ◌+◌, ℕ, String, Bool, true, false, not, str_includes, Option, none, some, List, [], ◌∷◌, ◌++◌,
  find, any, update_where, if◌then◌else◌, Result, ok, err,
}
use fluxaos.Prelude.Actions.{Action, ◌>>=◌, done, throw, settled, reading, catch}
use fluxaos.Executor.Ports.{given}
use fluxaos.Isolation.Config.{get_runtime_workspace_root, get_runtime_artifacts_root}
use fluxaos.Isolation.Ports.{
  EnvStatus, Environment, is_active, env_has_id, is_active_for, RepoIdentity, Host, PathPorts,
  DiskPorts,
}
use fluxaos.Isolation.Paths.{get_workspace_root, get_worktree_path, get_artifacts_path}

pub record AcquireParams : Type 0 where
  pub project_id : ℕ
  pub run_id : ℕ
  pub repo_path : String
  pub repo_identity : RepoIdentity
  pub branch_name : String
  pub base_branch : String
  pub copy_files : List String
  pub artifacts_path : Option String

abbrev with_disk : {D A : Type 0} → Host D → Result String A × D → Result String A × Host D
with_disk h (r, disk) = (r, record h { disk = disk })

-- An operation on the disk alone.
abbrev pub on_disk : {D A : Type 0} → Action D A → Action (Host D) A
on_disk action h = with_disk h (action h.disk)

abbrev pub find_active : {D : Type 0} → ℕ → ℕ → Host D → Option Environment
find_active project_id run_id h = find (is_active_for project_id run_id) h.envs

-- The row, after the update.
abbrev pub set_artifacts : ℕ → String → Environment → Environment
set_artifacts now path e = record e { artifacts_path = some path; updated_at = now }

abbrev pub deactivate : ℕ → Environment → Environment
deactivate now e = record e { status = EnvStatus.inactive; updated_at = now }

abbrev pub row_returned : Option Environment → Result String Environment
row_returned none = err "no row row_returned"
row_returned (some row) = ok row

unfoldable pub write_artifacts_path : {D : Type 0} → ℕ → String → Action (Host D) Environment
write_artifacts_path id path h =
    let envs = update_where (env_has_id id) (set_artifacts h.db.now path) h.envs in
    (row_returned (find (env_has_id id) envs), record h { envs = envs })

module _ {D : Type 0} (paths : PathPorts) (ports : DiskPorts D) where
  -- `getWorkspaceRoot` refuses a relative path.
  abbrev pub unless_external : Option String → String → String → Action (Host D) (Unit {0})
  unless_external (some root) repo_path entry = done tt
  unless_external none repo_path entry = on_disk (ports.ensure_gitignore_entry repo_path entry)

  unfoldable pub ensure_worktree_gitignored : String → Option String → Action (Host D) (Unit {0})
  unfolding get_workspace_root
  ensure_worktree_gitignored repo_path workspace_root = do
    root ← settled (get_workspace_root paths workspace_root)
    unless_external root repo_path ".fluxaos-worktrees/"

  abbrev pub either_root : Option String → Option String → Option String
  either_root (some root) other = some root
  either_root none other = other

  unfoldable pub ensure_artifacts_gitignored :
      String → Option String → Option String → Action (Host D) (Unit {0})
  unfolding get_workspace_root
  ensure_artifacts_gitignored repo_path workspace_root artifacts_root = do
    root ← settled (get_workspace_root paths workspace_root)
    unless_external (either_root root (given artifacts_root)) repo_path ".fluxaos-artifacts/"

  abbrev pub default_path :
      AcquireParams → Option String → Option String → Option String → Action (Host D) String
  default_path p artifacts_root workspace_root (some path) = done path
  default_path p artifacts_root workspace_root none =
      settled (get_artifacts_path paths p.repo_path p.run_id artifacts_root workspace_root)

  abbrev pub copy_if_any : String → String → List String → Action (Host D) (Unit {0})
  copy_if_any repo_path worktree_path [] = done tt
  copy_if_any repo_path worktree_path (file ∷ files) =
      on_disk (ports.copy_configured_files repo_path worktree_path (file ∷ files))

  -- A repeated acquisition; a row from before the column has its path filled in.
  abbrev pub reuse :
      AcquireParams
      → Option String
      → Option String
      → Environment
      → Option String
      → Action (Host D) Environment
  reuse p artifacts_root workspace_root existing (some path) = done existing
  reuse p artifacts_root workspace_root existing none = do
    path ← default_path p artifacts_root workspace_root p.artifacts_path
    made ← on_disk (ports.ensure_artifacts_dir path)
    write_artifacts_path existing.id path

  abbrev pub recreate : AcquireParams → Environment → String → Action D (Unit {0})
  recreate p existing text =
      if str_includes text "already exists"
      then ports.add_worktree p.repo_path existing.working_path existing.branch_name
      else throw text

  abbrev pub or_param : Option String → Option String → Option String
  or_param (some path) other = some path
  or_param none other = other

  unfoldable pub repair :
      AcquireParams → Option String → Option String → Environment → Action (Host D) Environment
  unfolding ensure_worktree_gitignored get_artifacts_path write_artifacts_path str_includes
  repair p artifacts_root workspace_root existing = do
    ignored ← ensure_worktree_gitignored p.repo_path workspace_root
    created ← on_disk (
        catch
          (ports.create_worktree p.repo_path existing.working_path existing.branch_name
            p.base_branch)
          (recreate p existing))
    copied ← copy_if_any p.repo_path existing.working_path p.copy_files
    path ←
        default_path p artifacts_root workspace_root
          (or_param existing.artifacts_path p.artifacts_path)
    made ← on_disk (ports.ensure_artifacts_dir path)
    write_artifacts_path existing.id path

  abbrev pub new_environment : AcquireParams → String → String → ℕ → ℕ → Environment
  new_environment p worktree_path path id now = record {
    id = id;
    project_id = p.project_id;
    run_id = p.run_id;
    working_path = worktree_path;
    branch_name = p.branch_name;
    status = EnvStatus.active;
    artifacts_path = some path;
    created_at = now;
    updated_at = now;
  }

  abbrev pub insert_row : AcquireParams → String → String → Bool → Action (Host D) Environment
  insert_row p worktree_path path true h = (err "duplicate key value violates unique constraint", h)
  insert_row p worktree_path path false h =
      let row = new_environment p worktree_path path h.db.next_id h.db.now in
      (
        ok row,
        record h { db = record h.db { next_id = h.db.next_id + 1 }; envs = h.envs ++ row ∷ [] },
      )

  -- The index `isolation_env_active_idx` refuses a second active row.
  unfoldable pub insert_environment : AcquireParams → String → String → Action (Host D) Environment
  insert_environment p worktree_path path h =
      insert_row p worktree_path path (any (is_active_for p.project_id p.run_id) h.envs) h

  -- What is left on disk after a refused insert is removed.
  abbrev pub clean_up : AcquireParams → String → String → String → Action (Host D) Environment
  clean_up p worktree_path path text = do
    removed ←
        catch (on_disk (ports.remove_worktree p.repo_path worktree_path true)) (λ ignored. done tt)
    cleared ← catch (on_disk (ports.remove_artifacts_dir path)) (λ ignored. done tt)
    throw text

  unfoldable pub mint :
      AcquireParams → Option String → Option String → String → Action (Host D) Environment
  unfolding ensure_worktree_gitignored ensure_artifacts_gitignored get_artifacts_path
      insert_environment
  mint p artifacts_root workspace_root worktree_path = do
    ignored ← ensure_worktree_gitignored p.repo_path workspace_root
    artifacts_ignored ← ensure_artifacts_gitignored p.repo_path workspace_root artifacts_root
    created ← on_disk (ports.create_worktree p.repo_path worktree_path p.branch_name p.base_branch)
    copied ← copy_if_any p.repo_path worktree_path p.copy_files
    path ← default_path p artifacts_root workspace_root p.artifacts_path
    made ← on_disk (ports.ensure_artifacts_dir path)
    catch (insert_environment p worktree_path path) (clean_up p worktree_path path)

  abbrev pub acquire_at :
      AcquireParams
      → Option String
      → Option String
      → String
      → Option Environment
      → Action (Host D) Environment
  acquire_at p artifacts_root workspace_root worktree_path none h =
      mint p artifacts_root workspace_root worktree_path h
  acquire_at p artifacts_root workspace_root worktree_path (some existing) h =
      if ports.worktree_exists existing.working_path h.disk
      then reuse p artifacts_root workspace_root existing (given existing.artifacts_path) h
      else repair p artifacts_root workspace_root existing h

  abbrev pub checked_branch : Option String → Action (Host D) (Unit {0})
  checked_branch none = throw "baseBranch is required"
  checked_branch (some base_branch) = done tt

  unfoldable pub acquire : AcquireParams → Action (Host D) Environment
  unfolding get_runtime_workspace_root get_runtime_artifacts_root get_worktree_path mint repair
      write_artifacts_path
  acquire p = do
    checked ← checked_branch (given (some p.base_branch))
    workspace_root ← reading (λ (h : Host D). get_runtime_workspace_root h.db)
    artifacts_root ← reading (λ (h : Host D). get_runtime_artifacts_root h.db)
    worktree_path ←
        settled (get_worktree_path paths p.repo_path p.repo_identity p.branch_name workspace_root)
    existing ← reading (λ (h : Host D). ok (find_active p.project_id p.run_id h))
    acquire_at p artifacts_root workspace_root worktree_path existing

  abbrev pub if_gone : String → String → Action D (Unit {0})
  if_gone working_path text disk =
      if ports.worktree_exists working_path disk then (err text, disk) else (ok tt, disk)

  abbrev pub remove_at : Bool → String → String → Action (Host D) (Unit {0})
  remove_at force working_path canonical =
      on_disk (catch (ports.remove_worktree canonical working_path force) (if_gone working_path))

  abbrev pub unless_dirty : Bool → Bool → Action (Host D) (Unit {0})
  unless_dirty false true = throw "uncommitted changes"
  unless_dirty _ _ = done tt

  -- Without force the worktree is read once more.
  abbrev pub check_clean : Bool → String → Action (Host D) (Unit {0})
  check_clean true working_path = done tt
  check_clean false working_path = do
    dirty ← reading (λ (h : Host D). ports.has_uncommitted_changes working_path h.disk)
    unless_dirty false dirty

  abbrev pub remove_existing : Bool → String → Bool → Action (Host D) (Unit {0})
  remove_existing force working_path false = done tt
  remove_existing force working_path true = do
    clean ← check_clean force working_path
    canonical ← reading (λ (h : Host D). ports.get_canonical_repo_path working_path h.disk)
    remove_at force working_path canonical

  abbrev pub set_inactive : ℕ → Action (Host D) (Unit {0})
  set_inactive id h =
      (ok tt, record h { envs = update_where (env_has_id id) (deactivate h.db.now) h.envs })

  abbrev pub release_active : Bool → Environment → Bool → Action (Host D) (Unit {0})
  release_active force row exists = do
    removed ← remove_existing force row.working_path exists
    set_inactive row.id

  abbrev pub release_found : Bool → Option Environment → Action (Host D) (Unit {0})
  release_found force none h = (ok tt, h)
  release_found force (some row) h =
      if not (is_active row.status)
      then (ok tt, h)
      else release_active force row (ports.worktree_exists row.working_path h.disk) h

  unfoldable pub release : ℕ → Bool → Action (Host D) (Unit {0})
  release id force h = release_found force (find (env_has_id id) h.envs) h

  abbrev pub find_active_by_run : ℕ → ℕ → Host D → Option Environment
  find_active_by_run = find_active
