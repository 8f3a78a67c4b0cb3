-- ===== src/Isolation/Acquired.antt =====
-- src/adapters/git/worktree-isolation-provider.ts: the environment that each branch of `acquire` returns.
use fluxaos.Prelude.{
  ◌≡◌, refl, sym, ◌∙◌, ap, Bool, true, false, String, Option, none, some, List, [], ◌∷◌,
  find-append, any, ==_refl, is_some, Bool-cases, inl, inr, Result, ok,
}
use fluxaos.Prelude.Actions.{Action, catch, ◌>>=◌, done}
use fluxaos.Executor.Ports.{given}
use fluxaos.Isolation.Ports.{Environment, is_active_for, Host, PathPorts, DiskPorts}
use fluxaos.Isolation.Paths.{get_workspace_root}
use fluxaos.Isolation.Provider.{
  new_environment, insert_row, or_param, either_root, copy_if_any, ensure_artifacts_gitignored,
  default_path, clean_up, unless_external, ensure_worktree_gitignored, AcquireParams, on_disk,
  find_active, insert_environment, repair, mint, reuse, acquire_at,
}
use fluxaos.Isolation.Steps.{
  Keeps, Leaves, Throws, throw-Throws, Throws-bind, Keeps-bind, on_disk-Keeps, Leaves-bind,
  done-Keeps, settled-Keeps, write-Leaves,
}

module _ {D : Type 0} (paths : PathPorts) (ports : DiskPorts D) (p : AcquireParams)
    (workspace_root artifacts_root : Option String) where
  gitignored-Keeps : Keeps (ensure_worktree_gitignored paths ports p.repo_path workspace_root)
  unfolding ensure_worktree_gitignored
  gitignored-Keeps =
      Keeps-bind _ _ (settled-Keeps (get_workspace_root paths workspace_root)) (λ root. unless root)
    where
      unless :
          (root : Option String)
          → Keeps (unless_external paths ports root p.repo_path ".fluxaos-worktrees/")
      unless none = on_disk-Keeps _
      unless (some root) = done-Keeps tt

  artifacts_gitignored-Keeps :
      Keeps (ensure_artifacts_gitignored paths ports p.repo_path workspace_root artifacts_root)
  unfolding ensure_artifacts_gitignored
  artifacts_gitignored-Keeps =
      Keeps-bind _ _ (settled-Keeps (get_workspace_root paths workspace_root))
        (λ root. unless (either_root paths ports root (given artifacts_root)))
    where
      unless :
          (root : Option String)
          → Keeps (unless_external paths ports root p.repo_path ".fluxaos-artifacts/")
      unless none = on_disk-Keeps _
      unless (some root) = done-Keeps tt

  copy-Keeps :
      (worktree_path : String) (files : List String)
      → Keeps (copy_if_any paths ports p.repo_path worktree_path files)
  copy-Keeps worktree_path [] = done-Keeps tt
  copy-Keeps worktree_path (file ∷ files) = on_disk-Keeps _

  default_path-Keeps :
      (o : Option String) → Keeps (default_path paths ports p artifacts_root workspace_root o)
  default_path-Keeps none = settled-Keeps _
  default_path-Keeps (some path) = done-Keeps path

  repair-Leaves :
      (existing : Environment)
      → Leaves p.project_id p.run_id
          (some existing)
          (repair paths ports p artifacts_root workspace_root existing)
  unfolding repair
  repair-Leaves existing = bind _ _ gitignored-Keeps (λ ignored.
      bind _ _ (on_disk-Keeps _) (λ created. bind _ _ (copy-Keeps _ p.copy_files) (λ copied.
        bind _ _
          (default_path-Keeps (or_param paths ports existing.artifacts_path p.artifacts_path))
          (λ path.
            bind _ _ (on_disk-Keeps (ports.ensure_artifacts_dir path))
              (λ made. write-Leaves p.project_id p.run_id existing path)))))
    where
      bind :
          {A : Type 0} (action : Action (Host D) A) (later : A → Action (Host D) Environment)
          → Keeps action
          → ((a : A) → Leaves p.project_id p.run_id (some existing) (later a))
          → Leaves p.project_id p.run_id (some existing) (action >>= later)
      bind = Leaves-bind p.project_id p.run_id (some existing)

  clean_up-Throws :
      (worktree_path path text : String) → Throws (clean_up paths ports p worktree_path path text)
  clean_up-Throws worktree_path path text =
      Throws-bind
        (catch (on_disk (ports.remove_worktree p.repo_path worktree_path true))
          (λ ignored. done tt))
        _
        (λ removed.
          Throws-bind (catch (on_disk (ports.remove_artifacts_dir path)) (λ ignored. done tt)) _
            (λ cleared. throw-Throws text))

  insert-Leaves :
      (worktree_path path : String)
      → Leaves p.project_id p.run_id none (
          catch
            (insert_environment paths ports p worktree_path path)
            (clean_up paths ports p worktree_path path))
  unfolding insert_environment
  insert-Leaves worktree_path path = record {
    leaves = λ h h' env unique found e.
        go h h' env found (any (is_active_for p.project_id p.run_id) h.envs) e;
  }
    where
      go :
          (h h' : Host D) (env : Environment)
          → find_active p.project_id p.run_id h ≡ none
          → (b : Bool)
          → catch
              (insert_row paths ports p worktree_path path b)
              (clean_up paths ports p worktree_path path)
              h
            ≡ (ok env, h')
          → (h'.db.config ≡ h.db.config) × (find_active p.project_id p.run_id h' ≡ some env)
      go h h' env found true e = absurd (
          (clean_up-Throws worktree_path path
              "duplicate key value violates unique constraint").throws
            h h' env e)
      go h h' env found false e =
          let row = new_environment paths ports p worktree_path path h.db.next_id h.db.now in
          let added : ok row ≡ ok env = ap (λ (r : Result String Environment × Host D). r.0) e in
          let same : row ≡ env = cc in
          let left = ap (λ (r : Result String Environment × Host D). r.1) e in
          (
            ap (λ (x : Host D). x.db.config) (sym left),
            ap (find_active p.project_id p.run_id) (sym left)
                ∙ find-append (is_active_for p.project_id p.run_id) h.envs row found
                    (rw (==_refl p.project_id, ==_refl p.run_id) refl)
                ∙ ap some same,
          )

  mint-Leaves :
      (worktree_path : String)
      → Leaves p.project_id p.run_id none
          (mint paths ports p artifacts_root workspace_root worktree_path)
  unfolding mint
  mint-Leaves worktree_path = bind _ _ gitignored-Keeps (λ ignored.
      bind _ _ artifacts_gitignored-Keeps (λ both. bind _ _ (on_disk-Keeps _) (λ created.
        bind _ _ (copy-Keeps _ p.copy_files) (λ copied. bind _ _ (default_path-Keeps _) (λ path.
          bind _ _ (on_disk-Keeps (ports.ensure_artifacts_dir path))
            (λ made. insert-Leaves worktree_path path))))))
    where
      bind :
          {A : Type 0} (action : Action (Host D) A) (later : A → Action (Host D) Environment)
          → Keeps action
          → ((a : A) → Leaves p.project_id p.run_id none (later a))
          → Leaves p.project_id p.run_id none (action >>= later)
      bind = Leaves-bind p.project_id p.run_id none

  reuse-Leaves :
      (existing : Environment) (o : Option String)
      → Leaves p.project_id p.run_id
          (some existing)
          (reuse paths ports p artifacts_root workspace_root existing o)
  reuse-Leaves existing (some path) = record {
    leaves = λ h h' env unique found e.
        let kept = ap (λ (r : Result String Environment × Host D). r.1) e in
        let answer : ok existing ≡ ok env =
          ap (λ (r : Result String Environment × Host D). r.0) e in
        let same : existing ≡ env = cc in
        (
          ap (λ (x : Host D). x.db.config) (sym kept),
          ap (find_active p.project_id p.run_id) (sym kept) ∙ found ∙ ap some same,
        );
  }
  reuse-Leaves existing none =
      Leaves-bind p.project_id p.run_id (some existing) _ _ (default_path-Keeps p.artifacts_path)
        (λ path.
          Leaves-bind p.project_id p.run_id (some existing) _ _
            (on_disk-Keeps (ports.ensure_artifacts_dir path))
            (λ made. write-Leaves p.project_id p.run_id existing path))

  pub acquire_at-Leaves :
      (worktree_path : String) (before : Option Environment)
      → Leaves p.project_id p.run_id before
          (acquire_at paths ports p artifacts_root workspace_root worktree_path before)
  acquire_at-Leaves worktree_path none = record {
    leaves = λ h h' env unique found e. (mint-Leaves worktree_path).leaves h h' env unique found e;
  }
  acquire_at-Leaves worktree_path (some existing) = record {
    leaves = λ h h' env unique found e.
        elim (Bool-cases (ports.worktree_exists existing.working_path h.disk)) [
          | inl t ↦
              (reuse-Leaves existing (given existing.artifacts_path)).leaves h h' env unique found
                (rw t at e)
          | inr t ↦ (repair-Leaves existing).leaves h h' env unique found (rw t at e)
        ];
  }

  -- The environment that is active and on disk is the answer of `acquire_at`, at no change.
  pub acquire_at-reuses :
      (worktree_path : String) (env : Environment) (h : Host D)
      → is_some (given env.artifacts_path) ≡ true
      → ports.worktree_exists env.working_path h.disk ≡ true
      → acquire_at paths ports p artifacts_root workspace_root worktree_path (some env) h
        ≡ (ok env, h)
  acquire_at-reuses worktree_path env h known there = rw there (go (given env.artifacts_path) known)
    where
      go :
          (o : Option String)
          → is_some o ≡ true
          → reuse paths ports p artifacts_root workspace_root env o h ≡ (ok env, h)
      go none known = absurd (cc)
      go (some path) known = refl
