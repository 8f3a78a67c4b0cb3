-- ===== src/Isolation/Reuse.antt =====
-- src/adapters/git/worktree-isolation-provider.ts: a run that acquires its environment again gets the same one.
use fluxaos.Prelude.{
  ◌≡◌, refl, sym, ◌∙◌, ap, subst, true, String, Option, none, some, is_some, Result, ok,
}
use fluxaos.Prelude.Actions.{◌>>=◌, reading, settled, >>=-returns, throw-never}
use fluxaos.Executor.Ports.{given}
use fluxaos.Isolation.Config.{
  get_runtime_artifacts_root-config, get_runtime_workspace_root-config, get_runtime_workspace_root,
  get_runtime_artifacts_root,
}
use fluxaos.Isolation.Ports.{Environment, Host, PathPorts, DiskPorts}
use fluxaos.Isolation.Paths.{get_worktree_path}
use fluxaos.Isolation.Provider.{checked_branch, AcquireParams, find_active, acquire_at, acquire}
use fluxaos.Isolation.Steps.{HasUniqueIds}
use fluxaos.Isolation.Acquired.{acquire_at-Leaves, acquire_at-reuses}

-- An answer, and the state that it was read from.
read_at :
    {S A : Type 0} (r : Result String A) (s t : S) (a : A)
    → settled r s ≡ (ok a, t)
    → (r ≡ ok a) × (s ≡ t)
read_at {S = S} {A = A} r s t a e =
    (ap (λ (x : Result String A × S). x.0) e, ap (λ (x : Result String A × S). x.1) e)

module _ {D : Type 0} (paths : PathPorts) (ports : DiskPorts D) (p : AcquireParams) where
  checked-is_some :
      (o : Option String) (h t : Host D) (c : Unit {0})
      → checked_branch paths ports o h ≡ (ok c, t)
      → (is_some o ≡ true) × (h ≡ t)
  checked-is_some none h t c e = absurd (throw-never _ h t c e)
  checked-is_some (some b) h t c e = (refl, ap (λ (r : Result String (Unit {0}) × Host D). r.1) e)

  checked-done :
      (o : Option String) (h : Host D)
      → is_some o ≡ true
      → checked_branch paths ports o h ≡ (ok tt, h)
  checked-done none h e = absurd (cc)
  checked-done (some b) h e = refl

  -- With the branch checked and the configuration read, only the last step is left.
  acquire-acquire_at :
      (h : Host D) (workspace_root artifacts_root : Option String) (worktree_path : String)
      → is_some (given (some p.base_branch)) ≡ true
      → get_runtime_workspace_root h.db ≡ ok workspace_root
      → get_runtime_artifacts_root h.db ≡ ok artifacts_root
      → get_worktree_path paths p.repo_path p.repo_identity p.branch_name workspace_root
        ≡ ok worktree_path
      → acquire paths ports p h
        ≡ acquire_at paths ports p artifacts_root workspace_root worktree_path
            (find_active p.project_id p.run_id h)
            h
  unfolding acquire
  acquire-acquire_at h workspace_root artifacts_root worktree_path checked e f g =
      rw (checked-done (given (some p.base_branch)) h checked, e, f, g) refl

-- A run that acquires its environment again, while the worktree is on disk, gets the same environment, and
-- nothing changes; ids of environments are unique, and the path of the artifacts is not blank.
pub acquire-again :
    {D : Type 0} (paths : PathPorts) (ports : DiskPorts D) (p : AcquireParams) (h h' : Host D)
    (env : Environment)
    → HasUniqueIds h.envs
    → acquire paths ports p h ≡ (ok env, h')
    → is_some (given env.artifacts_path) ≡ true
    → ports.worktree_exists env.working_path h'.disk ≡ true
    → acquire paths ports p h' ≡ (ok env, h')
unfolding acquire
acquire-again {D = D} paths ports p h h' env unique e known there =
    let check = checked_branch paths ports (given (some p.base_branch)) in
    let (c, t, checked, e1) = >>=-returns check _ h h' env e in
    let (workspace_root, t1, first, e2) =
      >>=-returns (reading (λ (x : Host D). get_runtime_workspace_root x.db)) _ t h' env e1 in
    let (artifacts_root, t2, second, e3) =
      >>=-returns (reading (λ (x : Host D). get_runtime_artifacts_root x.db)) _ t1 h' env e2 in
    let (worktree_path, t3, third, e4) =
      >>=-returns
        (settled (get_worktree_path paths p.repo_path p.repo_identity p.branch_name workspace_root))
        (λ path.
          reading (λ (x : Host D). ok (find_active p.project_id p.run_id x))
          >>= acquire_at paths ports p artifacts_root workspace_root path)
        t2 h' env e3 in
    let (existing, t4, fourth, e5) =
      >>=-returns (reading (λ (x : Host D). ok (find_active p.project_id p.run_id x)))
        (acquire_at paths ports p artifacts_root workspace_root worktree_path) t3 h' env e4 in
    let (branch, at_t) = checked-is_some paths ports p _ h t c checked in
    let (root, at_t1) = read_at _ t t1 workspace_root first in
    let (artifacts, at_t2) = read_at _ t1 t2 artifacts_root second in
    let (path, at_t3) = read_at _ t2 t3 worktree_path third in
    let (there_before, at_t4) =
      read_at (ok (find_active p.project_id p.run_id t3)) t3 t4 existing fourth in
    let start = at_t ∙ at_t1 in
    let same = start ∙ at_t2 ∙ at_t3 in
    let found : find_active p.project_id p.run_id t3 ≡ existing = cc in
    let (config, left) =
      (acquire_at-Leaves paths ports p workspace_root artifacts_root worktree_path existing).leaves
        h h' env unique (ap (find_active p.project_id p.run_id) same ∙ found)
        (subst
          (λ (x : Host D).
            acquire_at paths ports p artifacts_root workspace_root worktree_path existing x
            ≡ (ok env, h'))
          (sym (same ∙ at_t4)) e5) in
    let config_t : h'.db.config ≡ t.db.config = config ∙ ap (λ (x : Host D). x.db.config) at_t in
    let config_t1 : h'.db.config ≡ t1.db.config = config ∙ ap (λ (x : Host D). x.db.config) start in
    acquire-acquire_at paths ports p h' workspace_root artifacts_root worktree_path branch
      (get_runtime_workspace_root-config t.db h'.db config_t ∙ root)
      (get_runtime_artifacts_root-config t1.db h'.db config_t1 ∙ artifacts) path
    ∙ ap (λ o. acquire_at paths ports p artifacts_root workspace_root worktree_path o h') left
    ∙ acquire_at-reuses paths ports p workspace_root artifacts_root worktree_path env h' known there
