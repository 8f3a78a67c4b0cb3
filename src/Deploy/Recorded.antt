-- ===== src/Deploy/Recorded.antt =====
-- src/core/deploy/deploy-bridge.ts and src/core/orchestrator/pipeline-terminal-hook.ts: the record of a deploy.
use fluxaos.Prelude.{
  ◌+s◌, find, ℕ, ◌≡◌, refl, sym, ap, ◌∙◌, String, Bool, true, false, Option, none, some, [], ◌∷◌,
  ◌++◌, any, Bool-cases, inl, inr, ◌⊎◌, Result, ok, err, ◌==◌,
}
use fluxaos.Prelude.Actions.{reading, settled-Preserves, reading-Preserves}
use fluxaos.Store.{PipelineRunStatus, Project, PipelineRun, Issue}
use fluxaos.Issues.Lookup.{find_issue}
use fluxaos.Deploy.Templates.{build_commit_message}
use fluxaos.Isolation.Ports.{DeployStatus, Environment, Host, PathPorts, DiskPorts}
use fluxaos.Isolation.Provider.{find_active, on_disk}
use fluxaos.Deploy.Bridge.{
  load_most_recent_stage_name, given_sha, deploy_run_of, with_commit, with_ahead, deploy_row,
  or_stage, deploy_issue, CommitResult, count_ahead, deploy, skip_deploy, blank_error, publish,
  DeployPorts, DeployResult, is_deploy_of, insert_checked, insert_deploy, wrapped,
}
use fluxaos.Executor.Ports.{given}
use fluxaos.Runs.Service.{get_run}
use fluxaos.Deploy.Hook.{release_terminal_env, record_deploy_failure, after_deploy, on_terminal}
use fluxaos.Deploy.Hook
use fluxaos.Deploy.Kept.{
  deploys_of, IsRecorded, Ended, Records, on_disk-Preserves, release-Preserves, after-Records,
  then-Records, insert-Records,
}
use fluxaos.Deploy.Published.{publish-Records}

module _ {D : Type 0} (paths : PathPorts) (disk : DiskPorts D) (ports : DeployPorts D)
    (run_id : ℕ) where
  skip_deploy-Records :
      (reason : String) (result : DeployResult)
      → Records run_id (skip_deploy paths disk ports run_id reason result)
  skip_deploy-Records reason result =
      then-Records run_id
        (insert_deploy run_id (deploy_row run_id DeployStatus.skipped (some reason)))
        (λ inserted h. h) (λ inserted. result)
        (insert-Records run_id (deploy_row run_id DeployStatus.skipped (some reason)) (λ id. refl))
        (λ inserted h. refl)

  count_ahead-Records :
      (row : Issue) (project : Project) (repo_url : String) (env : Environment) (repo : String)
      → Records run_id (count_ahead paths disk ports run_id row project repo_url env repo)
  count_ahead-Records row project repo_url env repo =
      after-Records run_id
        (reading (λ (h : Host D).
          blank_error (ports.branch_ahead_count env.working_path project.default_branch h.disk)))
        (with_ahead paths disk ports run_id row project repo_url env repo)
        (reading-Preserves deploys_of _) ahead_Records
    where
      ahead_Records :
          (ahead : ℕ)
          → Records run_id (with_ahead paths disk ports run_id row project repo_url env repo ahead)
      ahead_Records ahead = elim (Bool-cases (ahead == 0)) [
        | inl t ↦ rw t (skip_deploy-Records "no-changes" DeployResult.no_changes)
        | inr t ↦ rw t (
            after-Records run_id
              (reading (λ (h : Host D). blank_error (ports.get_head_sha env.working_path h.disk)))
              (λ head.
                publish paths disk ports run_id row project repo_url env repo (given (some head)))
              (reading-Preserves deploys_of _)
              (λ head.
                publish-Records paths disk ports run_id row project repo_url env repo
                  (given (some head))))
      ]

  with_commit-Records :
      (row : Issue) (project : Project) (repo_url : String) (env : Environment) (repo : String)
      (commit : CommitResult)
      → Records run_id (with_commit paths disk ports run_id row project repo_url env repo commit)
  with_commit-Records row project repo_url env repo commit = elim (Bool-cases commit.no_changes) [
    | inl t ↦ rw t (count_ahead-Records row project repo_url env repo)
    | inr t ↦ rw t (
        publish-Records paths disk ports run_id row project repo_url env repo
          (given_sha paths disk ports run_id commit.commit_sha))
  ]

  deploy_issue-Records :
      (run : PipelineRun) (issue_id : ℕ)
      → Records run_id (deploy_issue paths disk ports run_id run issue_id)
  deploy_issue-Records run issue_id =
      after-Records run_id _ _
        (reading-Preserves deploys_of
          (λ (h : Host D). or_stage "load-issue" (find_issue issue_id h.db)))
        (λ row.
          after-Records run_id _ _
            (reading-Preserves deploys_of (λ (h : Host D).
              or_stage "load-project"
                (find (λ (p : Project). p.id == row.project_id) h.db.projects)))
            (λ project.
              after-Records run_id _ _
                (settled-Preserves deploys_of (or_stage "load-project" (given project.repo_url)))
                (λ repo_url.
                  after-Records run_id _ _
                    (reading-Preserves deploys_of
                      (λ (h : Host D). or_stage "find-env" (find_active project.id run_id h)))
                    (λ env.
                      after-Records run_id _ _
                        (settled-Preserves deploys_of
                          (blank_error (ports.resolve_repo_identity repo_url)))
                        (λ identity.
                          after-Records run_id _ _
                            (reading-Preserves deploys_of
                              (λ (h : Host D). ok (load_most_recent_stage_name run_id h.db)))
                            (λ stage_name.
                              after-Records run_id
                                (on_disk (
                                  wrapped "commit" (
                                    ports.commit_all env.working_path (
                                      build_commit_message row.title row.number
                                        (paths.show_id run_id) stage_name))))
                                _ (on_disk-Preserves _)
                                (λ commit.
                                  with_commit-Records row project repo_url env
                                    (identity.owner +s "/" +s identity.repo) commit)))))))

  deploy-Records : Records run_id (deploy paths disk ports run_id)
  unfolding deploy
  deploy-Records =
      after-Records run_id _ _
        (reading-Preserves deploys_of (λ (h : Host D). or_stage "load-run" (get_run run_id h.db)))
        (λ run. of_issue run run.issue_id)
    where
      of_issue :
          (run : PipelineRun) (o : Option ℕ)
          → Records run_id (deploy_run_of paths disk ports run_id run o)
      of_issue run none = skip_deploy-Records "no-issue" DeployResult.no_issue
      of_issue run (some issue_id) = deploy_issue-Records run issue_id

  release_terminal_env-keeps :
      (project_id : Option ℕ) (h : Host D)
      → (release_terminal_env paths disk ports run_id project_id h).deploys ≡ h.deploys
  unfolding release_terminal_env
  release_terminal_env-keeps none h = refl
  release_terminal_env-keeps (some project_id) h = go (find_active project_id run_id h)
    where
      go :
          (o : Option Environment)
          → (Hook.release_found paths disk ports run_id o h).deploys ≡ h.deploys
      go none = refl
      go (some env) = (release-Preserves paths disk env.id false).preserved h

  -- A run that has a record keeps it, and a run without one gets one.
  abbrev pub IsOnce : Host D → Host D → Type 0
  IsOnce h h' =
      ((any (is_deploy_of run_id) h.deploys ≡ true) × (h'.deploys ≡ h.deploys))
      ⊎ IsRecorded run_id h h'

  failure-IsOnce :
      (stage : String) (h t : Host D)
      → t.deploys ≡ h.deploys
      → IsOnce h (record_deploy_failure paths disk ports run_id stage t)
  unfolding record_deploy_failure insert_deploy
  failure-IsOnce stage h t same = go (any (is_deploy_of run_id) t.deploys) refl
    where
      go :
          (b : Bool)
          → any (is_deploy_of run_id) t.deploys ≡ b
          → IsOnce h
              (insert_checked b (deploy_row run_id DeployStatus.failed (given (some stage))) t).1
      go true e = inl (ap (any (is_deploy_of run_id)) (sym same) ∙ e, same)
      go false e = inr (
        ap (any (is_deploy_of run_id)) (sym same) ∙ e,
        deploy_row run_id DeployStatus.failed (given (some stage)) t.db.next_id,
        refl,
        ap
            (λ rows.
              rows ++ deploy_row run_id DeployStatus.failed (given (some stage)) t.db.next_id ∷ [])
            same,
      )

module _ {D : Type 0} (paths : PathPorts) (disk : DiskPorts D) (ports : DeployPorts D)
    (run_id : ℕ) where
  released-IsRecorded :
      (project_id : Option ℕ) (h t : Host D)
      → IsRecorded run_id h t
      → IsRecorded run_id h (release_terminal_env paths disk ports run_id project_id t)
  released-IsRecorded project_id h t (fresh, row, mine, added) =
      (fresh, row, mine, release_terminal_env-keeps paths disk ports run_id project_id t ∙ added)

  released-IsOnce :
      (project_id : Option ℕ) (h t : Host D)
      → IsOnce paths disk ports run_id h t
      → IsOnce paths disk ports run_id h (release_terminal_env paths disk ports run_id project_id t)
  released-IsOnce project_id h t (inl (old, same)) =
      inl (old, release_terminal_env-keeps paths disk ports run_id project_id t ∙ same)
  released-IsOnce project_id h t (inr recorded) = inr (released-IsRecorded project_id h t recorded)

-- After the hook has been called for a completed run there is exactly one new record of its deploy, which
-- belongs to the run, or none where the run had one already: however the deploy went, no earlier record is
-- lost or changed, and calling the hook again records nothing.
pub on_terminal-IsOnce :
    {D : Type 0} (paths : PathPorts) (disk : DiskPorts D) (ports : DeployPorts D) (run_id : ℕ)
    (project_id : Option ℕ) (h : Host D)
    → IsOnce paths disk ports run_id h
        (on_terminal paths disk ports run_id project_id PipelineRunStatus.completed h)
unfolding on_terminal
on_terminal-IsOnce {D = D} paths disk ports run_id project_id h =
    go (deploy paths disk ports run_id h) ((deploy-Records paths disk ports run_id).records h)
  where
    go :
        (r : Result String DeployResult × Host D)
        → Ended run_id h r
        → IsOnce paths disk ports run_id h (after_deploy paths disk ports run_id project_id r)
    go (err stage, t) e =
        released-IsOnce paths disk ports run_id project_id h
          (record_deploy_failure paths disk ports run_id stage t)
          (failure-IsOnce paths disk ports run_id stage h t e)
    go (ok (DeployResult.deployed pr branch_row_id pr_row_id commit_sha), t) e = inr e
    go (ok DeployResult.no_issue, t) e =
        inr (released-IsRecorded paths disk ports run_id project_id h t e)
    go (ok DeployResult.no_changes, t) e =
        inr (released-IsRecorded paths disk ports run_id project_id h t e)
