-- ===== src/Deploy/Published.antt =====
-- src/core/deploy/deploy-bridge.ts: the transaction writes one record of the deploy.
use fluxaos.Prelude.{ℕ, ◌≡◌, refl, String, false, Option, none, some, Result, ok, err}
use fluxaos.Prelude.Actions.{settled, Preserves, settled-Preserves, done-Preserves, >>=-Preserves}
use fluxaos.Store.{Project, Issue, IssueState, Db}
use fluxaos.Issues.Lookup.{IssueError, resolve_state_by_config_key}
use fluxaos.Issues.Service.{transition}
use fluxaos.Deploy.Templates.{build_pr_title, build_pr_body}
use fluxaos.Isolation.Ports.{Environment, Host, PathPorts, DiskPorts}
use fluxaos.Isolation.Provider.{on_disk, release}
use fluxaos.Deploy.Bridge.{
  moved_to, succeeded_row, advanced, blank_error, insert_pull_request, advance_issue, PullRequest,
  insert_branch, publish, record_deploy, DeployPorts, DeployResult, insert_deploy, wrapped,
}
use fluxaos.Deploy.Kept.{
  deploys_of, Records, on_disk-Preserves, release-Preserves, after-Records, before-Inserts,
  then-Inserts, transaction-Records, wrapped-Records, then-Records, insert-Records, Records-Inserts,
}

module _ {D : Type 0} (paths : PathPorts) (disk : DiskPorts D) (ports : DeployPorts D)
    (run_id : ℕ) where
  advance-Preserves :
      (row : Issue) → Preserves deploys_of (advance_issue paths disk ports run_id row)
  unfolding advance_issue
  advance-Preserves row = record {
    preserved = λ h.
        moved row
          (resolve_state_by_config_key row.project_id "issues.state.on_deploy_complete_key" h.db) h;
  }
    where
      written :
          (x : Result IssueError (Issue × Db)) (h : Host D)
          → (advanced paths disk ports run_id x h).1.deploys ≡ h.deploys
      written (err e) h = refl
      written (ok (row, db)) h = refl

      moved :
          (row : Issue) (x : Result IssueError IssueState) (h : Host D)
          → (moved_to paths disk ports run_id row x h).1.deploys ≡ h.deploys
      moved row (err e) h = refl
      moved row (ok state) h =
          written
            (transition row.id state.id row.version row.project_id (some "deploy-bridge") h.db h.db)
            h

  insert_branch-Preserves :
      (row : Issue) (repo branch_name : String)
      → Preserves deploys_of (insert_branch paths disk ports run_id row repo branch_name)
  insert_branch-Preserves row repo branch_name = record { preserved = λ h. refl }

  insert_pull_request-Preserves :
      (row : Issue) (repo : String) (pr : PullRequest)
      → Preserves deploys_of (insert_pull_request paths disk ports run_id row repo pr)
  insert_pull_request-Preserves row repo pr = record { preserved = λ h. refl }

  record_deploy-Records :
      (row : Issue) (env : Environment) (repo commit_sha : String) (pr : PullRequest)
      → Records run_id (record_deploy paths disk ports run_id row env repo commit_sha pr)
  unfolding record_deploy
  record_deploy-Records row env repo commit_sha pr = transaction-Records run_id _ (
      before-Inserts run_id _ _ (insert_branch-Preserves row repo env.branch_name) (λ branch_row_id.
        before-Inserts run_id _ _ (insert_pull_request-Preserves row repo pr) (λ pr_row_id.
          then-Inserts run_id
            (insert_deploy run_id
              (succeeded_row paths disk ports run_id branch_row_id pr_row_id commit_sha))
            _
            (Records-Inserts run_id _ (
              insert-Records run_id
                (succeeded_row paths disk ports run_id branch_row_id pr_row_id commit_sha)
                (λ id. refl)))
            (λ recorded.
              >>=-Preserves deploys_of (advance_issue paths disk ports run_id row) _
                (advance-Preserves row)
                (λ advanced.
                  done-Preserves deploys_of
                    (DeployResult.deployed pr branch_row_id pr_row_id commit_sha))))))

  pub publish-Records :
      (row : Issue) (project : Project) (repo_url : String) (env : Environment) (repo : String)
      (o : Option String)
      → Records run_id (publish paths disk ports run_id row project repo_url env repo o)
  publish-Records row project repo_url env repo none = record { records = λ h. refl }
  publish-Records row project repo_url env repo (some commit_sha) =
      after-Records run_id (on_disk (wrapped "push" (ports.push env.working_path env.branch_name)))
        _ (on_disk-Preserves _)
        (λ pushed.
          after-Records run_id (settled (blank_error (ports.for_url repo_url))) _
            (settled-Preserves deploys_of _)
            (λ forge.
              after-Records run_id
                (on_disk (
                  wrapped "create-pr" (
                    ports.create_pull_request repo (build_pr_title row.title row.number)
                      (build_pr_body row.title row.number (paths.show_id row.id)
                        (paths.show_id run_id) commit_sha)
                      env.branch_name project.default_branch)))
                _ (on_disk-Preserves _)
                (λ pr.
                  then-Records run_id
                    (wrapped "record-db"
                      (record_deploy paths disk ports run_id row env repo commit_sha pr))
                    (λ result h. (release paths disk env.id false h).1) (λ result. result)
                    (wrapped-Records run_id "record-db" _
                      (record_deploy-Records row env repo commit_sha pr))
                    (λ result h. (release-Preserves paths disk env.id false).preserved h))))
