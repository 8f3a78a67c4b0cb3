-- ===== src/Cleanup/Tests.antt =====
-- src/core/cleanup/cleanup-service.ts: a sweep over one environment whose branch is merged.
use fluxaos.Prelude.{
  eq_iff, true, ◌≡◌, refl, ◌&&◌, false, count, find, filter, any, sort_by, insert_by, update_where,
  List, [], ◌∷◌, ◌⊎◌, ok, String,
}
use fluxaos.Isolation.Config.{read_global_config_value, read_global_config_positive_int}
use fluxaos.Isolation.Ports.{EnvStatus, Environment, is_active, env_has_id, Host}
use fluxaos.Isolation.Provider.{release}
use fluxaos.Isolation.Sample.{paths, listed, env, host}
use fluxaos.Cleanup.Safety.{SafetyReason, is_safe_to_remove}
use fluxaos.Cleanup.Remove.{remove_environment}
use fluxaos.Cleanup.Sweep.{
  EntryId, RemoveReason, ReportReason, ArtifactsSafetyReason, CleanupReport,
  list_active_across_projects, is_artifacts_safe_to_remove, bases_from, list_artifacts_bases,
  sweep_each, sweep_dirs, sweep_bases, sweep_artifacts, sweep,
}
use fluxaos.Cleanup.Report.{mentions, sweep-mentions}
use fluxaos.Cleanup.Reapable.{MayRemove, remove_environment-untouched}
use fluxaos.Isolation.Ports.{PullRequestState}
use fluxaos.Cleanup.Remove.{on_pr_closed}
use fluxaos.Cleanup.Closed.{rows_of, on_pr_closed-untouched}

abbrev swept_report : CleanupReport
swept_report = record {
  removed =
      (EntryId.env_entry 10, "fluxaos/run-3", RemoveReason.safe_because SafetyReason.merged) ∷ [];
  skipped =
      (
        EntryId.artifacts_entry "/a/3",
        ReportReason.artifacts_reason ArtifactsSafetyReason.retention_not_reached,
      )
      ∷ [];
  errors = [];
}

abbrev swept_host : Host (List String)
swept_host = record host { envs = record env { status = EnvStatus.inactive } ∷ []; disk = [] }

swept : sweep paths listed false host ≡ (ok swept_report, swept_host)
unfolding sweep sweep_each sweep_artifacts sweep_bases sweep_dirs list_artifacts_bases bases_from
    is_artifacts_safe_to_remove list_active_across_projects sort_by insert_by filter
    is_safe_to_remove remove_environment release find any update_where read_global_config_value
    read_global_config_positive_int
swept = refl

sweep-mentions_example :
    mentions 10 swept_report
    ≡ count (λ (e : Environment). is_active e.status && env_has_id 10 e) host.envs
sweep-mentions_example = sweep-mentions paths listed false host swept_host swept_report 10 swept

remove_environment-untouched_example :
    ((remove_environment paths listed 10 false host).1 ≡ host) ⊎ MayRemove paths listed 10 host
remove_environment-untouched_example = remove_environment-untouched paths listed 10 host

-- A pull request of another branch.
abbrev other_pr : Host (List String)
other_pr = record host {
  pull_requests =
      record {
        id = 1;
        issue_id = 5;
        repo = "o/r";
        pr_number = 4;
        state = PullRequestState.opened;
        head_branch = "fluxaos/run-9";
      }
      ∷ [];
}

on_pr_closed-untouched_example :
    rows_of 10 (on_pr_closed paths listed 4 "o/r" true other_pr) ≡ rows_of 10 other_pr
on_pr_closed-untouched_example =
    on_pr_closed-untouched paths listed 10 4 "o/r" true other_pr
      (λ number repo. unfold filter in (λ same. absurd (cc ((eq_iff _ _).1 same)), tt), tt)
