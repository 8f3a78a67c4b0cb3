-- ===== src/Cleanup/Remove.antt =====
-- `removeEnvironment`, `onPrClosed` and `listBreakdown` of src/core/cleanup/cleanup-service.ts, and
-- `forceRemoveArtifactsDir` of cleanup-service-artifacts.ts.
use fluxaos.Prelude.{
  ℕ, String, Bool, true, false, ◌&&◌, ◌==◌, str_eq, Option, none, some, List, [], ◌∷◌, ◌+s◌, ◌+◌,
  find, filter, count, not, if◌then◌else◌, Result, ok, err,
}
use fluxaos.Prelude.Actions.{Action, ◌>>=◌, done, reading}
use fluxaos.Executor.Ports.{given}
use fluxaos.Isolation.Ports.{
  Environment, is_active, env_has_id, PullRequestRow, Host, PathPorts, DiskPorts,
}
use fluxaos.Isolation.Provider.{on_disk, release}
use fluxaos.Cleanup.Safety.{SafetyReason, SafetyResult, is_safe_to_remove}

pub data SkipReason : Type 0 where
  not_found already_inactive unknown : SkipReason
  unsafe : SafetyReason → SkipReason

pub record RemoveEnvironmentResult : Type 0 where
  pub worktree_removed : Bool
  pub skipped_reason : Option SkipReason
  pub warnings : List String

abbrev pub skip : SkipReason → RemoveEnvironmentResult
skip reason = record { worktree_removed = false; skipped_reason = some reason; warnings = [] }

abbrev pub warned :
    {D : Type 0} → Result String (Unit {0}) × Host D → Result String (List String) × Host D
warned (err text, h) = (ok (("artifacts-remove: " +s text) ∷ []), h)
warned (ok removed, h) = (ok [], h)

abbrev pub on_branch : String → Environment → Bool
on_branch branch_name e = str_eq e.branch_name branch_name && is_active e.status

abbrev pub is_pr : ℕ → String → PullRequestRow → Bool
is_pr pr_number repo p = p.pr_number == pr_number && str_eq p.repo repo

module _ {D : Type 0} (paths : PathPorts) (ports : DiskPorts D) where
  abbrev pub force_remove_path : Option String → Action (Host D) (List String)
  force_remove_path none h = (ok [], h)
  force_remove_path (some path) h = warned (on_disk (ports.remove_artifacts_dir path) h)

  -- The warnings.
  unfoldable pub force_remove_artifacts_dir : Option String → Action (Host D) (List String)
  force_remove_artifacts_dir artifacts_path = force_remove_path (given artifacts_path)

  abbrev pub artifacts_if_forced : Bool → Environment → Action (Host D) (List String)
  artifacts_if_forced false row = done []
  artifacts_if_forced true row = force_remove_artifacts_dir row.artifacts_path

  -- An exception of the release leaves through `removeEnvironment`.
  abbrev pub released : Bool → Environment → Action (Host D) RemoveEnvironmentResult
  released force row = do
    gone ← release paths ports row.id force
    warnings ← artifacts_if_forced force row
    done (record { worktree_removed = true; skipped_reason = none; warnings = warnings })

  abbrev pub if_safe : Environment → SafetyResult → Action (Host D) RemoveEnvironmentResult
  if_safe row safety =
      if safety.safe then released false row else done (skip (SkipReason.unsafe safety.reason))

  abbrev pub remove_active : Bool → Environment → Action (Host D) RemoveEnvironmentResult
  remove_active true row = released true row
  remove_active false row = do safety ← reading (is_safe_to_remove ports row); if_safe row safety

  abbrev pub remove_found : Bool → Option Environment → Action (Host D) RemoveEnvironmentResult
  remove_found force none = done (skip SkipReason.not_found)
  remove_found force (some row) =
      if is_active row.status
      then remove_active force row
      else done (skip SkipReason.already_inactive)

  unfoldable pub remove_environment : ℕ → Bool → Action (Host D) RemoveEnvironmentResult
  unfolding release is_safe_to_remove force_remove_artifacts_dir
  remove_environment id force h = remove_found force (find (env_has_id id) h.envs) h

  -- The environments of a pull request, of which no exception stops the others.
  unfoldable pub remove_each : Bool → List Environment → Host D → Host D
  unfolding remove_environment
  remove_each force [] h = h
  remove_each force (env ∷ rest) h = remove_each force rest (remove_environment env.id force h).1

  unfoldable pub close_each : Bool → List PullRequestRow → Host D → Host D
  unfolding remove_each
  close_each was_merged [] h = h
  close_each was_merged (pr ∷ rest) h =
      close_each was_merged rest
        (remove_each was_merged (filter (on_branch pr.head_branch) h.envs) h)

  unfoldable pub on_pr_closed : ℕ → String → (was_merged : Bool) → Host D → Host D
  unfolding close_each
  on_pr_closed pr_number repo was_merged h =
      close_each was_merged (filter (is_pr pr_number repo) h.pull_requests) h

pub record BreakdownReport : Type 0 where
  pub total_active : ℕ
  pub total_inactive : ℕ
  pub safe_to_remove : ℕ
  pub skipped_with_reason : SafetyReason → ℕ

abbrev same_reason : SafetyReason → SafetyReason → Bool
same_reason SafetyReason.uncommitted SafetyReason.uncommitted = true
same_reason SafetyReason.merged SafetyReason.merged = true
same_reason SafetyReason.open_pr SafetyReason.open_pr = true
same_reason SafetyReason.stale SafetyReason.stale = true
same_reason SafetyReason.active_but_not_stale SafetyReason.active_but_not_stale = true
same_reason _ _ = false

abbrev counted : SafetyResult → BreakdownReport → BreakdownReport
counted safety r =
    if safety.safe then record r { safe_to_remove = r.safe_to_remove + 1 } else record r {
      skipped_with_reason = λ reason.
          if same_reason safety.reason reason
          then r.skipped_with_reason reason + 1
          else r.skipped_with_reason reason;
    }

abbrev in_project : ℕ → Bool → Environment → Bool
in_project project_id wanted e =
    e.project_id == project_id && (if wanted then is_active e.status else not (is_active e.status))

module _ {D : Type 0} (ports : DiskPorts D) where
  unfoldable pub count_each :
      List Environment → BreakdownReport → Host D → Result String BreakdownReport
  unfolding is_safe_to_remove
  count_each [] r h = ok r
  count_each (env ∷ rest) r h = elim (is_safe_to_remove ports env h) [
    | err text ↦ err text
    | ok safety ↦ count_each rest (counted safety r) h
  ]

  unfoldable pub list_breakdown : ℕ → Host D → Result String BreakdownReport
  unfolding count_each
  list_breakdown project_id h =
      count_each (filter (in_project project_id true) h.envs)
        (record {
          total_active = count (in_project project_id true) h.envs;
          total_inactive = count (in_project project_id false) h.envs;
          safe_to_remove = 0;
          skipped_with_reason = λ reason. 0;
        })
        h
