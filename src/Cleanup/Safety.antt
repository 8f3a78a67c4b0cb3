-- ===== src/Cleanup/Safety.antt =====
-- `isSafeToRemove` of src/core/cleanup/cleanup-service.ts.
use fluxaos.Prelude.{
  ℕ, String, Bool, true, false, ◌&&◌, ◌==◌, ◌*◌, ◌-◌, ltb, str_eq, any, Option, none, some, find,
  if◌then◌else◌, Result, ok, err, ◌>>=◌,
}
use fluxaos.Store.{Project}
use fluxaos.Executor.Ports.{given}
use fluxaos.Isolation.Config.{get_cleanup_stale_days, read_global_config_positive_int}
use fluxaos.Isolation.Ports.{Environment, PullRequestState, PullRequestRow, Host, DiskPorts}

pub data SafetyReason : Type 0 where
  uncommitted merged open_pr stale active_but_not_stale : SafetyReason

pub record SafetyResult : Type 0 where
  pub safe : Bool
  pub reason : SafetyReason

abbrev pub project_has_id : ℕ → Project → Bool
project_has_id id p = p.id == id

abbrev pub is_open : PullRequestState → Bool
is_open PullRequestState.opened = true
is_open PullRequestState.draft = true
is_open _ = false

abbrev pub open_pr_exists : {D : Type 0} → String → Host D → Bool
open_pr_exists branch_name h =
    any (λ (p : PullRequestRow). str_eq p.head_branch branch_name && is_open p.state)
      h.pull_requests

-- An exception counts as no.
abbrev pub or_no : Result String Bool → Bool
or_no (err text) = false
or_no (ok b) = b

abbrev pub ms_per_day : ℕ
ms_per_day = 86_400_000

-- `ageDays(env.createdAt, now) > staleDays`
abbrev pub is_stale : {D : Type 0} → ℕ → Environment → Host D → Bool
is_stale stale_days env h = ltb (stale_days * ms_per_day) (h.db.now - env.created_at)

module _ {D : Type 0} (ports : DiskPorts D) where
  abbrev pub has_changes : Environment → Host D → Bool
  has_changes env h = or_no (ports.has_uncommitted_changes env.working_path h.disk)

  abbrev merged_at : String → Environment → Host D → Result String Bool
  merged_at base_branch env h = do
    canonical ← ports.get_canonical_repo_path env.working_path h.disk
    ports.is_branch_merged canonical env.branch_name base_branch h.disk

  abbrev pub is_merged : String → Environment → Host D → Bool
  is_merged base_branch env h = or_no (merged_at base_branch env h)

  abbrev pub by_age : Environment → Host D → Result String SafetyResult
  by_age env h = do
    stale_days ← get_cleanup_stale_days h.db
    ok (
        if is_stale stale_days env h
        then record { safe = true; reason = SafetyReason.stale }
        else record { safe = false; reason = SafetyReason.active_but_not_stale })

  abbrev pub by_branch : Environment → Option String → Host D → Result String SafetyResult
  by_branch env none h = err "Invariant violation: project has null defaultBranch"
  by_branch env (some base_branch) h =
      if is_merged base_branch env h
      then ok (record { safe = true; reason = SafetyReason.merged })
      else if open_pr_exists env.branch_name h
      then ok (record { safe = false; reason = SafetyReason.open_pr })
      else by_age env h

  abbrev pub by_project : Environment → Option Project → Host D → Result String SafetyResult
  by_project env none h = err "Invariant violation: environment references missing project"
  by_project env (some p) h = by_branch env (given (some p.default_branch)) h

  unfoldable pub is_safe_to_remove : Environment → Host D → Result String SafetyResult
  unfolding read_global_config_positive_int
  is_safe_to_remove env h =
      if has_changes env h
      then ok (record { safe = false; reason = SafetyReason.uncommitted })
      else by_project env (find (project_has_id env.project_id) h.db.projects) h
