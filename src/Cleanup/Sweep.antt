-- ===== src/Cleanup/Sweep.antt =====
-- `runScheduledSweep` and `cleanupToMakeRoom` of src/core/cleanup/cleanup-service.ts, with
-- src/core/cleanup/cleanup-service-artifacts.ts.
use fluxaos.Prelude.{
  ℕ, String, Bool, true, false, ◌&&◌, ◌*◌, ◌-◌, ltb, str_eq, any, Option, none, some, List, [], ◌∷◌,
  ◌++◌, find, filter, sort_by, if◌then◌else◌, Result, ok, err,
}
use fluxaos.Prelude.Actions.{Action, ◌>>=◌, done, reading}
use fluxaos.Store.{is_run_terminal, PipelineRun, Db}
use fluxaos.Executor.Ports.{given}
use fluxaos.Isolation.Config.{get_cleanup_artifacts_retention_days, read_global_config_positive_int}
use fluxaos.Isolation.Ports.{Environment, is_active, Host, PathPorts, DiskPorts}
use fluxaos.Isolation.Provider.{on_disk}
use fluxaos.Cleanup.Safety.{SafetyReason, is_safe_to_remove, ms_per_day}
use fluxaos.Cleanup.Remove.{SkipReason, RemoveEnvironmentResult, remove_environment}

-- `env.id`, `artifacts:${runId}` and `artifacts:${base}`.
pub data EntryId : Type 0 where
  env_entry : ℕ → EntryId
  artifacts_entry : String → EntryId

pub data RemoveReason : Type 0 where
  safe_because : SafetyReason → RemoveReason
  artifacts_stale : RemoveReason

pub data ArtifactsSafetyReason : Type 0 where
  stale active_run retention_not_reached : ArtifactsSafetyReason

pub data ReportReason : Type 0 where
  env_reason : SkipReason → ReportReason
  artifacts_reason : ArtifactsSafetyReason → ReportReason

pub record CleanupReport : Type 0 where
  pub removed : List (EntryId × String × RemoveReason)
  pub skipped : List (EntryId × ReportReason)
  pub errors : List (EntryId × String)

abbrev pub empty_report : CleanupReport
empty_report = record { removed = []; skipped = []; errors = [] }

abbrev pub push_removed : EntryId → String → RemoveReason → CleanupReport → CleanupReport
push_removed id branch_name reason r = record r {
  removed = r.removed ++ (id, branch_name, reason) ∷ [];
}

abbrev pub push_skipped : EntryId → ReportReason → CleanupReport → CleanupReport
push_skipped id reason r = record r { skipped = r.skipped ++ (id, reason) ∷ [] }

abbrev pub push_error : EntryId → String → CleanupReport → CleanupReport
push_error id text r = record r { errors = r.errors ++ (id, text) ∷ [] }

unfoldable pub list_active_across_projects : {D : Type 0} → Host D → List Environment
list_active_across_projects h =
    sort_by (λ (e : Environment). e.created_at)
      (filter (λ (e : Environment). is_active e.status) h.envs)

-- What the sweep reaps, of what is safe.
abbrev is_reaped : SafetyReason → Bool
is_reaped SafetyReason.merged = true
is_reaped SafetyReason.stale = true
is_reaped _ = false

abbrev or_unknown : Option SkipReason → SkipReason
or_unknown none = SkipReason.unknown
or_unknown (some reason) = reason

-- What became of one environment.
pub data Outcome : Type 0 where
  reaped : SafetyReason → Outcome
  left : SkipReason → Outcome

abbrev pub outcome_of : SafetyReason → RemoveEnvironmentResult → Outcome
outcome_of reason result =
    if result.worktree_removed
    then Outcome.reaped reason
    else Outcome.left (or_unknown result.skipped_reason)

abbrev pub noted : Environment → Result String Outcome → CleanupReport → CleanupReport
noted env (err text) r = push_error (EntryId.env_entry env.id) text r
noted env (ok (Outcome.reaped reason)) r =
    push_removed (EntryId.env_entry env.id) env.branch_name (RemoveReason.safe_because reason) r
noted env (ok (Outcome.left reason)) r =
    push_skipped (EntryId.env_entry env.id) (ReportReason.env_reason reason) r

unfoldable pub is_artifacts_safe_to_remove :
    PathPorts → String → (age_ms retention_days : ℕ) → Db → ArtifactsSafetyReason
is_artifacts_safe_to_remove paths run_id age_ms retention_days db =
    let age =
      if ltb age_ms (retention_days * ms_per_day)
      then ArtifactsSafetyReason.retention_not_reached
      else ArtifactsSafetyReason.stale in
    elim (find (λ (r : PipelineRun). str_eq (paths.show_id r.id) run_id) db.runs) [
      | none ↦ age
      | some r ↦ if is_run_terminal r.status then age else ArtifactsSafetyReason.active_run
    ]

abbrev add_base : PathPorts → Option String → List String → List String
add_base paths none bases = bases
add_base paths (some path) bases =
    if any (str_eq (paths.dirname path)) bases then bases else bases ++ paths.dirname path ∷ []

unfoldable pub bases_from : PathPorts → List Environment → List String → List String
bases_from paths [] bases = bases
bases_from paths (e ∷ rest) bases =
    bases_from paths rest (add_base paths (given e.artifacts_path) bases)

unfoldable pub list_artifacts_bases : {D : Type 0} → PathPorts → Host D → List String
unfolding bases_from
list_artifacts_bases paths h = bases_from paths h.envs []

module _ {D : Type 0} (paths : PathPorts) (ports : DiskPorts D) where
  abbrev if_reaped : Bool → Environment → SafetyReason → Action (Host D) Outcome
  if_reaped false env reason = done (Outcome.left (SkipReason.unsafe reason))
  if_reaped true env reason = do
    result ← remove_environment paths ports env.id false
    done (outcome_of reason result)

  -- `every` is true where room is made: there is no second look at the reason.
  abbrev pub reap : Bool → Environment → Action (Host D) Outcome
  reap every env = do
    safety ← reading (is_safe_to_remove ports env)
    if_reaped (safety.safe && (if every then true else is_reaped safety.reason)) env safety.reason

  unfoldable pub sweep_each :
      Bool → List Environment → CleanupReport → Host D → CleanupReport × Host D
  unfolding remove_environment is_safe_to_remove
  sweep_each every [] r h = (r, h)
  sweep_each every (env ∷ rest) r h =
      let (outcome, h') = reap every env h in sweep_each every rest (noted env outcome r) h'

  abbrev remove_stale : String → ArtifactsSafetyReason → Action (Host D) ArtifactsSafetyReason
  remove_stale dir ArtifactsSafetyReason.stale = do
    removed ← on_disk (ports.remove_artifacts_dir dir)
    done ArtifactsSafetyReason.stale
  remove_stale dir reason = done reason

  abbrev reap_dir : ℕ → String → Action (Host D) ArtifactsSafetyReason
  reap_dir retention_days dir = do
    mtime ← reading (λ (h : Host D). ports.get_artifacts_dir_age dir h.disk)
    reason ← reading (λ (h : Host D). ok (
        is_artifacts_safe_to_remove paths (paths.basename dir) (h.db.now - mtime) retention_days
          h.db))
    remove_stale dir reason

  abbrev pub noted_dir :
      String → Result String ArtifactsSafetyReason → CleanupReport → CleanupReport
  noted_dir dir (err text) r = push_error (EntryId.artifacts_entry (paths.basename dir)) text r
  noted_dir dir (ok ArtifactsSafetyReason.stale) r =
      push_removed (EntryId.artifacts_entry (paths.basename dir)) "" RemoveReason.artifacts_stale r
  noted_dir dir (ok reason) r =
      push_skipped (EntryId.artifacts_entry (paths.basename dir))
        (ReportReason.artifacts_reason reason) r

  unfoldable pub sweep_dirs : ℕ → List String → CleanupReport → Host D → CleanupReport × Host D
  unfolding is_artifacts_safe_to_remove
  sweep_dirs retention_days [] r h = (r, h)
  sweep_dirs retention_days (dir ∷ rest) r h =
      let (reason, h') = reap_dir retention_days dir h in
      sweep_dirs retention_days rest (noted_dir dir reason r) h'

  abbrev pub sweep_listed :
      ℕ → String → Result String (List String) → CleanupReport → Host D → CleanupReport × Host D
  sweep_listed retention_days base (err text) r h =
      (push_error (EntryId.artifacts_entry base) text r, h)
  sweep_listed retention_days base (ok dirs) r h = sweep_dirs retention_days dirs r h

  unfoldable pub sweep_bases : ℕ → List String → CleanupReport → Host D → CleanupReport × Host D
  unfolding sweep_dirs
  sweep_bases retention_days [] r h = (r, h)
  sweep_bases retention_days (base ∷ rest) r h =
      let (r', h') = sweep_listed retention_days base (ports.list_artifact_dirs base h.disk) r h in
      sweep_bases retention_days rest r' h'

  unfoldable pub sweep_artifacts : ℕ → CleanupReport → Host D → CleanupReport × Host D
  unfolding sweep_bases list_artifacts_bases
  sweep_artifacts retention_days r h = sweep_bases retention_days (list_artifacts_bases paths h) r h

  -- The retention is read after the worktrees are done: its exception loses their report.
  abbrev pub with_retention :
      Result String ℕ → CleanupReport → Host D → Result String CleanupReport × Host D
  with_retention (err text) r h = (err text, h)
  with_retention (ok retention_days) r h =
      let (r', h') = sweep_artifacts retention_days r h in (ok r', h')

  unfoldable pub sweep : Bool → Action (Host D) CleanupReport
  unfolding sweep_each list_active_across_projects sweep_artifacts read_global_config_positive_int
  sweep every h =
      let (r, h') = sweep_each every (list_active_across_projects h) empty_report h in
      with_retention (get_cleanup_artifacts_retention_days h'.db) r h'

  unfoldable pub run_scheduled_sweep : Action (Host D) CleanupReport
  unfolding sweep
  run_scheduled_sweep = sweep false

  unfoldable pub cleanup_to_make_room : Action (Host D) CleanupReport
  unfolding sweep
  cleanup_to_make_room = sweep true
