-- ===== src/Cleanup/Report.antt =====
-- src/core/cleanup/cleanup-service.ts: what the report of a sweep says.
use fluxaos.Prelude.{
  count-filter, count-sort_by, ◌&&◌, ℕ, ◌+◌, ◌≡◌, refl, sym, ap, ◌∙◌, String, Bool, false, List, [],
  ◌∷◌, ◌++◌, count, count-append, filter, ◌==◌, arith, Result, ok, err,
}
use fluxaos.Isolation.Config.{get_cleanup_artifacts_retention_days}
use fluxaos.Isolation.Ports.{Environment, is_active, env_has_id, Host, PathPorts, DiskPorts}
use fluxaos.Cleanup.Sweep.{
  EntryId, RemoveReason, ReportReason, ArtifactsSafetyReason, CleanupReport, empty_report, Outcome,
  list_active_across_projects, list_artifacts_bases, noted, reap, sweep_each, noted_dir, sweep_dirs,
  sweep_listed, sweep_bases, sweep_artifacts, with_retention, sweep,
}

abbrev pub is_entry : ℕ → EntryId → Bool
is_entry id (EntryId.env_entry i) = i == id
is_entry id (EntryId.artifacts_entry text) = false

-- How often a report names the environment, whatever it says of it.
abbrev pub mentions : ℕ → CleanupReport → ℕ
mentions id r =
    count (λ (e : EntryId × String × RemoveReason). is_entry id e.0) r.removed
    + count (λ (e : EntryId × ReportReason). is_entry id e.0) r.skipped
    + count (λ (e : EntryId × String). is_entry id e.0) r.errors

count-snoc :
    {A : Type 0} (p : A → Bool) (xs : List A) (y : A)
    → count p (xs ++ y ∷ []) ≡ count p xs + count p (y ∷ [])
count-snoc p xs y = count-append p xs (y ∷ [])

noted-mentions :
    (id : ℕ) (env : Environment) (x : Result String Outcome) (r : CleanupReport)
    → mentions id (noted env x r) ≡ mentions id r + count (env_has_id id) (env ∷ [])
unfolding count
noted-mentions id env (err text) r = omega (
  arith,
  count-snoc (λ (e : EntryId × String). is_entry id e.0) r.errors (EntryId.env_entry env.id, text),
)
noted-mentions id env (ok (Outcome.reaped reason)) r = omega (
  arith,
  count-snoc (λ (e : EntryId × String × RemoveReason). is_entry id e.0) r.removed
      (EntryId.env_entry env.id, env.branch_name, RemoveReason.safe_because reason),
)
noted-mentions id env (ok (Outcome.left reason)) r = omega (
  arith,
  count-snoc (λ (e : EntryId × ReportReason). is_entry id e.0) r.skipped
      (EntryId.env_entry env.id, ReportReason.env_reason reason),
)

module _ {D : Type 0} (paths : PathPorts) (ports : DiskPorts D) (id : ℕ) where
  sweep_each-mentions :
      (every : Bool) (envs : List Environment) (r : CleanupReport) (h : Host D)
      → mentions id (sweep_each paths ports every envs r h).0
        ≡ mentions id r + count (env_has_id id) envs
  unfolding sweep_each count
  sweep_each-mentions every [] r h = omega arith
  sweep_each-mentions every (env ∷ rest) r h =
      let (outcome, h') = reap paths ports every env h in
      let later = sweep_each-mentions every rest (noted env outcome r) h' in
      let here = noted-mentions id env outcome r in
      later
      ∙ ap (λ n. n + count (env_has_id id) rest) here
      ∙ omega (arith, count-append (env_has_id id) (env ∷ []) rest)

  noted_dir-mentions :
      (dir : String) (x : Result String ArtifactsSafetyReason) (r : CleanupReport)
      → mentions id (noted_dir paths ports dir x r) ≡ mentions id r
  unfolding count
  noted_dir-mentions dir (err text) r = omega (
    arith,
    count-snoc (λ (e : EntryId × String). is_entry id e.0) r.errors
        (EntryId.artifacts_entry (paths.basename dir), text),
  )
  noted_dir-mentions dir (ok ArtifactsSafetyReason.stale) r = omega (
    arith,
    count-snoc (λ (e : EntryId × String × RemoveReason). is_entry id e.0) r.removed
        (EntryId.artifacts_entry (paths.basename dir), "", RemoveReason.artifacts_stale),
  )
  noted_dir-mentions dir (ok ArtifactsSafetyReason.active_run) r = omega (
    arith,
    count-snoc (λ (e : EntryId × ReportReason). is_entry id e.0) r.skipped
        (
          EntryId.artifacts_entry (paths.basename dir),
          ReportReason.artifacts_reason ArtifactsSafetyReason.active_run,
        ),
  )
  noted_dir-mentions dir (ok ArtifactsSafetyReason.retention_not_reached) r = omega (
    arith,
    count-snoc (λ (e : EntryId × ReportReason). is_entry id e.0) r.skipped
        (
          EntryId.artifacts_entry (paths.basename dir),
          ReportReason.artifacts_reason ArtifactsSafetyReason.retention_not_reached,
        ),
  )

  sweep_dirs-mentions :
      (days : ℕ) (dirs : List String) (r : CleanupReport) (h : Host D)
      → mentions id (sweep_dirs paths ports days dirs r h).0 ≡ mentions id r
  unfolding sweep_dirs
  sweep_dirs-mentions days [] r h = refl
  sweep_dirs-mentions days (dir ∷ rest) r h =
      sweep_dirs-mentions days rest _ _ ∙ noted_dir-mentions dir _ r

  sweep_listed-mentions :
      (days : ℕ) (base : String) (dirs : Result String (List String)) (r : CleanupReport)
      (h : Host D)
      → mentions id (sweep_listed paths ports days base dirs r h).0 ≡ mentions id r
  unfolding count
  sweep_listed-mentions days base (err text) r h = omega (
    arith,
    count-snoc (λ (e : EntryId × String). is_entry id e.0) r.errors
        (EntryId.artifacts_entry base, text),
  )
  sweep_listed-mentions days base (ok dirs) r h = sweep_dirs-mentions days dirs r h

  sweep_bases-mentions :
      (days : ℕ) (bases : List String) (r : CleanupReport) (h : Host D)
      → mentions id (sweep_bases paths ports days bases r h).0 ≡ mentions id r
  unfolding sweep_bases
  sweep_bases-mentions days [] r h = refl
  sweep_bases-mentions days (base ∷ rest) r h =
      sweep_bases-mentions days rest _ _
      ∙ sweep_listed-mentions days base (ports.list_artifact_dirs base h.disk) r h

  with_retention-mentions :
      (x : Result String ℕ) (r report : CleanupReport) (h h' : Host D)
      → with_retention paths ports x r h ≡ (ok report, h')
      → mentions id report ≡ mentions id r
  unfolding sweep_artifacts
  with_retention-mentions (err text) r report h h' e =
      let failed : ◌≡◌ {A = Result String CleanupReport} (err text) (ok report) =
        ap (λ (x : Result String CleanupReport × Host D). x.0) e in
      absurd (cc)
  with_retention-mentions (ok days) r report h h' e =
      let answer : ok (sweep_artifacts paths ports days r h).0 ≡ ok report =
        ap (λ (x : Result String CleanupReport × Host D). x.0) e in
      let same : (sweep_artifacts paths ports days r h).0 ≡ report = cc in
      ap (mentions id) (sym same) ∙ sweep_bases-mentions days (list_artifacts_bases paths h) r h

nothing-mentions : (id n : ℕ) → mentions id empty_report + n ≡ n
unfolding count
nothing-mentions id n = omega arith

-- The report of a sweep, scheduled or to make room, names every environment that was active as often as its
-- table does, so once for one id, as removed, skipped or failed, and no other environment.
pub sweep-mentions :
    {D : Type 0} (paths : PathPorts) (ports : DiskPorts D) (every : Bool) (h h' : Host D)
    (report : CleanupReport) (id : ℕ)
    → sweep paths ports every h ≡ (ok report, h')
    → mentions id report ≡ count (λ (e : Environment). is_active e.status && env_has_id id e) h.envs
unfolding sweep list_active_across_projects
sweep-mentions paths ports every h h' report id e =
    let (r, t) = sweep_each paths ports every (list_active_across_projects h) empty_report h in
    with_retention-mentions paths ports id (get_cleanup_artifacts_retention_days t.db) r report t h'
      e
    ∙ sweep_each-mentions paths ports id every (list_active_across_projects h) empty_report h
    ∙ nothing-mentions id _
    ∙ (count-sort_by (λ (x : Environment). x.created_at) (env_has_id id)
          (filter (λ (x : Environment). is_active x.status) h.envs)
        ∙ count-filter (env_has_id id) (λ (x : Environment). is_active x.status) h.envs)
