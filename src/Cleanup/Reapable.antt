-- ===== src/Cleanup/Reapable.antt =====
-- src/core/cleanup/cleanup-service.ts: what may be removed without force.
use fluxaos.Prelude.{
  Splits, find-Splits, find-passes, ==_iff, subst, >>=-eq-ok, ◌≢◌, Bool, ℕ, ◌≡◌, ◌<◌, refl, ap, ◌∙◌,
  String, true, false, ◌*◌, ◌-◌, Option, none, some, find, ltb→lt, Bool-cases, inl, inr, ◌⊎◌,
  Result, ok, err,
}
use fluxaos.Prelude.Actions.{continue_with}
use fluxaos.Store.{Project}
use fluxaos.Executor.Ports.{given}
use fluxaos.Executor.Given.{given-some}
use fluxaos.Isolation.Config.{get_cleanup_stale_days}
use fluxaos.Isolation.Ports.{Environment, is_active, env_has_id, Host, PathPorts, DiskPorts}
use fluxaos.Cleanup.Safety.{
  or_no, SafetyReason, SafetyResult, ms_per_day, project_has_id, open_pr_exists, has_changes,
  is_merged, is_stale, by_age, by_branch, by_project, is_safe_to_remove,
}
use fluxaos.Cleanup.Remove.{if_safe, remove_found, remove_environment}

unsafe_result :
    (reason : SafetyReason) (s : SafetyResult)
    → ◌≡◌ {A = Result String SafetyResult} (ok (record { safe = false; reason = reason })) (ok s)
    → s.safe ≡ true
    → ⊥
unsafe_result reason s e safe =
    let unsafe : SafetyResult = record { safe = false; reason = reason } in
    let same : unsafe ≡ s = cc in
    let no : false ≡ true = ap (λ (x : SafetyResult). x.safe) same ∙ safe in absurd (cc)

or_no-true : (r : Result String Bool) → or_no r ≡ true → r ≡ ok true
or_no-true (err text) h = absurd (cc)
or_no-true (ok b) h = ap ok h

or_no-false : (r : Result String Bool) → or_no r ≡ false → r ≢ ok true
or_no-false (err text) h e = absurd (cc)
or_no-false (ok b) h e = let wrong : b ≡ true = cc in absurd (cc)

module _ {D : Type 0} (ports : DiskPorts D) where
  -- Git says that the branch is merged into the default branch of the environment's project.
  abbrev pub IsMerged : Environment → Host D → Type 0
  IsMerged env h =
      (p : Project) × Splits h.db.projects p
      × (p.id ≡ env.project_id)
      × ((repo_path : String) × (ports.get_canonical_repo_path env.working_path h.disk
            ≡ ok repo_path)
          × (ports.is_branch_merged repo_path env.branch_name p.default_branch h.disk ≡ ok true))

  -- The worktree has no uncommitted change, and the branch is merged, or it has no open pull request and is
  -- older than the configured age.
  abbrev pub IsReapable : Environment → Host D → Type 0
  IsReapable env h =
      (ports.has_uncommitted_changes env.working_path h.disk ≢ ok true)
      × (IsMerged env h
          ⊎ ((open_pr_exists env.branch_name h ≡ false)
              × ((stale_days : ℕ) × (get_cleanup_stale_days h.db ≡ ok stale_days)
                  × (stale_days * ms_per_day < h.db.now - env.created_at))))

  by_age-stale :
      (env : Environment) (h : Host D) (x : Result String ℕ) (s : SafetyResult)
      → get_cleanup_stale_days h.db ≡ x
      → by_age ports env h ≡ ok s
      → s.safe ≡ true
      → (stale_days : ℕ) × (get_cleanup_stale_days h.db ≡ ok stale_days)
        × (stale_days * ms_per_day < h.db.now - env.created_at)
  by_age-stale env h (err text) s read e safe =
      let wrong : err text ≡ ok s = rw read at e in absurd (cc)
  by_age-stale env h (ok days) s read e safe = elim (Bool-cases (is_stale days env h)) [
    | inl t ↦ (days, read, ltb→lt _ _ t)
    | inr t ↦
        let answer : ok (record { safe = false; reason = SafetyReason.active_but_not_stale })
            ≡ ok s =
          rw (read, t) at e in
        absurd (unsafe_result SafetyReason.active_but_not_stale s answer safe)
  ]

  is_merged-IsMerged :
      (env : Environment) (p : Project) (h : Host D)
      → find (project_has_id env.project_id) h.db.projects ≡ some p
      → is_merged ports p.default_branch env h ≡ true
      → IsMerged env h
  is_merged-IsMerged env p h found merged =
      let (repo_path, at, answer) =
        >>=-eq-ok (ports.get_canonical_repo_path env.working_path h.disk)
          (λ canonical. ports.is_branch_merged canonical env.branch_name p.default_branch h.disk)
          (or_no-true _ merged) in
      (
        p,
        find-Splits (project_has_id env.project_id) h.db.projects p found,
        (==_iff p.id env.project_id).0
            (find-passes (project_has_id env.project_id) h.db.projects p found),
        (repo_path, at, answer),
      )

  by_branch-IsReapable :
      (env : Environment) (o : Option String) (h : Host D) (s : SafetyResult)
      → has_changes ports env h ≡ false
      → ((base_branch : String)
          → o ≡ some base_branch
          → is_merged ports base_branch env h ≡ true
          → IsMerged env h)
      → by_branch ports env o h ≡ ok s
      → s.safe ≡ true
      → IsReapable env h
  by_branch-IsReapable env none h s clean is e safe = absurd (cc)
  by_branch-IsReapable env (some base_branch) h s clean is e safe =
      elim (Bool-cases (is_merged ports base_branch env h)) [
        | inl t ↦ (or_no-false _ clean, inl (is base_branch refl t))
        | inr t ↦ elim (Bool-cases (open_pr_exists env.branch_name h)) [
          | inl u ↦
              let answer : ok (record { safe = false; reason = SafetyReason.open_pr }) ≡ ok s =
                rw (t, u) at e in
              absurd (unsafe_result SafetyReason.open_pr s answer safe)
          | inr u ↦ (
            or_no-false _ clean,
            inr (u, by_age-stale env h (get_cleanup_stale_days h.db) s refl (rw (t, u) at e) safe),
          )
        ]
      ]

  by_project-IsReapable :
      (env : Environment) (o : Option Project) (h : Host D) (s : SafetyResult)
      → has_changes ports env h ≡ false
      → find (project_has_id env.project_id) h.db.projects ≡ o
      → by_project ports env o h ≡ ok s
      → s.safe ≡ true
      → IsReapable env h
  by_project-IsReapable env none h s clean found e safe = absurd (cc)
  by_project-IsReapable env (some p) h s clean found e safe =
      by_branch-IsReapable env (given (some p.default_branch)) h s clean
        (λ base_branch is_base merged.
          let named : some p.default_branch ≡ some base_branch =
            (given-some (some p.default_branch) base_branch is_base).0 in
          let same : base_branch ≡ p.default_branch = cc in
          is_merged-IsMerged env p h found
            (subst (λ b. is_merged ports b env h ≡ true) same merged))
        e safe

  is_safe_to_remove-IsReapable :
      (env : Environment) (h : Host D) (s : SafetyResult)
      → is_safe_to_remove ports env h ≡ ok s
      → s.safe ≡ true
      → IsReapable env h
  unfolding is_safe_to_remove
  is_safe_to_remove-IsReapable env h s e safe = elim (Bool-cases (has_changes ports env h)) [
    | inl t ↦
        let answer : ok (record { safe = false; reason = SafetyReason.uncommitted }) ≡ ok s =
          rw t at e in
        absurd (unsafe_result SafetyReason.uncommitted s answer safe)
    | inr t ↦
        by_project-IsReapable env (find (project_has_id env.project_id) h.db.projects) h s t refl
          (rw t at e) safe
  ]

module _ {D : Type 0} (paths : PathPorts) (ports : DiskPorts D) (id : ℕ) (h : Host D) where
  -- The environment that a removal may touch.
  abbrev pub MayRemove : Type 0
  MayRemove =
      (row : Environment) × (find (env_has_id id) h.envs ≡ some row)
      × (is_active row.status ≡ true)
      × IsReapable ports row h

  if_safe-untouched :
      (row : Environment) (s : SafetyResult)
      → (s.safe ≡ true → MayRemove)
      → ((if_safe paths ports row s h).1 ≡ h) ⊎ MayRemove
  if_safe-untouched row s may = elim (Bool-cases s.safe) [
    | inl t ↦ inr (may t)
    | inr t ↦ inl (rw t refl)
  ]

  remove_active-untouched :
      (row : Environment) (x : Result String SafetyResult)
      → ((s : SafetyResult) → x ≡ ok s → s.safe ≡ true → MayRemove)
      → ((continue_with (x, h) (if_safe paths ports row)).1 ≡ h) ⊎ MayRemove
  remove_active-untouched row (err text) may = inl refl
  remove_active-untouched row (ok s) may = if_safe-untouched row s (may s refl)

  remove_found-untouched :
      (o : Option Environment)
      → find (env_has_id id) h.envs ≡ o
      → ((remove_found paths ports false o h).1 ≡ h) ⊎ MayRemove
  remove_found-untouched none found = inl refl
  remove_found-untouched (some row) found = elim (Bool-cases (is_active row.status)) [
    | inl t ↦ rw t (
        remove_active-untouched row (is_safe_to_remove ports row h)
          (λ s e safe. (row, found, t, is_safe_to_remove-IsReapable ports row h s e safe)))
    | inr t ↦ rw t (inl refl)
  ]

-- A removal without force touches nothing, neither rows nor disk, unless the environment is stored, active,
-- without uncommitted changes that git reports, and either its branch is merged into the default branch of its
-- project, or it is older than the configured age and
-- has no open pull request.
pub remove_environment-untouched :
    {D : Type 0} (paths : PathPorts) (ports : DiskPorts D) (id : ℕ) (h : Host D)
    → ((remove_environment paths ports id false h).1 ≡ h) ⊎ MayRemove paths ports id h
unfolding remove_environment
remove_environment-untouched paths ports id h =
    remove_found-untouched paths ports id h (find (env_has_id id) h.envs) refl
