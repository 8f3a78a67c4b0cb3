-- ===== src/Cleanup/Closed.antt =====
-- `onPrClosed` of src/core/cleanup/cleanup-service.ts: which environments the closing of a pull request touches.
use fluxaos.Prelude.{
  filter-All_from, str_eq, and_true, eq_iff, All-map, String, ℕ, ◌≡◌, refl, sym, ap, ◌∙◌, arith,
  Bool, true, false, ◌==◌, ==_iff, Option, none, some, List, [], ◌∷◌, All, find, find-passes,
  filter, update_where, Bool-cases, inl, inr, Result, ok, err,
}
use fluxaos.Prelude.Actions.{Preserves, reading-Preserves, done-Preserves, >>=-Preserves}
use fluxaos.Executor.Ports.{given}
use fluxaos.Isolation.Ports.{
  Environment, is_active, env_has_id, PullRequestRow, Host, PathPorts, DiskPorts,
}
use fluxaos.Isolation.Provider.{on_disk, set_inactive, deactivate}
use fluxaos.Isolation.Released.{release-Preserves}
use fluxaos.Cleanup.Safety.{SafetyResult, is_safe_to_remove}
use fluxaos.Cleanup.Remove.{
  warned, force_remove_path, force_remove_artifacts_dir, artifacts_if_forced, released, if_safe,
  remove_active, remove_found, remove_environment, remove_each, on_branch, close_each, is_pr,
  on_pr_closed,
}

-- The rows of environments with an id.
abbrev pub rows_of : {D : Type 0} → ℕ → Host D → List Environment
rows_of k h = filter (env_has_id k) h.envs

filter-update :
    (k id now : ℕ) (es : List Environment)
    → (k == id) ≡ false
    → filter (env_has_id k) (update_where (env_has_id id) (deactivate now) es)
      ≡ filter (env_has_id k) es
unfolding filter update_where
filter-update k id now [] apart = refl
filter-update k id now (e ∷ es) apart = elim (Bool-cases (e.id == k)) [
  | inl t ↦
      let same : e.id ≡ k = (==_iff e.id k).0 t in
      let other : (e.id == id) ≡ false = rw same apart in
      rw other (rw t (ap (λ l. e ∷ l) (filter-update k id now es apart)))
  | inr t ↦ elim (Bool-cases (e.id == id)) [
    | inl u ↦ rw u (rw t (filter-update k id now es apart))
    | inr u ↦ rw u (rw t (filter-update k id now es apart))
  ]
]

rows-blind :
    {D : Type 0} (k : ℕ) (h : Host D) (disk : D)
    → rows_of k (record h { disk = disk }) ≡ rows_of k h
rows-blind k h disk = refl

warned-state : {D : Type 0} (r : Result String (Unit {0}) × Host D) → (warned r).1 ≡ r.1
warned-state (err text, h) = refl
warned-state (ok removed, h) = refl

-- No row is an active one on the branch.
abbrev pub IsOff : String → List Environment → Type 0
IsOff branch_name rows =
    All (λ (e : Environment). e.branch_name ≡ branch_name → is_active e.status ≡ false) rows

off-false :
    (branch_name : String) (e : Environment)
    → (e.branch_name ≡ branch_name → is_active e.status ≡ false)
    → on_branch branch_name e ≡ true
    → ⊥
off-false branch_name e off h =
    let (named, active) = and_true (str_eq e.branch_name branch_name) (is_active e.status) h in
    let idle = off ((eq_iff e.branch_name branch_name).0 named) in
    let wrong : true ≡ false = sym active ∙ idle in absurd (cc)

-- Nothing that is done to another environment changes the rows with the id `k`.
module _ {D : Type 0} (paths : PathPorts) (ports : DiskPorts D) (k : ℕ) where
  force_remove_path-Preserves :
      (path : Option String) → Preserves (rows_of k) (force_remove_path paths ports path)
  force_remove_path-Preserves none = record { preserved = λ h. refl }
  force_remove_path-Preserves (some path) = record {
    preserved = λ h. ap (rows_of k) (warned-state (on_disk (ports.remove_artifacts_dir path) h));
  }

  artifacts_if_forced-Preserves :
      (force : Bool) (row : Environment)
      → Preserves (rows_of k) (artifacts_if_forced paths ports force row)
  unfolding force_remove_artifacts_dir
  artifacts_if_forced-Preserves false row = done-Preserves (rows_of k) []
  artifacts_if_forced-Preserves true row = force_remove_path-Preserves (given row.artifacts_path)

  set_inactive-Preserves :
      (id : ℕ) → (k == id) ≡ false → Preserves (rows_of k) (set_inactive paths ports id)
  set_inactive-Preserves id apart = record {
    preserved = λ h. filter-update k id h.db.now h.envs apart;
  }

  module _ (id : ℕ) (apart : (k == id) ≡ false) where
    other_row :
        (row : Environment)
        → (row.id == id) ≡ true
        → Preserves (rows_of k) (set_inactive paths ports row.id)
    other_row row same =
        let e : row.id ≡ id = (==_iff row.id id).0 same in
        set_inactive-Preserves row.id (rw e apart)

    released-Preserves :
        (force : Bool) (row : Environment)
        → (row.id == id) ≡ true
        → Preserves (rows_of k) (released paths ports force row)
    released-Preserves force row same =
        let e : row.id ≡ id = (==_iff row.id id).0 same in
        >>=-Preserves (rows_of k) _ _
          (release-Preserves (rows_of k) (rows-blind k) paths ports row.id force
            (λ r is_row. other_row r (rw e at is_row)))
          (λ gone.
            >>=-Preserves (rows_of k) _ _ (artifacts_if_forced-Preserves force row)
              (λ warnings. done-Preserves (rows_of k) _))

    if_safe-Preserves :
        (row : Environment) (safety : SafetyResult)
        → (row.id == id) ≡ true
        → Preserves (rows_of k) (if_safe paths ports row safety)
    if_safe-Preserves row safety same = elim (Bool-cases safety.safe) [
      | inl t ↦ rw t (released-Preserves false row same)
      | inr t ↦ rw t (done-Preserves (rows_of k) _)
    ]

    remove_active-Preserves :
        (force : Bool) (row : Environment)
        → (row.id == id) ≡ true
        → Preserves (rows_of k) (remove_active paths ports force row)
    remove_active-Preserves true row same = released-Preserves true row same
    remove_active-Preserves false row same =
        >>=-Preserves (rows_of k) _ _ (reading-Preserves (rows_of k) (is_safe_to_remove ports row))
          (λ safety. if_safe-Preserves row safety same)

    remove_found-Preserves :
        (force : Bool) (o : Option Environment)
        → ((row : Environment) → o ≡ some row → (row.id == id) ≡ true)
        → Preserves (rows_of k) (remove_found paths ports force o)
    remove_found-Preserves force none keyed = done-Preserves (rows_of k) _
    remove_found-Preserves force (some row) keyed = elim (Bool-cases (is_active row.status)) [
      | inl t ↦ rw t (remove_active-Preserves force row (keyed row refl))
      | inr t ↦ rw t (done-Preserves (rows_of k) _)
    ]

    remove_environment-Preserves :
        (force : Bool) → Preserves (rows_of k) (remove_environment paths ports id force)
    unfolding remove_environment
    remove_environment-Preserves force = record {
      preserved = λ h.
          (remove_found-Preserves force (find (env_has_id id) h.envs)
              (λ row e. find-passes (env_has_id id) h.envs row e)).preserved
            h;
    }

  remove_each-keeps :
      (force : Bool) (envs : List Environment) (h : Host D)
      → All (λ (e : Environment). (k == e.id) ≡ false) envs
      → rows_of k (remove_each paths ports force envs h) ≡ rows_of k h
  unfolding remove_each
  remove_each-keeps force [] h apart = refl
  remove_each-keeps force (env ∷ rest) h apart =
      remove_each-keeps force rest (remove_environment paths ports env.id force h).1 apart.1
      ∙ (remove_environment-Preserves env.id apart.0 force).preserved h

  off-apart :
      (branch_name : String) (es : List Environment)
      → IsOff branch_name (filter (env_has_id k) es)
      → All (λ (e : Environment). (k == e.id) ≡ false) (filter (on_branch branch_name) es)
  unfolding filter
  off-apart branch_name [] off = tt
  off-apart branch_name (e ∷ es) off = elim (Bool-cases (on_branch branch_name e)) [
    | inl t ↦ elim (Bool-cases (e.id == k)) [
      | inl same ↦
          let here : IsOff branch_name (e ∷ filter (env_has_id k) es) = rw same at off in
          absurd (off-false branch_name e here.0 t)
      | inr apart ↦
          let other : (k == e.id) ≡ false = ground (arith, apart) in
          rw t (other, off-apart branch_name es (rw apart at off))
    ]
    | inr t ↦ elim (Bool-cases (e.id == k)) [
      | inl same ↦
          let here : IsOff branch_name (e ∷ filter (env_has_id k) es) = rw same at off in
          rw t (off-apart branch_name es here.1)
      | inr apart ↦ rw t (off-apart branch_name es (rw apart at off))
    ]
  ]

  close_each-keeps :
      (was_merged : Bool) (prs : List PullRequestRow) (h : Host D)
      → All (λ (pr : PullRequestRow). IsOff pr.head_branch (rows_of k h)) prs
      → rows_of k (close_each paths ports was_merged prs h) ≡ rows_of k h
  unfolding close_each
  close_each-keeps was_merged [] h off = refl
  close_each-keeps was_merged (pr ∷ prs) h off =
      let kept =
        remove_each-keeps was_merged (filter (on_branch pr.head_branch) h.envs) h
          (off-apart pr.head_branch h.envs off.0) in
      close_each-keeps was_merged prs _ (rw kept off.1) ∙ kept

  -- The closing of a pull request leaves the rows of an environment as they are, unless one of them is
  -- active on the head branch of a stored pull request with that number and repository.
  pub on_pr_closed-untouched :
      (pr_number : ℕ) (repo : String) (was_merged : Bool) (h : Host D)
      → All
          (λ (pr : PullRequestRow).
            pr.pr_number ≡ pr_number → pr.repo ≡ repo → IsOff pr.head_branch (rows_of k h))
          h.pull_requests
      → rows_of k (on_pr_closed paths ports pr_number repo was_merged h) ≡ rows_of k h
  unfolding on_pr_closed
  on_pr_closed-untouched pr_number repo was_merged h off =
      close_each-keeps was_merged (filter (is_pr pr_number repo) h.pull_requests) h (
        filter-All_from (λ (pr : PullRequestRow). IsOff pr.head_branch (rows_of k h))
          (is_pr pr_number repo) h.pull_requests
          (All-map _ _ h.pull_requests
            (λ (pr : PullRequestRow)
                (is_off : pr.pr_number ≡ pr_number
                  → pr.repo ≡ repo
                  → IsOff pr.head_branch (rows_of k h))
                (h : is_pr pr_number repo pr ≡ true).
              let (number, same) = and_true (pr.pr_number == pr_number) (str_eq pr.repo repo) h in
              is_off ((==_iff pr.pr_number pr_number).0 number) ((eq_iff pr.repo repo).0 same))
            off))
