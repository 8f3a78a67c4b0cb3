-- ===== src/Watcher/Sweep.antt =====
-- src/core/orchestrator/issue-watcher.ts: what a start leaves behind.
use fluxaos.Prelude.{
  find-All, append_assoc, suc, append-nil, ◌⊎◌, ℕ, ◌≡◌, refl, sym, ◌∙◌, ap, subst, Bool, true,
  false, not, ◌||◌, Option, none, some, List, [], ◌∷◌, ◌++◌, find, find-passes, filter,
  filter-All_of, any, is_some, All, arith, Bool-cases, inl, inr, ==_iff, ==_refl, if◌then◌else◌,
  Result, ok, ◌>>=◌, >>=-eq-ok,
}
use fluxaos.Store.{PipelineRun, Project, Issue, Db}
use fluxaos.Runs.Service.{create_run}
use fluxaos.Issues.Lookup.{find_issue}
use fluxaos.Watcher.Dispatch.{
  WatcherError, resolve_open_status_id, is_active_run, has_active_run, project_has_id,
  default_pipeline, if_open, with_pipeline, with_fresh, eligible, clear_to_start, dispatch,
  handle_issue_event, sweep_each, startup_sweep, validate_each, validate_dispatch_config, start,
}

any-append {ℓ} :
    {A : Type ℓ} (p : A → Bool) (xs ys : List A) → any p (xs ++ ys) ≡ (any p xs || any p ys)
unfolding any
any-append p [] ys = refl
any-append p (x ∷ xs) ys = ground (arith, any-append p xs ys)

if_false {ℓ} : {A : Type ℓ} (b : Bool) (x y : A) → b ≡ false → (if b then x else y) ≡ y
if_false b x y e = rw e refl

-- The store `db` after some runs were inserted.
abbrev with_runs : Db → List PipelineRun → ℕ → Db
with_runs db runs n = record db { runs = runs; next_id = n }

module _ (db : Db) (runs : List PipelineRun) (n : ℕ) where
  with_pipeline-with_runs :
      (project_id : ℕ) (fresh : Issue) (o : Option ℕ)
      → with_pipeline project_id fresh o (with_runs db runs n) ≡ with_pipeline project_id fresh o db
  unfolding resolve_open_status_id
  with_pipeline-with_runs project_id fresh none = refl
  with_pipeline-with_runs project_id fresh (some pipeline_id) = refl

  with_fresh-with_runs :
      (project_id : ℕ) (o : Option Issue)
      → with_fresh project_id o (with_runs db runs n) ≡ with_fresh project_id o db
  with_fresh-with_runs project_id none = refl
  with_fresh-with_runs project_id (some fresh) = elim (Bool-cases fresh.is_closed) [
    | inl e ↦ rw e refl
    | inr e ↦ rw e (
        with_pipeline-with_runs project_id fresh
          (default_pipeline (find (project_has_id project_id) db.projects)))
  ]

  eligible-with_runs :
      (issue_id project_id : ℕ)
      → eligible issue_id project_id (with_runs db runs n) ≡ eligible issue_id project_id db
  unfolding eligible
  eligible-with_runs issue_id project_id = with_fresh-with_runs project_id (find_issue issue_id db)

-- A project whose configuration names its open status.
abbrev Resolves : Db → Project → Type 0
Resolves db p = (status_id : ℕ) × (resolve_open_status_id p.id db ≡ ok status_id)

validate_each-Resolves :
    (ps : List Project) (db : Db) → validate_each ps db ≡ ok tt → All (Resolves db) ps
unfolding validate_each
validate_each-Resolves [] db h = tt
validate_each-Resolves (p ∷ ps) db h =
    let (status_id, here, later) = >>=-eq-ok (resolve_open_status_id p.id db) _ h in
    ((status_id, here), validate_each-Resolves ps db later)

module _ (db : Db) (valid : validate_dispatch_config db ≡ ok tt) where
  validated :
      All (λ (p : Project). is_some p.default_pipeline_id ≡ true → Resolves db p) db.projects
  unfolding validate_dispatch_config
  validated = filter-All_of (Resolves db) _ db.projects (validate_each-Resolves _ db valid)

  with_pipeline_total :
      (project_id : ℕ) (fresh : Issue) (p : Option Project)
      → find (project_has_id project_id) db.projects ≡ p
      → (o : Option ℕ) × (with_pipeline project_id fresh (default_pipeline p) db ≡ ok o)
  with_pipeline_total project_id fresh none e = (none, refl)
  with_pipeline_total project_id fresh (some p) e = go p.default_pipeline_id refl
    where
      go :
          (d : Option ℕ)
          → p.default_pipeline_id ≡ d
          → (o : Option ℕ) × (with_pipeline project_id fresh d db ≡ ok o)
      go none f = (none, refl)
      go (some pipeline_id) f =
          let same =
            (==_iff p.id project_id).0 (find-passes (project_has_id project_id) db.projects p e) in
          let (status_id, resolves) =
            find-All _ (project_has_id project_id) db.projects p validated e (ap is_some f) in
          let at_project = subst (λ i. resolve_open_status_id i db ≡ ok status_id) same resolves in
          (if_open pipeline_id fresh.status_id status_id, rw at_project refl)

  -- After the validation the guards throw nothing.
  eligible_total :
      (issue_id project_id : ℕ) → (o : Option ℕ) × (eligible issue_id project_id db ≡ ok o)
  unfolding eligible
  eligible_total issue_id project_id = go (find_issue issue_id db)
    where
      go : (i : Option Issue) → (o : Option ℕ) × (with_fresh project_id i db ≡ ok o)
      go none = (none, refl)
      go (some fresh) = elim (Bool-cases fresh.is_closed) [
        | inl e ↦ (none, rw e refl)
        | inr e ↦
            let (o, f) = with_pipeline_total project_id fresh _ refl in
            (o, if_false fresh.is_closed _ _ e ∙ f)
      ]

  -- One event of the sweep, at a store that has more runs: it starts what is eligible.
  dispatch_started :
      (issue_id project_id : ℕ) (runs : List PipelineRun) (n : ℕ)
      → (more : List PipelineRun) × (n' : ℕ) × (dispatch issue_id project_id (with_runs db runs n)
          ≡ ok (with_runs db (runs ++ more) n'))
        × ((eligible issue_id project_id db ≡ ok none)
            ⊎ (any (is_active_run issue_id) (runs ++ more) ≡ true))
  unfolding dispatch clear_to_start has_active_run create_run any
  dispatch_started issue_id project_id runs n =
      let (o, e) = eligible_total issue_id project_id in
      go o (eligible-with_runs db runs n issue_id project_id ∙ e) e
    where
      go :
          (o : Option ℕ)
          → eligible issue_id project_id (with_runs db runs n) ≡ ok o
          → eligible issue_id project_id db ≡ ok o
          → (more : List PipelineRun) × (n' : ℕ) × (dispatch issue_id project_id
                (with_runs db runs n)
              ≡ ok (with_runs db (runs ++ more) n'))
            × ((eligible issue_id project_id db ≡ ok none)
                ⊎ (any (is_active_run issue_id) (runs ++ more) ≡ true))
      go none e began = ([], n, rw (e, append-nil) refl, inl began)
      go (some pipeline_id) e began = elim (Bool-cases (any (is_active_run issue_id) runs)) [
        | inl active ↦ ([], n, rw (e, active, append-nil) refl, inr (rw append-nil active))
        | inr idle ↦
            let made = (create_run pipeline_id issue_id (with_runs db runs n)).0 ∷ [] in
            (
              made,
              suc n,
              rw (e, idle) refl,
              inr (
                  any-append (is_active_run issue_id) runs made ∙ rw (idle, ==_refl issue_id) refl),
            )
      ]

  -- What the sweep has done for an issue by the time the runs are `runs`.
  abbrev IsCovered : List PipelineRun → Issue → Type 0
  IsCovered runs i =
      (eligible i.id i.project_id db ≡ ok none) ⊎ (any (is_active_run i.id) runs ≡ true)

  IsCovered-append :
      (runs more : List PipelineRun) (i : Issue) → IsCovered runs i → IsCovered (runs ++ more) i
  IsCovered-append runs more i (inl e) = inl e
  IsCovered-append runs more i (inr e) =
      inr (any-append (is_active_run i.id) runs more ∙ ground arith)

  visited :
      (i : Issue) (runs : List PipelineRun) (n : ℕ)
      → ((id : ℕ) → has_active_run id db ≡ true → any (is_active_run id) runs ≡ true)
      → (more : List PipelineRun) × (n' : ℕ) × ((if has_active_run i.id db
            then ok (with_runs db runs n)
            else handle_issue_event [] i.id i.project_id (with_runs db runs n))
          ≡ ok (with_runs db (runs ++ more) n'))
        × IsCovered (runs ++ more) i
  unfolding handle_issue_event any
  visited i runs n kept = elim (Bool-cases (has_active_run i.id db)) [
    | inl active ↦ ([], n, rw (active, append-nil) refl, inr (rw append-nil (kept i.id active)))
    | inr idle ↦
        let (more, n', done, covered) = dispatch_started i.id i.project_id runs n in
        (more, n', if_false (has_active_run i.id db) _ _ idle ∙ done, covered)
  ]

  sweep_each-covers :
      (rows : List Issue) (runs : List PipelineRun) (n : ℕ)
      → ((id : ℕ) → has_active_run id db ≡ true → any (is_active_run id) runs ≡ true)
      → (more : List PipelineRun) × (n' : ℕ) × (sweep_each [] db rows (with_runs db runs n)
          ≡ ok (with_runs db (runs ++ more) n'))
        × All (IsCovered (runs ++ more)) rows
  unfolding sweep_each
  sweep_each-covers [] runs n kept = ([], n, rw append-nil refl, tt)
  sweep_each-covers (i ∷ rows) runs n kept =
      let (more, n', done, covered) = visited i runs n kept in
      let (rest, n'', later, all) = sweep_each-covers rows (runs ++ more) n' (λ id active.
        any-append (is_active_run id) runs more
        ∙ ap (λ b. b || any (is_active_run id) more) (kept id active)) in
      (
        more ++ rest,
        n'',
        rw (← append_assoc) (ap (λ r. r >>= sweep_each [] db rows) done ∙ later),
        subst (λ l. All (IsCovered l) (i ∷ rows)) (append_assoc runs more rest)
            (IsCovered-append (runs ++ more) rest i covered, all),
      )

eligible-is_open :
    (db : Db) (i : Issue) (pipeline_id : ℕ)
    → find_issue i.id db ≡ some i
    → eligible i.id i.project_id db ≡ ok (some pipeline_id)
    → not i.is_closed ≡ true
unfolding eligible
eligible-is_open db i pipeline_id found clear = elim (Bool-cases i.is_closed) [
  | inl e ↦
      let closed : (let r : Result WatcherError (Option ℕ) = ok none in r) ≡ ok (some pipeline_id) =
        sym (ap (λ o. with_fresh i.project_id o db) found ∙ rw e refl) ∙ clear in
      absurd (cc)
  | inr e ↦ rw e refl
]

-- A start whose validation succeeds sweeps to its end, and afterwards every stored issue that is open, in
-- the open status of a project with a default pipeline, has a run that has not ended; the sweep changes
-- nothing but the runs, and takes none away.
pub start-covers :
    (db : Db) (i : Issue) (pipeline_id : ℕ)
    → validate_dispatch_config db ≡ ok tt
    → find_issue i.id db ≡ some i
    → eligible i.id i.project_id db ≡ ok (some pipeline_id)
    → (more : List PipelineRun) × (n : ℕ) × (start false [] db
        ≡ ok (record db { runs = db.runs ++ more; next_id = n }))
      × (any (is_active_run i.id) (db.runs ++ more) ≡ true)
unfolding start startup_sweep
start-covers db i pipeline_id valid found clear =
    let (more, n, done, all) =
      sweep_each-covers db valid (filter (λ (j : Issue). not j.is_closed) db.issues) db.runs
        db.next_id (λ id active. active) in
    let covered =
      find-All _ _ db.issues i
        (filter-All_of (IsCovered db valid (db.runs ++ more)) _ db.issues all) found in
    (
      more,
      n,
      rw valid done,
      elim (covered (eligible-is_open db i pipeline_id found clear)) [
        | inl e ↦ absurd (cc (e, clear))
        | inr e ↦ e
      ],
    )
