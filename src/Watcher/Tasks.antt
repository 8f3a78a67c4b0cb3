-- ===== src/Watcher/Tasks.antt =====
-- src/core/orchestrator/issue-watcher.ts: events are handled at once, and each handler stops at its
-- queries, where the others go on. `inFlight` holds the issues of the handlers that have begun.
use fluxaos.Prelude.{
  ◌>>=◌, ◌⊎◌, ℕ, ◌+◌, ◌≤◌, ◌≡◌, refl, ◌∙◌, subst, Bool, true, false, ◌&&◌, Option, none, some, List,
  [], ◌∷◌, ◌++◌, map, any, count, count-append, arith, Bool-cases, inl, inr, ◌==◌, ==_iff,
  if◌then◌else◌, Result, ok, err,
}
use fluxaos.Store.{Db}
use fluxaos.Runs.Service.{create_run}
use fluxaos.Watcher.Dispatch.{
  WatcherError, is_active_run, has_active_run, clear_to_start, unless_active, eligible,
  is_in_flight,
}

-- A handler before its guards have passed, and after: then it inserts a run of the pipeline.
pub data Phase : Type 0 where
  guarded : Phase
  cleared : (pipeline_id : ℕ) → Phase

pub record Task : Type 0 where
  pub issue_id : ℕ
  pub project_id : ℕ
  pub phase : Phase

pub record System : Type 0 where
  pub db : Db
  pub tasks : List Task

abbrev pub in_flight : List Task → List ℕ
in_flight tasks = map (λ (t : Task). t.issue_id) tasks

abbrev pub active_runs : ℕ → Db → ℕ
active_runs issue_id db = count (is_active_run issue_id) db.runs

-- `after_guards` is a handler after its last query: it goes on to the insertion, or is done.
abbrev pub after_guards : Task → Result WatcherError (Option ℕ) → List Task
after_guards t (ok (some pipeline_id)) = record t { phase = cleared pipeline_id } ∷ []
after_guards t (ok none) = []
after_guards t (err e) = []

-- `elsewhere` is any write of others that starts no run for an issue.
pub data Step : System → System → Type 0 where
  began :
      (db : Db) (tasks : List Task) (issue_id project_id : ℕ)
      → is_in_flight issue_id (in_flight tasks) ≡ false
      → Step
          (record { db = db; tasks = tasks })
          (record {
            db = db;
            tasks =
                record { issue_id = issue_id; project_id = project_id; phase = guarded } ∷ tasks;
          })
  checked :
      (db seen : Db) (before after : List Task) (t : Task)
      → t.phase ≡ guarded
      → Step
          (record { db = db; tasks = before ++ (t ∷ after) })
          (record {
            db = db;
            tasks =
                before
                ++ (after_guards t (clear_to_start t.issue_id t.project_id seen db) ++ after);
          })
  inserted :
      (db : Db) (before after : List Task) (t : Task) (pipeline_id : ℕ)
      → t.phase ≡ cleared pipeline_id
      → Step
          (record { db = db; tasks = before ++ (t ∷ after) })
          (record { db = (create_run pipeline_id t.issue_id db).1; tasks = before ++ after })
  elsewhere :
      (db db' : Db) (tasks : List Task)
      → ((issue_id : ℕ) → active_runs issue_id db' ≤ active_runs issue_id db)
      → Step (record { db = db; tasks = tasks }) (record { db = db'; tasks = tasks })

pub data Reach (s : System) : System → Type 0 where
  here : Reach s s
  next : {t u : System} → Reach s t → Step t u → Reach s u

abbrev pub is_for : ℕ → Task → Bool
is_for issue_id t = t.issue_id == issue_id

abbrev has_cleared : Phase → Bool
has_cleared guarded = false
has_cleared (cleared pipeline_id) = true

abbrev will_insert : ℕ → Task → Bool
will_insert issue_id t = t.issue_id == issue_id && has_cleared t.phase

-- For an issue: one handler at most, and one active run at most, with the one that is about to be inserted.
pub record IsSingle (issue_id : ℕ) (s : System) : Type 0 where
  pub one_task : count (is_for issue_id) s.tasks ≤ 1
  pub one_run : active_runs issue_id s.db + count (will_insert issue_id) s.tasks ≤ 1

count-middle {ℓ} :
    {A : Type ℓ} (p : A → Bool) (before xs after : List A)
    → count p (before ++ (xs ++ after)) ≡ count p before + count p xs + count p after
count-middle p before xs after =
    omega (arith, count-append p before (xs ++ after), count-append p xs after)

not_in_flight :
    (issue_id : ℕ) (tasks : List Task)
    → is_in_flight issue_id (in_flight tasks) ≡ false
    → count (is_for issue_id) tasks ≡ 0
unfolding any count
not_in_flight issue_id [] h = refl
not_in_flight issue_id (t ∷ tasks) h = ground (arith, not_in_flight issue_id tasks)

idle-count {ℓ} : {A : Type ℓ} (p : A → Bool) (xs : List A) → any p xs ≡ false → count p xs ≡ 0
unfolding any count
idle-count p [] h = refl
idle-count p (x ∷ xs) h = ground (arith, idle-count p xs)

will_insert-le :
    (issue_id : ℕ) (tasks : List Task)
    → count (will_insert issue_id) tasks ≤ count (is_for issue_id) tasks
unfolding count
will_insert-le issue_id [] = omega arith
will_insert-le issue_id (t ∷ tasks) = ground (arith, will_insert-le issue_id tasks)

unless_active-idle :
    (issue_id pipeline_id : ℕ) (o : Option ℕ) (db : Db)
    → unless_active issue_id o db ≡ some pipeline_id
    → has_active_run issue_id db ≡ false
unless_active-idle issue_id pipeline_id none db h = absurd (cc)
unless_active-idle issue_id pipeline_id (some q) db h = ground arith

clear_to_start-idle :
    (issue_id project_id pipeline_id : ℕ) (seen db : Db)
    → clear_to_start issue_id project_id seen db ≡ ok (some pipeline_id)
    → active_runs issue_id db ≡ 0
unfolding clear_to_start has_active_run
clear_to_start-idle issue_id project_id pipeline_id seen db h =
    go (eligible issue_id project_id seen) h
  where
    go :
        (r : Result WatcherError (Option ℕ))
        → (r >>= λ o. ok (unless_active issue_id o db)) ≡ ok (some pipeline_id)
        → active_runs issue_id db ≡ 0
    go (err e) h = absurd (cc)
    go (ok o) h =
        let same : unless_active issue_id o db ≡ some pipeline_id = cc in
        idle-count (is_active_run issue_id) db.runs
          (unless_active-idle issue_id pipeline_id o db same)

module _ (issue_id : ℕ) where
  abbrev mine : List Task → ℕ
  mine tasks = count (is_for issue_id) tasks

  abbrev inserting : List Task → ℕ
  inserting tasks = count (will_insert issue_id) tasks

  -- What the guards of a handler leave of it.
  checked-counts :
      (t : Task) (db : Db) (r : Result WatcherError (Option ℕ))
      → ((pipeline_id : ℕ) → r ≡ ok (some pipeline_id) → active_runs t.issue_id db ≡ 0)
      → (mine (after_guards t r) ≤ mine (t ∷ []))
        × ((inserting (after_guards t r) ≡ 0)
            ⊎ ((inserting (after_guards t r) ≡ 1)
                × (mine (t ∷ []) ≡ 1)
                × (active_runs issue_id db ≡ 0)))
  unfolding count
  checked-counts t db (err e) idle = (ground arith, inl refl)
  checked-counts t db (ok none) idle = (ground arith, inl refl)
  checked-counts t db (ok (some pipeline_id)) idle = elim (Bool-cases (t.issue_id == issue_id)) [
    | inl e ↦
        let same = (==_iff t.issue_id issue_id).0 e in
        (
          omega arith,
          inr (
            ground arith,
            ground arith,
            subst (λ i. active_runs i db ≡ 0) same (idle pipeline_id refl),
          ),
        )
    | inr e ↦ (omega arith, inl (ground arith))
  ]

  created-active :
      (pipeline_id of : ℕ) (db : Db)
      → active_runs issue_id (create_run pipeline_id of db).1
        ≡ active_runs issue_id db + (if of == issue_id then 1 else 0)
  unfolding create_run count
  created-active pipeline_id of db = count-append (is_active_run issue_id) db.runs _ ∙ ground arith

  Step-IsSingle : {s s' : System} → Step s s' → IsSingle issue_id s → IsSingle issue_id s'
  unfolding count
  Step-IsSingle (began db tasks i project_id fresh) single = elim (Bool-cases (i == issue_id)) [
    | inl e ↦
        let same = (==_iff i issue_id).0 e in
        let none_yet = subst (λ j. count (is_for j) tasks ≡ 0) same (not_in_flight i tasks fresh) in
        record { one_task = ground (arith, none_yet); one_run = ground (arith, single.one_run) }
    | inr e ↦ record {
      one_task = ground (arith, single.one_task);
      one_run = ground (arith, single.one_run);
    }
  ]
  Step-IsSingle (checked db seen before after t phase) single =
      let r = clear_to_start t.issue_id t.project_id seen db in
      let (fewer, inserts) =
        checked-counts t db r (λ q e. clear_to_start-idle t.issue_id t.project_id q seen db e) in
      let tasks = count-middle (is_for issue_id) before (t ∷ []) after in
      let tasks' = count-middle (is_for issue_id) before (after_guards t r) after in
      let runs = count-middle (will_insert issue_id) before (t ∷ []) after in
      let runs' = count-middle (will_insert issue_id) before (after_guards t r) after in
      record {
        one_task = omega (arith, tasks, tasks', single.one_task, fewer);
        one_run = elim inserts [
          | inl nothing ↦ omega (arith, runs, runs', nothing, single.one_run)
          | inr (one, is_mine, idle) ↦ omega (
            arith,
            runs',
            one,
            is_mine,
            idle,
            tasks,
            single.one_task,
            will_insert-le issue_id before,
            will_insert-le issue_id after,
          )
        ];
      }
  Step-IsSingle (inserted db before after t pipeline_id phase) single =
      let tasks = count-middle (is_for issue_id) before (t ∷ []) after in
      let runs = count-middle (will_insert issue_id) before (t ∷ []) after in
      let is_mine : inserting (t ∷ []) ≡ (if t.issue_id == issue_id then 1 else 0) =
        rw phase (ground arith) in
      record {
        one_task =
            omega (arith, tasks, count-append (is_for issue_id) before after, single.one_task);
        one_run = omega (
          arith,
          runs,
          count-append (will_insert issue_id) before after,
          single.one_run,
          is_mine,
          created-active pipeline_id t.issue_id db,
        );
      }
  Step-IsSingle (elsewhere db db' tasks fewer) single = record {
    one_task = single.one_task;
    one_run = omega (arith, fewer issue_id, single.one_run);
  }

-- Where every issue has one active run at most when the watcher starts, and nobody else starts runs, no
-- interleaving of its handlers gives an issue a second active run, or a second handler at a time.
pub Reach-IsSingle :
    {s : System} (db : Db) (issue_id : ℕ)
    → active_runs issue_id db ≤ 1
    → Reach (record { db = db; tasks = [] }) s
    → (active_runs issue_id s.db ≤ 1) × (count (is_for issue_id) s.tasks ≤ 1)
unfolding count
Reach-IsSingle db issue_id start reach = (omega (arith, (go reach).one_run), (go reach).one_task)
  where
    go : {s : System} → Reach (record { db = db; tasks = [] }) s → IsSingle issue_id s
    go here = record { one_task = omega arith; one_run = omega arith }
    go (next r step) = Step-IsSingle issue_id step (go r)
