-- ===== src/Runner/Completion.antt =====
-- `completeStageRun` as src/core/orchestrator/stage-runner.ts calls it: what it leaves where others may have cancelled
-- the stage run since the check for that.
use fluxaos.Prelude.{
  not, ◌||◌, ◌&&◌, ℕ, ◌≡◌, refl, ◌∙◌, ap, Bool, true, false, String, none, some, List, find,
  find-passes, find-update, find-none-update, arith, Bool-cases, Option-cases, inl, inr, ◌⊎◌, ◌==◌,
  if◌then◌else◌,
}
use fluxaos.Store.{StageRunStatus, StageRun, is_stage_cancelled, Db, stage_run_has_id}
use fluxaos.Runs.Service.{StageResults, complete, may_complete, complete_stage_run}
use fluxaos.Executor.Launch.{was_cancelled}
use fluxaos.Runner.Ports.{RunnerPorts}
use fluxaos.Runner.Execute.{StageRunResult}

-- The stage run, where it is still stored, has the status.
abbrev pub IsAt : StageRunStatus → ℕ → List StageRun → Type 0
IsAt status id rows =
    (find (stage_run_has_id id) rows ≡ none)
    ⊎ ((s : StageRun) × (find (stage_run_has_id id) rows ≡ some s) × (s.status ≡ status))

-- Others have cancelled the stage run after the check whether it was cancelled, before its completion.
abbrev pub CancelledMeanwhile : RunnerPorts → ℕ → Type 0
CancelledMeanwhile ports id =
    (before : Db) × (after : Db) × (was_cancelled id before ≡ false)
    × ((after ≡ ports.meanwhile before)
        ⊎ ((path : String) × (message : String) × (after
              ≡ (ports.commit_all path message before).1)))
    × (was_cancelled id after ≡ true)

-- The stage run has the status, or others have cancelled it before it was completed.
abbrev pub HasEnded : RunnerPorts → StageRunStatus → ℕ → List StageRun → Type 0
HasEnded ports status id rows =
    IsAt status id rows ⊎ (IsAt StageRunStatus.cancelled id rows × CancelledMeanwhile ports id)

-- What a result says of the stage run that it leaves.
abbrev pub IsSettled : RunnerPorts → ℕ → StageRunResult → Db → Type 0
IsSettled ports id r db =
    ((r.skill_signal ≡ some "abort") × (was_cancelled id db ≡ true))
    ⊎ (((r.skill_signal ≡ some "proceed")
          × ((r.exit_code == 0) ≡ true)
          × HasEnded ports StageRunStatus.completed id db.stage_runs)
        ⊎ ((r.skill_signal ≡ none)
            × ((r.exit_code == 0) ≡ false)
            × HasEnded ports StageRunStatus.failed id db.stage_runs))

pub is_stage_cancelled-eq :
    (status : StageRunStatus) → is_stage_cancelled status ≡ true → status ≡ StageRunStatus.cancelled
is_stage_cancelled-eq StageRunStatus.pending e = absurd (cc)
is_stage_cancelled-eq StageRunStatus.launching e = absurd (cc)
is_stage_cancelled-eq StageRunStatus.timed_out e = absurd (cc)
is_stage_cancelled-eq StageRunStatus.running e = absurd (cc)
is_stage_cancelled-eq StageRunStatus.completed e = absurd (cc)
is_stage_cancelled-eq StageRunStatus.failed e = absurd (cc)
is_stage_cancelled-eq StageRunStatus.cancelled e = refl

may_complete-stopped :
    (id : ℕ) (status : StageRunStatus) (s : StageRun)
    → is_stage_cancelled status ≡ false
    → is_stage_cancelled s.status ≡ true
    → may_complete id status s ≡ false
may_complete-stopped id status s other stopped =
    go (is_stage_cancelled status) (s.id == id) (is_stage_cancelled s.status) other stopped
  where
    go : (a b c : Bool) → a ≡ false → c ≡ true → (b && (a || not c)) ≡ false
    go a b c e f = ground arith

may_complete-live :
    (id : ℕ) (status : StageRunStatus) (s : StageRun)
    → (s.id == id) ≡ true
    → is_stage_cancelled s.status ≡ false
    → may_complete id status s ≡ true
may_complete-live id status s same live =
    go (is_stage_cancelled status) (s.id == id) (is_stage_cancelled s.status) same live
  where
    go : (a b c : Bool) → b ≡ true → c ≡ false → (b && (a || not c)) ≡ true
    go a b c e f = ground arith

if_true {ℓ} : {A : Type ℓ} (b : Bool) (x y : A) → b ≡ true → (if b then x else y) ≡ x
if_true b x y e = rw e refl

completed-IsAt :
    (id : ℕ) (status : StageRunStatus) (results : StageResults) (db : Db)
    → was_cancelled id db ≡ false
    → IsAt status id (complete_stage_run id status results db).stage_runs
unfolding complete_stage_run
completed-IsAt id status results db live =
    elim (Option-cases (find (stage_run_has_id id) db.stage_runs)) [
      | inl e ↦ inl (
          find-none-update (stage_run_has_id id) (may_complete id status)
            (complete status results db.now) db.stage_runs (λ x. refl) e)
      | inr (s, e) ↦
          let there =
            find-update (stage_run_has_id id) (may_complete id status)
              (complete status results db.now) db.stage_runs s (λ x. refl) e in
          let same = find-passes (stage_run_has_id id) db.stage_runs s e in
          let not_cancelled : is_stage_cancelled s.status ≡ false = rw (e, was_cancelled) at live in
          inr (
            complete status results db.now s,
            there ∙ ap some (if_true _ _ _ (may_complete-live id status s same not_cancelled)),
            refl,
          )
    ]

if_false {ℓ} : {A : Type ℓ} (b : Bool) (x y : A) → b ≡ false → (if b then x else y) ≡ y
if_false b x y e = rw e refl

stopped-IsAt :
    (id : ℕ) (status : StageRunStatus) (results : StageResults) (db : Db)
    → is_stage_cancelled status ≡ false
    → was_cancelled id db ≡ true
    → IsAt StageRunStatus.cancelled id (complete_stage_run id status results db).stage_runs
unfolding complete_stage_run
stopped-IsAt id status results db other stopped =
    elim (Option-cases (find (stage_run_has_id id) db.stage_runs)) [
      | inl e ↦ inl (
          find-none-update (stage_run_has_id id) (may_complete id status)
            (complete status results db.now) db.stage_runs (λ x. refl) e)
      | inr (s, e) ↦
          let there =
            find-update (stage_run_has_id id) (may_complete id status)
              (complete status results db.now) db.stage_runs s (λ x. refl) e in
          let cancelled : is_stage_cancelled s.status ≡ true = rw (e, was_cancelled) at stopped in
          inr (
            s,
            there ∙ ap some (if_false _ _ _ (may_complete-stopped id status s other cancelled)),
            is_stage_cancelled-eq s.status cancelled,
          )
    ]

-- Completed after others wrote.
pub completed-HasEnded :
    (ports : RunnerPorts) (id : ℕ) (status : StageRunStatus) (results : StageResults)
    (before after : Db)
    → is_stage_cancelled status ≡ false
    → was_cancelled id before ≡ false
    → (after ≡ ports.meanwhile before)
      ⊎ ((path : String) × (message : String) × (after ≡ (ports.commit_all path message before).1))
    → HasEnded ports status id (complete_stage_run id status results after).stage_runs
completed-HasEnded ports id status results before after other live between =
    elim (Bool-cases (was_cancelled id after)) [
      | inl e ↦
          inr (stopped-IsAt id status results after other e, (before, after, live, between, e))
      | inr e ↦ inl (completed-IsAt id status results after e)
    ]
