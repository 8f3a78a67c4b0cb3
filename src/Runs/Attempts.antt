-- ===== src/Runs/Attempts.antt =====
-- Stage runs of src/core/orchestrator/pipeline-run-service.ts: attempts are numbered, and a cancellation
-- survives the bookkeeping that follows it.
use fluxaos.Prelude.{
  ℕ, ◌+◌, ◌≡◌, ◌≢◌, refl, ap, Bool, ◌&&◌, not, Option, some, List, [], ◌∷◌, ◌++◌, arith, find,
  find-update, find-passes, count, count-append, update_where, if◌then◌else◌,
}
use fluxaos.Store.{StageRunStatus, is_stage_cancelled, StageRun, Db, stage_run_has_id}
use fluxaos.Runs.Service.{
  is_attempt_of, larger, max_attempt, create_stage_run, StageResults, complete, may_complete,
  complete_stage_run,
}

-- The largest attempt of every run and stage is the number of its stage runs.
abbrev pub IsNumbered : List StageRun → Type 0
IsNumbered srs =
    (run_id stage_id : ℕ)
    → max_attempt run_id stage_id srs ≡ count (is_attempt_of run_id stage_id) srs

pub max_attempt-append :
    (run_id stage_id : ℕ) (srs : List StageRun) (s : StageRun)
    → max_attempt run_id stage_id (srs ++ s ∷ []) ≡ (
        if is_attempt_of run_id stage_id s
        then larger (max_attempt run_id stage_id srs) s.attempt
        else max_attempt run_id stage_id srs)
unfolding max_attempt
max_attempt-append run_id stage_id [] s = ground arith
max_attempt-append run_id stage_id (q ∷ srs) s =
    ground (arith, max_attempt-append run_id stage_id srs s)

-- A write that changes neither keys nor attempts.
pub max_attempt-update :
    (run_id stage_id : ℕ) (p : StageRun → Bool) (f : StageRun → StageRun) (srs : List StageRun)
    → ((s : StageRun)
        → ((f s).attempt ≡ s.attempt)
          × ((f s).pipeline_run_id ≡ s.pipeline_run_id)
          × ((f s).pipeline_stage_id ≡ s.pipeline_stage_id))
    → (max_attempt run_id stage_id (update_where p f srs) ≡ max_attempt run_id stage_id srs)
      × (count (is_attempt_of run_id stage_id) (update_where p f srs)
          ≡ count (is_attempt_of run_id stage_id) srs)
unfolding max_attempt count update_where
max_attempt-update run_id stage_id p f [] h = (refl, refl)
max_attempt-update run_id stage_id p f (s ∷ srs) h =
    let same = h s in
    let ih = max_attempt-update run_id stage_id p f srs h in (ground arith, ground arith)

module _ (run_id stage_id : ℕ) (db : Db) where
  abbrev created : StageRun
  created = (create_stage_run run_id stage_id db).0

  abbrev after : Db
  after = (create_stage_run run_id stage_id db).1

  -- The n-th stage run of a run and a stage is its attempt n, whatever else was created between.
  pub create_stage_run-attempt :
      IsNumbered db.stage_runs
      → (created.attempt ≡ count (is_attempt_of run_id stage_id) db.stage_runs + 1)
        × (created.attempt ≡ count (is_attempt_of run_id stage_id) after.stage_runs)
        × IsNumbered after.stage_runs
  unfolding create_stage_run count
  create_stage_run-attempt h = (
    ap (λ n. n + 1) (h run_id stage_id),
    ground (
      arith,
      count-append (is_attempt_of run_id stage_id) db.stage_runs (created ∷ []),
      h run_id stage_id,
    ),
    λ r q. ground (
      arith,
      count-append (is_attempt_of r q) db.stage_runs (created ∷ []),
      max_attempt-append r q db.stage_runs created,
      h r q,
    ),
  )

abbrev pub stage_row : ℕ → Db → Option StageRun
stage_row id db = find (stage_run_has_id id) db.stage_runs

-- What `completeStageRun` does to two stored rows: the row of the given id is left exactly as it is
-- where it is cancelled and the new status is another one, and is completed otherwise; the other row
-- does not change.
complete_stage_run-row :
    (id other : ℕ) (status : StageRunStatus) (results : StageResults) (db : Db) (s t : StageRun)
    → stage_row id db ≡ some s
    → stage_row other db ≡ some t
    → other ≢ id
    → (stage_row id (complete_stage_run id status results db)
        ≡ some (
            if is_stage_cancelled s.status && not (is_stage_cancelled status)
            then s
            else complete status results db.now s))
      × (stage_row other (complete_stage_run id status results db) ≡ some t)
unfolding complete_stage_run
complete_stage_run-row id other status results db s t hs ht ne =
    let written =
      find-update (stage_run_has_id id) (may_complete id status) (complete status results db.now)
        db.stage_runs s (λ q. refl) hs in
    let beside =
      find-update (stage_run_has_id other) (may_complete id status) (complete status results db.now)
        db.stage_runs t (λ q. refl) ht in
    let key = find-passes (stage_run_has_id id) db.stage_runs s hs in
    let key' = find-passes (stage_run_has_id other) db.stage_runs t ht in
    (ground arith, ground arith)
