-- ===== src/Control/Cancelled.antt =====
-- src/server/routers/pipeline.ts: what a cancelled run looks like.
use fluxaos.Prelude.{
  All-update, count-found, and_true, ℕ, ◌≡◌, ◌≤◌, refl, sym, ap, ◌∙◌, subst, Bool, true, false,
  ◌&&◌, not, ◌==◌, ==_iff, ==_refl, Option, some, List, [], ◌∷◌, All, All-map, All-Splits, Splits,
  find, find-written, filter, count, count-filter, count-sort_by, sort_by, Bool-cases, inl, inr,
  arith, Result, ok, err,
}
use fluxaos.Store.{PipelineRunStatus, StageRunStatus, PipelineRun, StageRun, Db, run_has_id}
use fluxaos.Runs.Service.{
  get_stage_runs, complete, may_complete, complete_stage_run, complete_run, finish, sum_costs,
  append_event,
}
use fluxaos.Executor.Launch.{no_results}
use fluxaos.Control.Access.{Members, RouterError, assert_run_ownership}
use fluxaos.Control.Mutations.{
  is_stage_terminal, Signal, MutationResult, once_signalled, terminate_stage_process,
  mark_cancelled, cancel_each, when_granted, cancel,
}

abbrev is_pending : ℕ → StageRun → Bool
is_pending run_id s = s.pipeline_run_id == run_id && not (is_stage_terminal s.status)

abbrev is_target : ℕ → StageRun → Bool
is_target id t = t.id == id && not (is_stage_terminal t.status)

-- Every stage run of the run that has not run_ended is still in the list.
abbrev Covers : ℕ → List StageRun → List StageRun → Type 0
Covers run_id rest rows =
    All (λ s. is_pending run_id s ≡ true → 1 ≤ count (is_target s.id) rest) rows

abbrev pub HasEnded : ℕ → StageRun → Type 0
HasEnded run_id s = (s.pipeline_run_id == run_id) ≡ true → is_stage_terminal s.status ≡ true

-- No stage run of the run is left that has not ended, and the run, where it is stored, is cancelled.
abbrev pub IsCancelled : ℕ → Db → Type 0
IsCancelled run_id db =
    All (HasEnded run_id) db.stage_runs
    × ((run : PipelineRun)
        → find (run_has_id run_id) db.runs ≡ some run
        → run.status ≡ PipelineRunStatus.cancelled)

module _ (run_id : ℕ) where
  started-Covers : (db : Db) → Covers run_id (get_stage_runs run_id db) db.stage_runs
  unfolding get_stage_runs
  started-Covers db =
      All-map (Splits db.stage_runs) _ db.stage_runs covered (All-Splits db.stage_runs)
    where
      of_run : StageRun → Bool
      of_run t = t.pipeline_run_id == run_id

      covered :
          (s : StageRun)
          → Splits db.stage_runs s
          → is_pending run_id s ≡ true
          → 1
            ≤ count
                (is_target s.id)
                (sort_by (λ (t : StageRun). t.created_at) (filter of_run db.stage_runs))
      covered s (before, after, e) h =
          let both = and_true (s.pipeline_run_id == run_id) (not (is_stage_terminal s.status)) h in
          let itself : (s.id == s.id) ≡ true = ==_refl s.id in
          let mine : (of_run s && is_target s.id s) ≡ true =
            ground (arith, both.0, both.1, itself) in
          let here = count-found (λ t. of_run t && is_target s.id t) before after s mine in
          let there : 1 ≤ count (λ t. of_run t && is_target s.id t) db.stage_runs =
            subst (λ l. 1 ≤ count (λ t. of_run t && is_target s.id t) l) (sym e) here in
          let same =
            count-sort_by (λ (t : StageRun). t.created_at) (is_target s.id)
              (filter of_run db.stage_runs)
            ∙ count-filter (is_target s.id) of_run db.stage_runs in
          ground (arith, same, there)

  skipped-Covers :
      (t : StageRun) (rest rows : List StageRun)
      → is_stage_terminal t.status ≡ true
      → Covers run_id (t ∷ rest) rows
      → Covers run_id rest rows
  unfolding count
  skipped-Covers t rest rows over =
      All-map (λ s. is_pending run_id s ≡ true → 1 ≤ count (is_target s.id) (t ∷ rest)) _ rows
        (λ s h pending. let found = h pending in ground (arith, found, over))

  untouched :
      (t x : StageRun) (rest : List StageRun)
      → may_complete t.id StageRunStatus.cancelled x ≡ false
      → 1 ≤ count (is_target x.id) (t ∷ rest)
      → 1 ≤ count (is_target x.id) rest
  unfolding count
  untouched t x rest other h = elim (Bool-cases (t.id == x.id)) [
    | inl same ↦
        let e : x.id ≡ t.id = sym ((==_iff t.id x.id).0 same) in
        let itself : (x.id == t.id) ≡ true = (==_iff x.id t.id).1 e in
        let wrong : true ≡ false = rw itself at other in absurd (cc)
    | inr apart ↦ ground (arith, h, apart)
  ]

  cancelled-Covers :
      (t : StageRun) (rest : List StageRun) (db : Db)
      → Covers run_id (t ∷ rest) db.stage_runs
      → Covers run_id rest (mark_cancelled t.id db).stage_runs
  unfolding complete_stage_run append_event
  cancelled-Covers t rest db =
      All-update (λ s. is_pending run_id s ≡ true → 1 ≤ count (is_target s.id) (t ∷ rest)) _
        (may_complete t.id StageRunStatus.cancelled)
        (complete StageRunStatus.cancelled no_results db.now) db.stage_runs
        (λ x h mine pending.
          absurd (let wrong = (and_true (x.pipeline_run_id == run_id) false pending).1 in cc))
        (λ x h other pending. untouched t x rest other (h pending))

module _ (kill : ℕ → Signal) (run_id : ℕ) where
  finished-IsCancelled :
      (db : Db)
      → Covers run_id [] db.stage_runs
      → IsCancelled run_id (complete_run run_id PipelineRunStatus.cancelled db)
  unfolding complete_run
  finished-IsCancelled db covers = (
    All-map (λ s. is_pending run_id s ≡ true → 1 ≤ count (is_target s.id) []) (HasEnded run_id)
        db.stage_runs over covers,
    λ run e.
        let total = sum_costs run_id db.stage_runs in
        let (before, written) =
          find-written (run_has_id run_id) (finish PipelineRunStatus.cancelled total db.now) db.runs
            run (λ r. refl) e in
        ap (λ (r : PipelineRun). r.status) written,
  )
    where
      over :
          (s : StageRun)
          → (is_pending run_id s ≡ true → 1 ≤ count (is_target s.id) [])
          → HasEnded run_id s
      over s h mine = elim (Bool-cases (is_stage_terminal s.status)) [
        | inl t ↦ t
        | inr t ↦
            let pending : is_pending run_id s ≡ true = ground (arith, mine, t) in
            let none_left : 1 ≤ 0 = unfold count in (h pending) in absurd (omega arith)
      ]

  signalled-IsCancelled :
      (o : Result RouterError (Unit {0})) (next : MutationResult) (db : Db)
      → (next.0 ≡ ok tt → IsCancelled run_id next.1)
      → (once_signalled o next db).0 ≡ ok tt
      → IsCancelled run_id (once_signalled o next db).1
  signalled-IsCancelled (err e) next db later h = absurd (cc)
  signalled-IsCancelled (ok done) next db later h = later h

  cancel_each-IsCancelled :
      (rest : List StageRun) (db : Db)
      → Covers run_id rest db.stage_runs
      → (cancel_each kill run_id rest db).0 ≡ ok tt
      → IsCancelled run_id (cancel_each kill run_id rest db).1
  unfolding cancel_each
  cancel_each-IsCancelled [] db covers h = finished-IsCancelled db covers
  cancel_each-IsCancelled (s ∷ rest) db covers h = elim (Bool-cases (is_stage_terminal s.status)) [
    | inl t ↦ rw t (
        cancel_each-IsCancelled rest db (skipped-Covers run_id s rest db.stage_runs t covers)
          (rw t at h))
    | inr t ↦
        let db' = mark_cancelled s.id db in
        rw t (
          signalled-IsCancelled (terminate_stage_process kill s.pid)
            (cancel_each kill run_id rest db') db
            (λ passed.
              cancel_each-IsCancelled rest db' (cancelled-Covers run_id s rest db covers) passed)
            (rw t at h))
  ]

granted-IsCancelled :
    (run_id : ℕ) (x : Result RouterError (Unit {0})) (mutation : Db → MutationResult) (db : Db)
    → ((mutation db).0 ≡ ok tt → IsCancelled run_id (mutation db).1)
    → (when_granted x mutation db).0 ≡ ok tt
    → IsCancelled run_id (when_granted x mutation db).1
granted-IsCancelled run_id (err e) mutation db done h = absurd (cc)
granted-IsCancelled run_id (ok granted) mutation db done h = done h

-- Where cancelling a run returns, the run, where it is stored, is cancelled, and each of its stage runs has ended.
pub cancel-IsCancelled :
    (kill : ℕ → Signal) (m : Members) (run_id project_id : ℕ) (viewer : Option ℕ) (db : Db)
    → (cancel kill m run_id project_id viewer db).0 ≡ ok tt
    → IsCancelled run_id (cancel kill m run_id project_id viewer db).1
unfolding cancel
cancel-IsCancelled kill m run_id project_id viewer db =
    granted-IsCancelled run_id (assert_run_ownership m run_id project_id viewer db) _ db
      (cancel_each-IsCancelled kill run_id (get_stage_runs run_id db) db (started-Covers run_id db))
