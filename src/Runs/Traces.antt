-- ===== src/Runs/Traces.antt =====
-- src/core/orchestrator/pipeline-run-service.ts: every interleaving of the writes of Limit to runs is a run of the limiter.
use fluxaos.Prelude.{ℕ, ◌≡◌, refl, sym, ap, ◌∙◌, List, [], ◌∷◌, ◌++◌, count}
use fluxaos.Store.{PipelineRunStatus, Db}
use fluxaos.Runs.Service.{
  has_running_status, get_running_runs, set_run_status, fail_run, finish, sum_costs,
  try_acquire_running_slot, update_run_status, complete_run, fail_stage_and_run,
}
use fluxaos.Runs.Limit.{fresh_run, Step, Reach, IsWithin, Reach-IsWithin}
use fluxaos.Runs.Limiter.{Limiter, acquire, Command, perform, perform_all}
use fluxaos.Runs.Refinement.{
  status_of, statuses, view, rewrite-refines, leave-refines, create-refines, acquire-refines,
}

-- The command that a step carries out; a write to other columns or other tables carries out none.
abbrev pub command : {limit : ℕ} {db after : Db} → Step limit db after → List Command
command {db = db} (Step.created pipeline_id issue_id) = Command.entering db.next_id ∷ []
command (Step.attempted id) = Command.acquiring id ∷ []
command (Step.updated id status stops) = Command.leaving id status ∷ []
command (Step.completed id status stops) = Command.leaving id status ∷ []
command (Step.failed stage_run_id id) = Command.leaving id PipelineRunStatus.failed ∷ []
command (Step.rewritten id f same kept) = []
command (Step.elsewhere after runs ids) = []

abbrev pub commands : {limit : ℕ} {db after : Db} → Reach limit db after → List Command
commands Reach.here = []
commands (Reach.next earlier step) = commands earlier ++ command step

Step-refines :
    {limit : ℕ} {db after : Db} (step : Step limit db after)
    → IsWithin limit db
    → view after ≡ perform_all limit (command step) (view db)
Step-refines {limit} {db} (Step.created pipeline_id issue_id) w =
    create-refines pipeline_id issue_id db (ap status_of (fresh_run db.next_id db.runs w.numbered))
Step-refines {limit} {db} (Step.attempted id) w = (acquire-refines limit id db w.unique).1
Step-refines {limit} {db} (Step.updated id status stops) w =
    leave-refines id status (set_run_status status db.now) db (update_run_status id status db)
      (λ r. refl) (λ r. refl) stops (unfold update_run_status in refl) (w.unique id)
Step-refines {limit} {db} (Step.completed id status stops) w =
    leave-refines id status (finish status (sum_costs id db.stage_runs) db.now) db
      (complete_run id status db) (λ r. refl) (λ r. refl) stops (unfold complete_run in refl)
      (w.unique id)
Step-refines {limit} {db} (Step.failed stage_run_id id) w =
    leave-refines id PipelineRunStatus.failed (fail_run db.now) db
      (fail_stage_and_run stage_run_id id db) (λ r. refl) (λ r. refl) refl
      (unfold fail_stage_and_run in refl) (w.unique id)
Step-refines {limit} {db} (Step.rewritten id f same kept) w = rewrite-refines id f db same kept
Step-refines {limit} {db} (Step.elsewhere after runs ids) w =
    unfold view get_running_runs in
    (λ i. record { statuses = statuses (runs i); in_use = count has_running_status (runs i) })

perform_all-append :
    (limit : ℕ) (before after : List Command) (v : Limiter)
    → perform_all limit (before ++ after) v ≡ perform_all limit after (perform_all limit before v)
perform_all-append limit [] after v = refl
perform_all-append limit (c ∷ before) after v =
    perform_all-append limit before after (perform limit c v)

-- From a store within the limit, any interleaving of the writes to runs, of which only a claim sets the status
-- running, leads to the state that the limiter reaches by the same commands, and there every claim of a slot is
-- answered as the limiter answers it.
pub Reach-refines :
    {limit : ℕ} {db after : Db} (w : IsWithin limit db) (r : Reach limit db after)
    → (view after ≡ perform_all limit (commands r) (view db))
      × ((id : ℕ) → (try_acquire_running_slot id limit after).0 ≡ (acquire limit id (view after)).0)
Reach-refines {limit} {db} {after} w r =
    (state w r, λ id. (acquire-refines limit id after (Reach-IsWithin w r).unique).0)
  where
    state :
        {limit : ℕ} {db after : Db}
        → IsWithin limit db
        → (r : Reach limit db after) → view after ≡ perform_all limit (commands r) (view db)
    state w Reach.here = refl
    state {limit} {db} w (Reach.next earlier step) =
        Step-refines step (Reach-IsWithin w earlier)
        ∙ ap (perform_all limit (command step)) (state w earlier)
        ∙ sym (perform_all-append limit (commands earlier) (command step) (view db))
