-- ===== src/Executor/Ends.antt =====
-- src/core/orchestrator/stage-executor.ts: a run is ended at most once, however many stages are launched.
use fluxaos.Prelude.{
  find, ◌+◌, str_eq, ltb, ℕ, zero, suc, String, ◌≡◌, refl, ◌∙◌, ap, true, false, Option, none, some,
  [], ◌∷◌, ◌++◌, ◌⊎◌, inl, inr, Bool-cases, Result, ok, err,
}
use fluxaos.Store.{
  PipelineRunStatus, IssueEventType, Payload, PipelineRun, PipelineStage, StageRun, Db,
}
use fluxaos.Gates.Rules.{GateVerdict}
use fluxaos.Issues.Lookup.{IssueError}
use fluxaos.Executor.Ports.{Ports, World, given}
use fluxaos.Executor.Finish.{finish_run, block_issue_on_run}
use fluxaos.Executor.Route.{
  signal_or_blocked, is_stage_named, blocked_sentinel, complete_sentinel, retries_or_zero, Exit,
  stopped, threw, launches, note_on_issue, handle_stage_failed, apply_verdict, to_target, to_stage,
  dead_end, block_for_input, complete_pipeline_run, after_block, is_gone, route_of,
}
use fluxaos.Executor.Launch.{
  go_on, launch_step, launch_stage, Ended, finished, failed, unfinished, is_held, hold_stage,
  stage_run_for, launched, prepare,
}
use fluxaos.Executor.Steps.{Relation, launched-all}

-- The hook was called once more, for this run.
abbrev pub IsEnded : ℕ → World → World → Type 0
IsEnded run_id w w' =
    (status : PipelineRunStatus) × (w'.terminals ≡ w.terminals ++ (run_id, status) ∷ [])

abbrev pub IsOpen : World → World → Type 0
IsOpen w w' = w'.terminals ≡ w.terminals

-- The chain of launches from a stage has come to a stage whose gate is held, and stops there; every launch
-- before it went on with the next stage of the chain.
pub data Waits (ports : Ports) (run : PipelineRun)
    : PipelineStage → Option StageRun → World → World → Type 0 where
  at_gate :
      (stage : PipelineStage) (pre_existing : Option StageRun) (w : World)
      → is_held stage.gate_mode ≡ true
      → Waits ports run stage pre_existing w (
          hold_stage run stage
            (stage_run_for run stage pre_existing w).0
            (stage_run_for run stage pre_existing w).1)
  after_launch :
      (stage next : PipelineStage) (pre_existing : Option StageRun) (w between after : World)
      → launch_step ports run stage pre_existing w ≡ launches next between
      → Waits ports run next none between after
      → Waits ports run stage pre_existing w after

module _ (ports : Ports) (run : PipelineRun) where
  -- Past its gate, a launch that returns has ended the run once; one that goes on has not.
  abbrev Follows : World → Exit → Type 0
  Follows w (stopped w') = IsEnded run.id w w'
  Follows w (threw w') = IsOpen w w' ⊎ IsEnded run.id w w'
  Follows w (launches stage w') = IsOpen w w'

  finish_run-IsEnded :
      (status : PipelineRunStatus) (w w' : World)
      → IsOpen w w'
      → IsEnded run.id w (finish_run ports run status w')
  unfolding finish_run
  finish_run-IsEnded status w w' h = (status, ap (λ l. l ++ (run.id, status) ∷ []) h)

  noted :
      (issue_id : Option ℕ) (type : IssueEventType) (payload : Payload) (w : World)
      → (note_on_issue issue_id type payload w).terminals ≡ w.terminals
  noted none type payload w = refl
  noted (some id) type payload w = refl

  noted-IsEnded :
      (issue_id : Option ℕ) (type : IssueEventType) (payload : Payload) (w w' : World)
      → IsEnded run.id w w'
      → IsEnded run.id w (note_on_issue issue_id type payload w')
  noted-IsEnded issue_id type payload w w' (status, h) =
      (status, noted issue_id type payload w' ∙ h)

  handle_stage_failed-Follows :
      (stage : PipelineStage) (s_run : StageRun) (w w' : World)
      → IsOpen w w'
      → Follows w (handle_stage_failed ports run stage s_run w')
  unfolding handle_stage_failed
  handle_stage_failed-Follows stage s_run w w' h =
      elim (Bool-cases (ltb s_run.attempt (retries_or_zero stage.max_retries + 1))) [
        | inl e ↦ rw e h
        | inr e ↦ rw e (
            noted-IsEnded run.issue_id _ _ w _ (finish_run-IsEnded PipelineRunStatus.failed w w' h))
      ]

  after_block-Follows :
      (w w' : World) (r : Result IssueError Db) (status : PipelineRunStatus)
      → IsOpen w w'
      → Follows w (after_block w' r (finish_run ports run status))
  after_block-Follows w w' (err e) status h = inl h
  after_block-Follows w w' (ok db) status h = finish_run-IsEnded status w (record w' { db = db }) h

  after_end-Follows :
      (w w' : World) (r : Result IssueError Db)
      → IsEnded run.id w w'
      → Follows w (after_block w' r (λ x. x))
  after_end-Follows w w' (err e) h = inr h
  after_end-Follows w w' (ok db) h = h

  dead_end-Follows :
      (reason : String) (w w' : World) → IsOpen w w' → Follows w (dead_end ports run reason w')
  unfolding dead_end
  dead_end-Follows reason w w' h =
      let ended = finish_run ports run PipelineRunStatus.blocked w' in
      after_end-Follows w ended (block_issue_on_run run.issue_id reason none true ended.db)
        (finish_run-IsEnded PipelineRunStatus.blocked w w' h)

  block_for_input-Follows :
      (reason question : Option String) (w w' : World)
      → IsOpen w w'
      → Follows w (block_for_input ports run reason question w')
  unfolding block_for_input
  block_for_input-Follows reason question w w' h =
      after_block-Follows w w'
        (block_issue_on_run run.issue_id (signal_or_blocked reason) question false w'.db)
        PipelineRunStatus.blocked h

  to_stage-Follows :
      (name : String) (verdict : GateVerdict) (next : Option PipelineStage) (w w' : World)
      → IsOpen w w'
      → Follows w (to_stage ports run name verdict next w')
  to_stage-Follows name verdict none w w' h = dead_end-Follows _ w w' h
  to_stage-Follows name verdict (some stage) w w' h = h

  to_target-Follows :
      (stage : PipelineStage) (verdict : GateVerdict) (target reason question : Option String)
      (w w' : World)
      → IsOpen w w'
      → Follows w (to_target ports run stage verdict target reason question w')
  unfolding complete_pipeline_run
  to_target-Follows stage verdict none reason question w w' h = dead_end-Follows _ w w' h
  to_target-Follows stage verdict (some name) reason question w w' h =
      elim (Bool-cases (str_eq name complete_sentinel)) [
        | inl e ↦ rw e (
            noted-IsEnded run.issue_id _ _ w _
              (finish_run-IsEnded PipelineRunStatus.completed w w' h))
        | inr e ↦ elim (Bool-cases (str_eq name blocked_sentinel)) [
          | inl b ↦ rw (e, b) (block_for_input-Follows reason question w w' h)
          | inr b ↦
              rw (e, b)
                (to_stage-Follows name verdict
                  (find (is_stage_named run.pipeline_id name) w'.db.stages) w w' h)
        ]
      ]

  apply_verdict-Follows :
      (stage : PipelineStage) (verdict : GateVerdict) (reason question : Option String)
      (w w' : World)
      → IsOpen w w'
      → Follows w (apply_verdict ports run stage verdict reason question w')
  unfolding apply_verdict
  apply_verdict-Follows stage verdict reason question w w' h =
      elim (Bool-cases (is_gone run.issue_id w'.db)) [
        | inl e ↦ rw e (finish_run-IsEnded PipelineRunStatus.failed w w' h)
        | inr e ↦ rw e (
            to_target-Follows stage verdict (given (route_of verdict stage)) reason question w w' h)
      ]

  any_relation : Relation ports (λ a b. Unit {0})
  any_relation = record {
    same = λ a. tt;
    trans = λ a b c h k. tt;
    stage_write = λ p f a h. tt;
    run_write = λ p f a. tt;
    ran = λ i a. tt;
  }

  stage_run_for-IsOpen :
      (stage : PipelineStage) (pre_existing : Option StageRun) (w : World)
      → IsOpen w (stage_run_for run stage pre_existing w).1
  unfolding stage_run_for
  stage_run_for-IsOpen stage none w = refl
  stage_run_for-IsOpen stage (some s_run) w = refl

  hold_stage-IsOpen :
      (stage : PipelineStage) (s_run : StageRun) (w w' : World)
      → IsOpen w w'
      → IsOpen w (hold_stage run stage s_run w')
  unfolding hold_stage
  hold_stage-IsOpen stage s_run w w' h = noted run.issue_id _ _ _ ∙ h

  launched-Follows :
      (stage : PipelineStage) (s_run : StageRun) (w w' : World)
      → IsOpen w w'
      → Follows w (launched ports run stage s_run (prepare ports run stage s_run w'))
  launched-Follows stage s_run w w' h =
      launched-all ports run stage (λ a b. Unit {0}) any_relation (Follows w) s_run w'
        (λ v k. inl (k.0 ∙ h)) (λ v status k. finish_run-IsEnded status w v (k.0 ∙ h))
        (λ v k. handle_stage_failed-Follows stage s_run w v (k.0 ∙ h))
        (λ v verdict reason question k.
          apply_verdict-Follows stage verdict reason question w v (k.0 ∙ h))

  IsEnded-open : (w w' w'' : World) → IsOpen w w' → IsEnded run.id w' w'' → IsEnded run.id w w''
  IsEnded-open w w' w'' h (status, k) = (status, k ∙ ap (λ l. l ++ (run.id, status) ∷ []) h)

  -- What a chain of launches has done to the run: where it returns without ending it, it waits at the
  -- gate of a stage that it has come to.
  abbrev pub Accounts : PipelineStage → Option StageRun → World → Ended → Type 0
  Accounts stage pre_existing w (finished w') =
      IsEnded run.id w w' ⊎ (IsOpen w w' × Waits ports run stage pre_existing w w')
  Accounts stage pre_existing w (failed w') = IsOpen w w' ⊎ IsEnded run.id w w'
  Accounts stage pre_existing w (unfinished w') = IsOpen w w'

  Accounts-next :
      (stage next : PipelineStage) (pre_existing : Option StageRun) (w w' : World) (e : Ended)
      → launch_step ports run stage pre_existing w ≡ launches next w'
      → IsOpen w w'
      → Accounts next none w' e
      → Accounts stage pre_existing w e
  Accounts-next stage next pre_existing w w' (finished v) step h (inl k) =
      inl (IsEnded-open w w' v h k)
  Accounts-next stage next pre_existing w w' (finished v) step h (inr (k, held)) =
      inr (k ∙ h, Waits.after_launch stage next pre_existing w w' v step held)
  Accounts-next stage next pre_existing w w' (failed v) step h (inl k) = inl (k ∙ h)
  Accounts-next stage next pre_existing w w' (failed v) step h (inr k) =
      inr (IsEnded-open w w' v h k)
  Accounts-next stage next pre_existing w w' (unfinished v) step h k = k ∙ h

  -- A launch, and what the launches after it do.
  Accounts-exit :
      (launch : PipelineStage → World → Ended) (stage : PipelineStage)
      (pre_existing : Option StageRun) (w : World) (e : Exit)
      → launch_step ports run stage pre_existing w ≡ e
      → Follows w e
      → ((next : PipelineStage) (w' : World) → Accounts next none w' (launch next w'))
      → Accounts stage pre_existing w (go_on launch e)
  Accounts-exit launch stage pre_existing w (stopped w') step h k = inl h
  Accounts-exit launch stage pre_existing w (threw w') step h k = h
  Accounts-exit launch stage pre_existing w (launches next w') step h k =
      Accounts-next stage next pre_existing w w' (launch next w') step h (k next w')

  -- However long a chain of launches is, whatever its stages answer and whatever else is written while
  -- they run: it ends the run at most once, and if it returns it has ended the run exactly once, unless
  -- it has come to a stage whose gate is held, and waits there.
  pub launch_stage-ends_once :
      (fuel : ℕ) (stage : PipelineStage) (pre_existing : Option StageRun) (w : World)
      → Accounts stage pre_existing w (launch_stage fuel ports run stage pre_existing w)
  unfolding launch_stage launch_step
  launch_stage-ends_once zero stage pre_existing w = refl
  launch_stage-ends_once (suc fuel) stage pre_existing w =
      let (s_run, w') = stage_run_for run stage pre_existing w in
      let open_here = stage_run_for-IsOpen stage pre_existing w in
      elim (Bool-cases (is_held stage.gate_mode)) [
        | inl e ↦ rw e (
            inr
              (hold_stage-IsOpen stage s_run w w' open_here, Waits.at_gate stage pre_existing w e))
        | inr e ↦ rw e (
            Accounts-exit (λ next v. launch_stage fuel ports run next none v) stage pre_existing w
              (launched ports run stage s_run (prepare ports run stage s_run w')) (rw e refl)
              (launched-Follows stage s_run w w' open_here)
              (λ next v. launch_stage-ends_once fuel next none v))
      ]
