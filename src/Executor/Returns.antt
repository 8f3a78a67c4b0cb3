-- ===== src/Executor/Returns.antt =====
-- src/core/orchestrator/stage-executor.ts: retries are bounded, and a pipeline without backward routes ends.
use fluxaos.Prelude.{
  ℕ, zero, suc, ◌+◌, ◌≤◌, ◌<◌, String, ◌≡◌, refl, ◌∙◌, subst, Bool, true, false, Option, none, some,
  List, ◌⊎◌, inl, inr, Bool-cases, Option-cases, Result, ok, err, arith, find, ltb, ltb→lt, str_eq,
}
use fluxaos.Store.{PipelineRunStatus, PipelineRun, PipelineStage, StageRun, Db}
use fluxaos.Gates.Rules.{GateVerdict}
use fluxaos.Runs.Service.{max_attempt, create_stage_run}
use fluxaos.Runs.Attempts.{max_attempt-append, max_attempt-update}
use fluxaos.Issues.Lookup.{IssueError}
use fluxaos.Executor.Ports.{Ports, World, Invocation, given}
use fluxaos.Executor.Finish.{finish_run, block_issue_on_run}
use fluxaos.Executor.Route.{
  Exit, stopped, threw, launches, handle_stage_failed, apply_verdict, to_target, dead_end,
  block_for_input, after_block, is_gone, route_of, retries_or_zero, is_stage_named,
  complete_sentinel, blocked_sentinel, signal_or_blocked,
}
use fluxaos.Executor.Launch.{
  launch_step, launch_stage, Ended, finished, failed, unfinished, go_on, is_held, stage_run_for,
  launched, prepare,
}
use fluxaos.Executor.Steps.{Relation, launched-all}

-- The stages stay, and attempts do not get fewer.
abbrev pub IsLater : Db → Db → Type 0
IsLater a b =
    (b.stages ≡ a.stages)
    × ((run_id stage_id : ℕ)
        → max_attempt run_id stage_id a.stage_runs ≤ max_attempt run_id stage_id b.stage_runs)

-- While a driver runs, nobody edits the stages or deletes stage runs.
abbrev pub IsSteady : Ports → Type 0
IsSteady ports = (invocation : Invocation) (db : Db) → IsLater db (ports.run invocation db).1

IsLater-trans : (a b c : Db) → IsLater a b → IsLater b c → IsLater a c
IsLater-trans a b c h k = (k.0 ∙ h.0, λ r s. omega (arith, h.1 r s, k.1 r s))

IsLater-relation : (ports : Ports) → IsSteady ports → Relation ports IsLater
IsLater-relation ports steady = record {
  same = λ a. (refl, λ r s. omega arith);
  trans = IsLater-trans;
  stage_write =
      λ p f a h. (refl, λ r s. omega (arith, (max_attempt-update r s p f a.stage_runs h).0));
  run_write = λ p f a. (refl, λ r s. omega arith);
  ran = steady;
}

module _ (ports : Ports) (run : PipelineRun) where
  -- What goes on from `w` at a stage is another attempt within the retries, or the stage of a route.
  abbrev Goes : PipelineStage → ℕ → World → Exit → Type 0
  Goes stage n w (stopped w') = Unit
  Goes stage n w (threw w') = Unit
  Goes stage n w (launches next w') =
      IsLater w.db w'.db
      × (((next ≡ stage) × (n ≤ retries_or_zero stage.max_retries))
          ⊎ ((name : String) × (verdict : GateVerdict) × (given (route_of verdict stage)
                ≡ some name)
              × (find (is_stage_named run.pipeline_id name) w'.db.stages ≡ some next)))

  handle_stage_failed-Goes :
      (stage : PipelineStage) (s_run : StageRun) (w w' : World)
      → IsLater w.db w'.db
      → Goes stage s_run.attempt w (handle_stage_failed ports run stage s_run w')
  unfolding handle_stage_failed
  handle_stage_failed-Goes stage s_run w w' h =
      elim (Bool-cases (ltb s_run.attempt (retries_or_zero stage.max_retries + 1))) [
        | inl e ↦ rw e (h, inl (refl, omega (arith, ltb→lt _ _ e)))
        | inr e ↦ rw e tt
      ]

  after_block-Goes :
      (stage : PipelineStage) (n : ℕ) (w w' : World) (r : Result IssueError Db) (f : World → World)
      → Goes stage n w (after_block w' r f)
  after_block-Goes stage n w w' (err e) f = tt
  after_block-Goes stage n w w' (ok db) f = tt

  dead_end-Goes :
      (stage : PipelineStage) (n : ℕ) (reason : String) (w w' : World)
      → Goes stage n w (dead_end ports run reason w')
  unfolding dead_end
  dead_end-Goes stage n reason w w' =
      let ended = finish_run ports run PipelineRunStatus.blocked w' in
      after_block-Goes stage n w ended (block_issue_on_run run.issue_id reason none true ended.db)
        (λ x. x)

  to_target-Goes :
      (stage : PipelineStage) (n : ℕ) (verdict : GateVerdict)
      (target reason question : Option String) (w w' : World)
      → given (route_of verdict stage) ≡ target
      → IsLater w.db w'.db
      → Goes stage n w (to_target ports run stage verdict target reason question w')
  unfolding block_for_input
  to_target-Goes stage n verdict none reason question w w' at h = dead_end-Goes stage n _ w w'
  to_target-Goes stage n verdict (some name) reason question w w' at h =
      elim (Bool-cases (str_eq name complete_sentinel)) [
        | inl e ↦ rw e tt
        | inr e ↦ elim (Bool-cases (str_eq name blocked_sentinel)) [
          | inl b ↦
              rw (e, b)
                (after_block-Goes stage n w w'
                  (block_issue_on_run run.issue_id (signal_or_blocked reason) question false w'.db)
                  (finish_run ports run PipelineRunStatus.blocked))
          | inr b ↦
              rw (e, b)
                (elim (Option-cases (find (is_stage_named run.pipeline_id name) w'.db.stages)) [
                  | inl f ↦ rw f (dead_end-Goes stage n _ w w')
                  | inr (next, f) ↦ rw f (h, inr (name, verdict, at, f))
                ])
        ]
      ]

  apply_verdict-Goes :
      (stage : PipelineStage) (n : ℕ) (verdict : GateVerdict) (reason question : Option String)
      (w w' : World)
      → IsLater w.db w'.db
      → Goes stage n w (apply_verdict ports run stage verdict reason question w')
  unfolding apply_verdict
  apply_verdict-Goes stage n verdict reason question w w' h =
      elim (Bool-cases (is_gone run.issue_id w'.db)) [
        | inl e ↦ rw e tt
        | inr e ↦ rw e (
            to_target-Goes stage n verdict (given (route_of verdict stage)) reason question w w'
              refl h)
      ]

  launched-Goes :
      IsSteady ports
      → (stage : PipelineStage) (s_run : StageRun) (w : World)
      → Goes stage s_run.attempt w
          (launched ports run stage s_run (prepare ports run stage s_run w))
  launched-Goes steady stage s_run w =
      launched-all ports run stage IsLater (IsLater-relation ports steady)
        (Goes stage s_run.attempt w) s_run w (λ v k. tt) (λ v status k. tt)
        (λ v k. handle_stage_failed-Goes stage s_run w v k.1)
        (λ v verdict reason question k.
          apply_verdict-Goes stage s_run.attempt verdict reason question w v k.1)

  -- A launch that creates its stage run: what follows is the attempt after it, or a routed stage.
  launch_step-Goes :
      IsSteady ports
      → (stage : PipelineStage) (w : World)
      → Goes stage
          (max_attempt run.id stage.id w.db.stage_runs + 1)
          (stage_run_for run stage none w).1
          (launch_step ports run stage none w)
  unfolding launch_step stage_run_for create_stage_run
  launch_step-Goes steady stage w = elim (Bool-cases (is_held stage.gate_mode)) [
    | inl e ↦ rw e tt
    | inr e ↦ rw e (
        launched-Goes steady stage (create_stage_run run.id stage.id w.db).0
          (stage_run_for run stage none w).1)
  ]

abbrev pub returns : Ended → Bool
returns (finished w) = true
returns (failed w) = true
returns (unfinished w) = false

-- The stages that routes can name.
abbrev pub IsStage : ℕ → List PipelineStage → PipelineStage → Type 0
IsStage pipeline_id stages stage =
    (name : String) × (find (is_stage_named pipeline_id name) stages ≡ some stage)

-- Every route leads to a stage with a larger `sortOrder`, and all of these are below a bound.
pub record IsForward (pipeline_id bound : ℕ) (stages : List PipelineStage) : Type 0 where
  pub below : (stage : PipelineStage) → IsStage pipeline_id stages stage → stage.sort_order < bound
  pub later :
      (stage next_stage : PipelineStage) (verdict : GateVerdict) (name : String)
      → IsStage pipeline_id stages stage
      → given (route_of verdict stage) ≡ some name
      → find (is_stage_named pipeline_id name) stages ≡ some next_stage
      → stage.sort_order < next_stage.sort_order

created_attempt :
    (run : PipelineRun) (stage : PipelineStage) (w : World)
    → max_attempt run.id stage.id w.db.stage_runs + 1
      ≤ max_attempt run.id stage.id (stage_run_for run stage none w).1.db.stage_runs
unfolding stage_run_for create_stage_run
created_attempt run stage w = ground (
  arith,
  max_attempt-append run.id stage.id w.db.stage_runs (create_stage_run run.id stage.id w.db).0,
)

module _ (ports : Ports) (run : PipelineRun) (steady : IsSteady ports) (bound : ℕ)
    (stages : List PipelineStage) (forward : IsForward run.pipeline_id bound stages) where
  abbrev Returns : PipelineStage → World → Type 0
  Returns stage w = (fuel : ℕ) × (returns (launch_stage fuel ports run stage none w) ≡ true)

  abbrev AllReturn : ℕ → Type 0
  AllReturn d =
      (stage : PipelineStage) (w : World)
      → IsStage run.pipeline_id stages stage
      → w.db.stages ≡ stages
      → bound ≤ stage.sort_order + d
      → Returns stage w

  -- One launch from a stage, when the stages after it and its further attempts return.
  step-Returns :
      (stage : PipelineStage) (w : World)
      → IsStage run.pipeline_id stages stage
      → w.db.stages ≡ stages
      → ((w' : World)
          → w'.db.stages ≡ stages
          → max_attempt run.id stage.id w.db.stage_runs + 1
            ≤ max_attempt run.id stage.id w'.db.stage_runs
          → max_attempt run.id stage.id w.db.stage_runs + 1 ≤ retries_or_zero stage.max_retries
          → Returns stage w')
      → ((next : PipelineStage) (w' : World)
          → w'.db.stages ≡ stages
          → IsStage run.pipeline_id stages next
          → stage.sort_order < next.sort_order
          → Returns next w')
      → Returns stage w
  unfolding launch_stage stage_run_for create_stage_run
  step-Returns stage w is_stage same again onward =
      let (fuel, done) =
        go (launch_step ports run stage none w) (launch_step-Goes ports run steady stage w) in
      (suc fuel, done)
    where
      go :
          (e : Exit)
          → Goes ports run stage
              (max_attempt run.id stage.id w.db.stage_runs + 1)
              (stage_run_for run stage none w).1
              e
          → (fuel : ℕ) × (returns (go_on (λ next v. launch_stage fuel ports run next none v) e)
              ≡ true)
      go (stopped w') goes = (0, refl)
      go (threw w') goes = (0, refl)
      go (launches next w') (later, inl (is_same, le)) = rw is_same (
          again w' (later.0 ∙ same)
            (omega (arith, created_attempt run stage w, later.1 run.id stage.id)) le)
      go (launches next w') (later, inr (name, verdict, at, found)) =
          let stays = later.0 ∙ same in
          let found' : find (is_stage_named run.pipeline_id name) stages ≡ some next =
            subst (λ l. find (is_stage_named run.pipeline_id name) l ≡ some next) stays found in
          onward next w' stays (name, found')
            (forward.later stage next verdict name is_stage at found')

  attempts-return :
      (d : ℕ)
      → AllReturn d
      → (k : ℕ) (stage : PipelineStage) (w : World) → IsStage run.pipeline_id stages stage
      → w.db.stages ≡ stages
      → bound ≤ stage.sort_order + suc d
      → retries_or_zero stage.max_retries ≤ max_attempt run.id stage.id w.db.stage_runs + k
      → Returns stage w
  attempts-return d outer zero stage w is_stage same close_to spent =
      step-Returns stage w is_stage same (λ w' s more le. absurd (omega arith))
        (λ next w' s is_next lt. outer next w' is_next s (omega arith))
  attempts-return d outer (suc k) stage w is_stage same close_to spent =
      step-Returns stage w is_stage same
        (λ w' s more le. attempts-return d outer k stage w' is_stage s close_to (omega arith))
        (λ next w' s is_next lt. outer next w' is_next s (omega arith))

  all-return : (d : ℕ) → AllReturn d
  all-return zero stage w is_stage same h = absurd (omega (arith, forward.below stage is_stage))
  all-return (suc d) stage w is_stage same h =
      attempts-return d (all-return d) (retries_or_zero stage.max_retries) stage w is_stage same h
        (omega arith)

  -- Where every route leads forward, and nobody edits the stages or deletes stage runs while a driver
  -- runs, the launch of any stage of the pipeline comes to an end, whatever the drivers answer: retries
  -- and routes are exhausted after finitely many launches.
  pub launch_stage-returns :
      (stage : PipelineStage) (w : World)
      → IsStage run.pipeline_id stages stage
      → w.db.stages ≡ stages
      → (fuel : ℕ) × (returns (launch_stage fuel ports run stage none w) ≡ true)
  launch_stage-returns stage w is_stage same = all-return bound stage w is_stage same (omega arith)
