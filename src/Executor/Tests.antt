-- ===== src/Executor/Tests.antt =====
-- A run of two stages through src/core/orchestrator/stage-executor.ts.
use fluxaos.Prelude.{
  ◌∙◌, ap, ◌⊎◌, subst, ◌<◌, ℕ, String, ◌≡◌, ◌↔◌, refl, true, Option, none, some, arith, find,
  str_eq, Bool-cases, inl, inr,
}
use fluxaos.Store.{PipelineStage}
use fluxaos.Gates.Rules.{GateVerdict}
use fluxaos.Issues.Lookup.{IssueError, find_issue, resolve_status_by_config_key, config_string}
use fluxaos.Executor.Ports.{given}
use fluxaos.Executor.Route.{is_stage_named, route_of, threw, apply_verdict}
use fluxaos.Executor.Launch.{launch_stage}
use fluxaos.Executor.Ends.{Accounts, launch_stage-ends_once}
use fluxaos.Executor.Returns.{IsForward, IsSteady, returns, launch_stage-returns}
use fluxaos.Executor.Verdicts.{target_of, apply_verdict_unconfigured}
use fluxaos.Executor.Launches.{Launches, apply_verdict-Launches_iff}
use fluxaos.Executor.Sample.{build, review, the_issue, the_run, start_db, start_world, quiet}

launch_stage-ends_once_example :
    Accounts quiet the_run build none start_world
      (launch_stage 5 quiet the_run build none start_world)
launch_stage-ends_once_example = launch_stage-ends_once quiet the_run 5 build none start_world

quiet-IsSteady : IsSteady quiet
quiet-IsSteady invocation db = (refl, λ r s. omega arith)

either_stage :
    (name : String) (stage : PipelineStage)
    → find (is_stage_named 1 name) start_db.stages ≡ some stage
    → (build ≡ stage) ⊎ (review ≡ stage)
unfolding find
either_stage name stage found = elim (Bool-cases (str_eq "build" name)) [
  | inl e ↦ let here : some build ≡ some stage = rw e at found in inl (cc)
  | inr e ↦ elim (Bool-cases (str_eq "review" name)) [
    | inl f ↦ let here : some review ≡ some stage = rw (e, f) at found in inr (cc)
    | inr f ↦ absurd (cc (rw (e, f) at found))
  ]
]

abbrev order_of : Option PipelineStage → ℕ
order_of none = 0
order_of (some s) = s.sort_order

-- The stage that a name finds, from an equation of the name.
found_by :
    (name name' : String) (next : PipelineStage)
    → some name ≡ some name'
    → find (is_stage_named 1 name') start_db.stages ≡ some next
    → find (is_stage_named 1 name) start_db.stages ≡ some next
found_by name name' next h found =
    let same : name' ≡ name = cc in
    subst (λ n. find (is_stage_named 1 n) start_db.stages ≡ some next) same found

after_build :
    (verdict : GateVerdict) (name : String) (next : PipelineStage)
    → given (route_of verdict build) ≡ some name
    → find (is_stage_named 1 name) start_db.stages ≡ some next
    → 1 < next.sort_order
unfolding find
after_build GateVerdict.proceed name next at found =
    let order = ap order_of (found_by "review" name next at found) in omega (arith, order)
after_build GateVerdict.rework name next at found = absurd (cc (at))
after_build GateVerdict.hold name next at found =
    absurd (cc (found_by "__blocked__" name next at found))
after_build GateVerdict.abort name next at found =
    absurd (cc (found_by "__blocked__" name next at found))

after_review :
    (verdict : GateVerdict) (name : String) (next : PipelineStage)
    → given (route_of verdict review) ≡ some name
    → find (is_stage_named 1 name) start_db.stages ≡ some next
    → 2 < next.sort_order
unfolding find
after_review GateVerdict.proceed name next at found =
    absurd (cc (found_by "__complete__" name next at found))
after_review GateVerdict.rework name next at found = absurd (cc (at))
after_review GateVerdict.hold name next at found = absurd (cc (at))
after_review GateVerdict.abort name next at found = absurd (cc (at))

start-IsForward : IsForward 1 3 start_db.stages
start-IsForward = record {
  below = λ stage (name, found). elim (either_stage name stage found) [
    | inl e ↦ rw⁻¹ e (omega arith)
    | inr e ↦ rw⁻¹ e (omega arith)
  ];
  later = λ stage next verdict name (own, is_stage) at found.
      elim (either_stage own stage is_stage) [
        | inl e ↦
            let at' : given (route_of verdict build) ≡ some name =
              ap (λ s. given (route_of verdict s)) e ∙ at in
            rw⁻¹ e (after_build verdict name next at' found)
        | inr e ↦
            let at' : given (route_of verdict review) ≡ some name =
              ap (λ s. given (route_of verdict s)) e ∙ at in
            rw⁻¹ e (after_review verdict name next at' found)
      ];
}

launch_stage-returns_example :
    (fuel : ℕ) × (returns (launch_stage fuel quiet the_run build none start_world) ≡ true)
launch_stage-returns_example =
    launch_stage-returns quiet the_run quiet-IsSteady 3 start_db.stages start-IsForward build
      start_world ("build", unfold find in refl) refl

apply_verdict-Launches_iff_example :
    (target_of (apply_verdict quiet the_run build GateVerdict.proceed none none start_world)
      ≡ some review)
    ↔ Launches the_run build GateVerdict.proceed start_db review
apply_verdict-Launches_iff_example =
    apply_verdict-Launches_iff quiet the_run build GateVerdict.proceed none none start_world review

apply_verdict_unconfigured_example :
    apply_verdict quiet the_run build GateVerdict.hold none none start_world ≡ threw start_world
apply_verdict_unconfigured_example =
    apply_verdict_unconfigured quiet the_run build GateVerdict.hold none none start_world 5
      the_issue IssueError.missing_config refl (unfold find_issue find in refl) refl
      (unfold resolve_status_by_config_key config_string find in refl)
