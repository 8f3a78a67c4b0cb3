-- ===== src/Executor/Verdicts.antt =====
-- src/core/orchestrator/stage-executor.ts: where a verdict leads, and what a cancellation and an invalid
-- result document do.
use fluxaos.Prelude.{
  ℕ, String, ◌≡◌, ◌↔◌, refl, sym, ◌∙◌, ap, true, false, Option, none, some, inl, inr, Bool-cases,
  Result, ok, err, find, str_eq,
}
use fluxaos.Store.{PipelineRunStatus, PipelineRun, PipelineStage, Issue, Db}
use fluxaos.Gates.Rules.{GateVerdict}
use fluxaos.Issues.Lookup.{IssueError, find_issue, resolve_status_by_config_key}
use fluxaos.Executor.Ports.{Ports, World, given}
use fluxaos.Executor.Finish.{finish_run, block_issue_on_run, block_issue}
use fluxaos.Executor.Route.{
  Exit, stopped, threw, launches, apply_verdict, to_target, to_stage, dead_end, block_for_input,
  after_block, is_gone, route_of, is_stage_named, complete_sentinel, blocked_sentinel,
  signal_or_blocked,
}

abbrev pub target_of : Exit → Option PipelineStage
target_of (stopped w) = none
target_of (threw w) = none
target_of (launches stage w) = some stage

after_block-target :
    (w : World) (r : Result IssueError Db) (f : World → World)
    → target_of (after_block w r f) ≡ none
after_block-target w (err e) f = refl
after_block-target w (ok db) f = refl

not_gone :
    (o : Option ℕ) (issue_id : ℕ) (issue : Issue) (db : Db)
    → o ≡ some issue_id
    → find_issue issue_id db ≡ some issue
    → is_gone o db ≡ false
not_gone none issue_id issue db is_issue found = absurd (cc (is_issue))
not_gone (some id) issue_id issue db is_issue found =
    let same : id ≡ issue_id = cc in rw same (rw found refl)

block_unconfigured :
    (o : Option ℕ) (issue_id : ℕ) (issue : Issue) (text : String) (question : Option String)
    (db : Db) (e : IssueError)
    → o ≡ some issue_id
    → find_issue issue_id db ≡ some issue
    → resolve_status_by_config_key issue.project_id "issues.status.on_blocked_key" db ≡ err e
    → block_issue_on_run o text question false db ≡ err e
unfolding block_issue_on_run block_issue
block_unconfigured none issue_id issue text question db e is_issue found missing =
    absurd (cc (is_issue))
block_unconfigured (some id) issue_id issue text question db e is_issue found missing =
    let same : id ≡ issue_id = cc in rw same (rw found (rw missing refl))

module _ (ports : Ports) (run : PipelineRun) (stage : PipelineStage) (verdict : GateVerdict)
    (reason question : Option String) (w : World) where
  -- The stage that the route of the verdict names.
  abbrev pub Leads : PipelineStage → Type 0
  Leads next =
      (is_gone run.issue_id w.db ≡ false)
      × ((name : String) × (given (route_of verdict stage) ≡ some name)
          × (str_eq name complete_sentinel ≡ false)
          × (str_eq name blocked_sentinel ≡ false)
          × (find (is_stage_named run.pipeline_id name) w.db.stages ≡ some next))

  dead_end-target : (text : String) → target_of (dead_end ports run text w) ≡ none
  unfolding dead_end
  dead_end-target text =
      let ended = finish_run ports run PipelineRunStatus.blocked w in
      after_block-target ended (block_issue_on_run run.issue_id text none true ended.db) (λ x. x)

  block_for_input-target : target_of (block_for_input ports run reason question w) ≡ none
  unfolding block_for_input
  block_for_input-target =
      after_block-target w
        (block_issue_on_run run.issue_id (signal_or_blocked reason) question false w.db)
        (finish_run ports run PipelineRunStatus.blocked)

  to_stage-target :
      (name : String) (next : Option PipelineStage)
      → target_of (to_stage ports run name verdict next w) ≡ next
  to_stage-target name none = dead_end-target _
  to_stage-target name (some next) = refl

  target-Leads :
      (next : PipelineStage) (target : Option String)
      → is_gone run.issue_id w.db ≡ false
      → given (route_of verdict stage) ≡ target
      → target_of (to_target ports run stage verdict target reason question w) ≡ some next
      → Leads next
  target-Leads next none here at h = absurd (cc (dead_end-target _, h))
  target-Leads next (some name) here at h = elim (Bool-cases (str_eq name complete_sentinel)) [
    | inl e ↦ absurd (cc (rw e at h))
    | inr e ↦ elim (Bool-cases (str_eq name blocked_sentinel)) [
      | inl b ↦ absurd (cc (block_for_input-target, rw (e, b) at h))
      | inr b ↦
          let found = find (is_stage_named run.pipeline_id name) w.db.stages in
          (here, (name, at, e, b, sym (to_stage-target name found) ∙ (rw (e, b) at h)))
    ]
  ]

  pub apply_verdict-Leads :
      (next : PipelineStage)
      → (target_of (apply_verdict ports run stage verdict reason question w) ≡ some next)
        ↔ Leads next
  unfolding apply_verdict
  apply_verdict-Leads next = (
    λ h. elim (Bool-cases (is_gone run.issue_id w.db)) [
      | inl e ↦ absurd (cc (rw e at h))
      | inr e ↦ target-Leads next (given (route_of verdict stage)) e refl (rw e at h)
    ],
    λ (here, (name, at, e, b, found)). rw (here, at, e, b, found) refl,
  )

  -- A stage that asks for input where the status for blocked issues is not configured: the exception
  -- leaves the run as it is, without ending it.
  pub apply_verdict_unconfigured :
      (issue_id : ℕ) (issue : Issue) (e : IssueError)
      → run.issue_id ≡ some issue_id
      → find_issue issue_id w.db ≡ some issue
      → given (route_of verdict stage) ≡ some blocked_sentinel
      → resolve_status_by_config_key issue.project_id "issues.status.on_blocked_key" w.db ≡ err e
      → apply_verdict ports run stage verdict reason question w ≡ threw w
  unfolding apply_verdict block_for_input
  apply_verdict_unconfigured issue_id issue e is_issue found at missing =
      let here = not_gone run.issue_id issue_id issue w.db is_issue found in
      let failed =
        block_unconfigured run.issue_id issue_id issue (signal_or_blocked reason) question w.db e
          is_issue found missing in
      rw (here, at)
        (ap (λ r. after_block w r (finish_run ports run PipelineRunStatus.blocked)) failed)
