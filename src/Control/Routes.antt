-- ===== src/Control/Routes.antt =====
-- `assertRoutingFieldsValid` of src/server/routers/pipeline.ts with `applyVerdict` of
-- src/core/orchestrator/stage-executor.ts: where a route that the router has accepted leads.
use fluxaos.Prelude.{
  arith, ℕ, String, ◌≡◌, refl, Bool, true, false, ◌==◌, ==_iff, and_true, or_true, str_eq, eq_iff,
  any, find, find-passes, find-Splits, Splits, Option, some, List, [], ◌∷◌, Bool-cases, inl, inr,
  ◌⊎◌, ok, err, >>=-eq-ok,
}
use fluxaos.Store.{PipelineRun, PipelineStage, Db}
use fluxaos.Gates.Rules.{GateVerdict}
use fluxaos.Executor.Ports.{Ports, World, given}
use fluxaos.Executor.Route.{
  Exit, stopped, launches, apply_verdict, complete_pipeline_run, block_for_input, is_gone, route_of,
  is_stage_named, complete_sentinel, blocked_sentinel,
}
use fluxaos.Control.Access.{
  RouterError, is_sibling, is_route, route_valid, assert_routing_fields_valid,
}

any-find :
    {A : Type 0} (p q : A → Bool) (xs : List A)
    → ((x : A) → p x ≡ true → q x ≡ true)
    → any p xs ≡ true
    → (a : A) × (find q xs ≡ some a)
unfolding any find
any-find p q [] weaker h = absurd (cc)
any-find p q (x ∷ xs) weaker h = elim (Bool-cases (q x)) [
  | inl t ↦ (x, rw t refl)
  | inr t ↦ elim (or_true (p x) (any p xs) h) [
    | inl here ↦ let wrong = weaker x here in absurd (cc)
    | inr later ↦ let (a, found) = any-find p q xs weaker later in (a, rw t found)
  ]
]

module _ (pipeline_id : ℕ) (exclude : Option ℕ) (db : Db) where
  sibling-named :
      (name : String) (s : PipelineStage)
      → is_sibling pipeline_id exclude name s ≡ true
      → is_stage_named pipeline_id name s ≡ true
  sibling-named name s h = ground (arith, h)

  route_valid-is_route :
      (name : String)
      → route_valid pipeline_id exclude db (some name) ≡ ok tt
      → is_route pipeline_id exclude db name ≡ true
  route_valid-is_route name h = elim (Bool-cases (is_route pipeline_id exclude db name)) [
    | inl t ↦ t
    | inr t ↦ let wrong : err RouterError.bad_request ≡ ok tt = rw t at h in absurd (cc)
  ]

  accepted_route :
      (stage : PipelineStage) (verdict : GateVerdict)
      → assert_routing_fields_valid pipeline_id stage.on_pass stage.on_fail stage.fallback exclude
          db
        ≡ ok tt
      → route_valid pipeline_id exclude db (given (route_of verdict stage)) ≡ ok tt
  unfolding assert_routing_fields_valid
  accepted_route stage verdict h =
      let (first, passes, later) =
        >>=-eq-ok (route_valid pipeline_id exclude db (given stage.on_pass)) _ h in
      let (second, fails, falls) =
        >>=-eq-ok (route_valid pipeline_id exclude db (given stage.on_fail)) _ later in
      each verdict passes fails falls
    where
      each :
          (verdict : GateVerdict)
          → route_valid pipeline_id exclude db (given stage.on_pass) ≡ ok tt
          → route_valid pipeline_id exclude db (given stage.on_fail) ≡ ok tt
          → route_valid pipeline_id exclude db (given stage.fallback) ≡ ok tt
          → route_valid pipeline_id exclude db (given (route_of verdict stage)) ≡ ok tt
      each GateVerdict.proceed passes fails falls = passes
      each GateVerdict.rework passes fails falls = fails
      each GateVerdict.hold passes fails falls = falls
      each GateVerdict.abort passes fails falls = falls

  -- A route that is no sentinel is the name of a stage of the pipeline.
  named_stage :
      (name : String)
      → is_route pipeline_id exclude db name ≡ true
      → str_eq name complete_sentinel ≡ false
      → str_eq name blocked_sentinel ≡ false
      → (next : PipelineStage) × (find (is_stage_named pipeline_id name) db.stages ≡ some next)
  named_stage name route complete blocked =
      any-find (is_sibling pipeline_id exclude name) (is_stage_named pipeline_id name) db.stages
        (sibling-named name) (ground (arith, route, complete, blocked))

module _ (ports : Ports) (run : PipelineRun) (stage : PipelineStage) (verdict : GateVerdict)
    (reason question : Option String) (w : World) where
  abbrev after : Exit
  after = apply_verdict ports run stage verdict reason question w

  -- The verdict completes the pipeline, asks for input, or launches the stage of the pipeline with that name.
  abbrev pub LeadsOn : String → Type 0
  LeadsOn name =
      ((name ≡ complete_sentinel) × (after ≡ stopped (complete_pipeline_run ports run w)))
      ⊎ ((name ≡ blocked_sentinel) × (after ≡ block_for_input ports run reason question w))
      ⊎ ((next : PipelineStage) × Splits w.db.stages next
          × (next.pipeline_id ≡ run.pipeline_id)
          × (next.name ≡ name)
          × (after ≡ launches next w))

  -- Where the router accepts the routing fields of a stage for the pipeline of the run, and the issue of the run was
  -- not deleted, a verdict that has a route completes the pipeline, asks for input or launches a stage of that
  -- pipeline, as the route says: no accepted route is a dead end.
  pub apply_verdict-LeadsOn :
      (exclude : Option ℕ) (name : String)
      → assert_routing_fields_valid run.pipeline_id stage.on_pass stage.on_fail stage.fallback
          exclude w.db
        ≡ ok tt
      → is_gone run.issue_id w.db ≡ false
      → given (route_of verdict stage) ≡ some name
      → LeadsOn name
  unfolding apply_verdict
  apply_verdict-LeadsOn exclude name accepted here route =
      elim (Bool-cases (str_eq name complete_sentinel)) [
        | inl c ↦ inl ((eq_iff name complete_sentinel).0 c, rw (here, route, c) refl)
        | inr c ↦ elim (Bool-cases (str_eq name blocked_sentinel)) [
          | inl b ↦ inr (inl ((eq_iff name blocked_sentinel).0 b, rw (here, route, c, b) refl))
          | inr b ↦
              let valid = accepted_route run.pipeline_id exclude w.db stage verdict accepted in
              let is_valid : route_valid run.pipeline_id exclude w.db (some name) ≡ ok tt =
                rw route at valid in
              let (next, found) =
                named_stage run.pipeline_id exclude w.db name
                  (route_valid-is_route run.pipeline_id exclude w.db name is_valid) c b in
              let passes : is_stage_named run.pipeline_id name next ≡ true =
                find-passes (is_stage_named run.pipeline_id name) w.db.stages next found in
              let (pipeline, named) =
                and_true (next.pipeline_id == run.pipeline_id) (str_eq next.name name) passes in
              inr (
                inr (
                  next,
                  find-Splits (is_stage_named run.pipeline_id name) w.db.stages next found,
                  (==_iff next.pipeline_id run.pipeline_id).0 pipeline,
                  (eq_iff next.name name).0 named,
                  rw (here, route, c, b, found) refl,
                ))
        ]
      ]
