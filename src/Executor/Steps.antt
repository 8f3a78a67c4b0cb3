-- ===== src/Executor/Steps.antt =====
-- `launchStage` of src/core/orchestrator/stage-executor.ts: the ways in which one launch can go, over any
-- relation between stores that its writes and the run of the driver respect.
use fluxaos.Prelude.{
  ℕ, String, ◌≡◌, refl, ◌∙◌, Bool, true, false, Option, none, some, Bool-cases, Option-cases, inl,
  inr, update_where, Result, ok, err,
}
use fluxaos.Store.{
  Pipeline, PipelineRunStatus, StageRunStatus, PipelineRun, PipelineStage, StageRun, Db,
}
use fluxaos.Gates.Rules.{GateVerdict}
use fluxaos.Runs.Service.{StageResults, complete_stage_run, update_stage_run_status}
use fluxaos.Executor.Ports.{
  Driver, Ports, World, Invocation, Env, GraphResult, returned, IngestOutput, valid, invalid, given,
}
use fluxaos.Executor.Finish.{find_pipeline, finish_run}
use fluxaos.Executor.Route.{Exit, stopped, threw, handle_stage_failed, apply_verdict}
use fluxaos.Executor.Launch.{
  after_graph, started, with_loaded, load, with_driver, Loaded, in_env, in_pipeline, with_artifacts,
  start, launched, verdict_of, invocation_of, run_failure, mark_failed, was_cancelled,
  keep_artifacts, binary_of, effective_driver, prepare, fail_run, fail_stage, number_of, ingest,
  settle, executed, completed_with, results_of, keep_raw, no_results,
}

-- An exit satisfies P, a value Q.
abbrev pub Holds {ℓ} : {A : Type ℓ} → (Exit → Type 0) → (A → Type 0) → Result Exit A → Type 0
Holds P Q (err e) = P e
Holds P Q (ok a) = Q a

-- A write to stage runs that keeps their runs, stages and attempts.
abbrev pub IsTame : (StageRun → StageRun) → Type 0
IsTame f =
    (s : StageRun)
    → ((f s).attempt ≡ s.attempt)
      × ((f s).pipeline_run_id ≡ s.pipeline_run_id)
      × ((f s).pipeline_stage_id ≡ s.pipeline_stage_id)

pub record Relation (ports : Ports) (R : Db → Db → Type 0) : Type 0 where
  pub same : (db : Db) → R db db
  pub trans : (a b c : Db) → R a b → R b c → R a c
  pub stage_write :
      (p : StageRun → Bool) (f : StageRun → StageRun) (db : Db)
      → IsTame f
      → R db (record db { stage_runs = update_where p f db.stage_runs })
  pub run_write :
      (p : PipelineRun → Bool) (f : PipelineRun → PipelineRun) (db : Db)
      → R db (record db { runs = update_where p f db.runs })
  pub ran : (invocation : Invocation) (db : Db) → R db (ports.run invocation db).1

module _ (ports : Ports) (run : PipelineRun) (stage : PipelineStage) (R : Db → Db → Type 0)
    (rel : Relation ports R) where
  abbrev pub Kept : World → World → Type 0
  Kept w w' = (w'.terminals ≡ w.terminals) × R w.db w'.db

  Kept-trans : (a b c : World) → Kept a b → Kept b c → Kept a c
  Kept-trans a b c h k = (k.0 ∙ h.0, rel.trans a.db b.db c.db h.1 k.1)

  mark_failed-Kept :
      (s_run : StageRun) (results : StageResults) (w : World) → Kept w (mark_failed s_run results w)
  unfolding mark_failed complete_stage_run
  mark_failed-Kept s_run results w = (refl, rel.stage_write _ _ w.db (λ s. (refl, refl, refl)))

  keep_artifacts-Kept : (path : String) (w : World) → Kept w (keep_artifacts run path w)
  keep_artifacts-Kept path w = elim (Option-cases (given run.artifacts_path)) [
    | inl e ↦ rw e (refl, rel.run_write _ _ w.db)
    | inr (kept, e) ↦ rw e (refl, rel.same w.db)
  ]

  started-Kept :
      (s_run : StageRun) (w : World)
      → Kept w (record w { db = update_stage_run_status s_run.id StageRunStatus.running w.db })
  unfolding update_stage_run_status
  started-Kept s_run w = (refl, rel.stage_write _ _ w.db (λ s. (refl, refl, refl)))

  -- The exits of a launch that has come as far as `w`.
  module _ (P : Exit → Type 0) (s_run : StageRun) (w : World)
      (throws : (w' : World) → Kept w w' → P (threw w'))
      (ends : (w' : World) (status : PipelineRunStatus)
        → Kept w w'
        → P (stopped (finish_run ports run status w')))
      (fails : (w' : World) → Kept w w' → P (handle_stage_failed ports run stage s_run w'))
      (routes : (w' : World) (verdict : GateVerdict) (reason question : Option String)
        → Kept w w'
        → P (apply_verdict ports run stage verdict reason question w')) where
    fail_run-holds :
        (results : StageResults) (w' : World)
        → Kept w w'
        → P (fail_run ports run stage s_run results w')
    fail_run-holds results w' h =
        ends (mark_failed s_run results w') PipelineRunStatus.failed
          (Kept-trans w w' _ h (mark_failed-Kept s_run results w'))

    fail_stage-holds :
        (results : StageResults) (w' : World)
        → Kept w w'
        → P (fail_stage ports run stage s_run results w')
    fail_stage-holds results w' h =
        fails (mark_failed s_run results w')
          (Kept-trans w w' _ h (mark_failed-Kept s_run results w'))

    abbrev Q : String × Invocation × World → Type 0
    Q (binary, invocation, w') = Kept w w'

    start-Holds :
        (config runner : Bool) (binary : String) (invocation : Invocation) (w' : World)
        → Kept w w'
        → Holds P Q (start ports run stage config runner binary invocation s_run w')
    start-Holds false runner binary invocation w' h = throws w' h
    start-Holds true false binary invocation w' h = fail_run-holds _ w' h
    start-Holds true true binary invocation w' h = h

    with_loaded-Holds :
        (driver : Driver) (binary : String) (project_id : ℕ) (env : Env) (artifacts : String)
        (loaded : Result String Loaded) (w' : World)
        → Kept w w'
        → Holds P Q
            (with_loaded ports run stage driver binary project_id env artifacts loaded s_run w')
    with_loaded-Holds driver binary project_id env artifacts (err text) w' h = throws w' h
    with_loaded-Holds driver binary project_id env artifacts (ok loaded) w' h =
        start-Holds ports.has_config ports.has_runner binary
          (invocation_of ports run stage driver binary env artifacts loaded s_run project_id w')
          (started ports run stage s_run w') (Kept-trans w w' _ h (started-Kept s_run w'))

    with_artifacts-Holds :
        (driver : Driver) (binary : String) (project_id : ℕ) (env : Env) (artifacts : Option String)
        → Holds P Q (with_artifacts ports run stage driver binary project_id env artifacts s_run w)
    with_artifacts-Holds driver binary project_id env none =
        fail_run-holds _ w (refl, rel.same w.db)
    with_artifacts-Holds driver binary project_id env (some artifacts) =
        let kept = keep_artifacts run artifacts w in
        with_loaded-Holds driver binary project_id env artifacts
          (load ports run stage driver project_id kept) kept (keep_artifacts-Kept artifacts w)

    in_env-Holds :
        (driver : Driver) (binary : String) (project_id : ℕ) (env : Result String Env)
        → Holds P Q (in_env ports run stage driver binary project_id env s_run w)
    in_env-Holds driver binary project_id (err text) = fail_stage-holds _ w (refl, rel.same w.db)
    in_env-Holds driver binary project_id (ok env) =
        with_artifacts-Holds driver binary project_id env (given env.artifacts_path)

    with_driver-Holds :
        (project_id : ℕ) (driver : Option (Driver × String))
        → Holds P Q (with_driver ports run stage project_id driver s_run w)
    with_driver-Holds project_id none = fail_run-holds _ w (refl, rel.same w.db)
    with_driver-Holds project_id (some (driver, binary)) =
        in_env-Holds driver binary project_id
          (ports.acquire project_id run.id (number_of run.issue_id w.db) w.db)

    in_pipeline-Holds :
        (pipe : Option Pipeline) → Holds P Q (in_pipeline ports run stage pipe s_run w)
    in_pipeline-Holds none = throws w (refl, rel.same w.db)
    in_pipeline-Holds (some pipe) =
        with_driver-Holds pipe.project_id
          (binary_of (effective_driver ports stage.driver_id pipe.project_id w.db))

    prepare-Holds : Holds P Q (prepare ports run stage s_run w)
    unfolding prepare find_pipeline
    prepare-Holds = in_pipeline-Holds (find_pipeline run.pipeline_id w.db)

    completed-Kept :
        (binary : String) (results : StageResults) (w' : World)
        → Kept w' (completed_with ports run stage binary results s_run w')
    unfolding complete_stage_run
    completed-Kept binary results w' = (refl, rel.stage_write _ _ w'.db (λ s. (refl, refl, refl)))

    keep_raw-Kept :
        (raw : Option String) (w' : World) → Kept w' (keep_raw ports run stage raw s_run w')
    keep_raw-Kept none w' = (refl, rel.same w'.db)
    keep_raw-Kept (some raw) w' = (refl, rel.stage_write _ _ w'.db (λ s. (refl, refl, refl)))

    ingest-holds :
        (binary : String) (output : Option IngestOutput) (w' : World)
        → Kept w w'
        → P (ingest ports run stage binary output s_run w')
    unfolding ingest
    ingest-holds binary none w' h =
        fail_stage-holds (run_failure binary "Ingest output failed validation") w' h
    ingest-holds binary (some (invalid raw)) w' h =
        let raw_kept = keep_raw ports run stage raw s_run w' in
        routes (completed_with ports run stage binary no_results s_run raw_kept) GateVerdict.proceed
          none none
          (Kept-trans w w' _ h (
            Kept-trans w' raw_kept _ (keep_raw-Kept raw w')
              (completed-Kept binary no_results raw_kept)))
    ingest-holds binary (some (valid doc)) w' h =
        routes (completed_with ports run stage binary (results_of ports run stage doc) s_run w')
          (verdict_of doc.verdict) doc.signal_reason doc.question
          (Kept-trans w w' _ h (completed-Kept binary (results_of ports run stage doc) w'))

    after_graph-holds :
        (binary : String) (error : Option String) (output : String) (w' : World)
        → Kept w w'
        → P (after_graph ports run stage binary error output s_run w')
    after_graph-holds binary (some text) output w' h =
        fail_stage-holds (run_failure binary text) w' h
    after_graph-holds binary none output w' h = ingest-holds binary (ports.parse output) w' h

    settle-holds :
        (binary : String) (result : GraphResult) (w' : World)
        → Kept w w'
        → P (settle ports run stage binary result s_run w')
    unfolding settle
    settle-holds binary (GraphResult.threw text) w' h =
        fail_stage-holds (run_failure binary text) w' h
    settle-holds binary (returned output error) w' h =
        after_graph-holds binary (given error) output w' h

    executed-holds :
        (binary : String) (result : GraphResult) (w' : World)
        → Kept w w'
        → P (executed ports run stage binary result s_run w')
    unfolding executed
    executed-holds binary result w' h = elim (Bool-cases (was_cancelled s_run.id w'.db)) [
      | inl e ↦ rw e (ends w' PipelineRunStatus.cancelled h)
      | inr e ↦ rw e (settle-holds binary result w' h)
    ]

    launched-holds :
        (prepared : Result Exit (String × Invocation × World))
        → Holds P Q prepared
        → P (launched ports run stage s_run prepared)
    launched-holds (err e) h = h
    launched-holds (ok (binary, invocation, w')) h =
        let after = ports.run invocation w'.db in
        executed-holds binary after.0 (record w' { db = after.1 })
          (Kept-trans w w' _ h (refl, rel.ran invocation w'.db))

    -- One launch past its gate.
    pub launched-all : P (launched ports run stage s_run (prepare ports run stage s_run w))
    launched-all = launched-holds (prepare ports run stage s_run w) prepare-Holds
