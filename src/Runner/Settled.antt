-- ===== src/Runner/Settled.antt =====
-- src/core/orchestrator/stage-runner.ts: how a stage run stands when `executeStageRun` returns.
use fluxaos.Prelude.{
  ◌>>=◌, ℕ, ◌≡◌, refl, ap, subst, String, Option, none, some, find, find-passes, ◌==◌, ==_iff,
  Result, ok, err,
}
use fluxaos.Store.{PipelineStage, StageRun, Db, stage_run_has_id}
use fluxaos.Runs.Service.{get_run}
use fluxaos.Executor.Ports.{given}
use fluxaos.Runner.Ports.{RunnerPorts}
use fluxaos.Runner.Environment.{resolve_project_id}
use fluxaos.Routing.Resolver.{resolve}
use fluxaos.Runner.Load.{
  issue_of_run, or_no_driver, if_set, or_refuse, Loaded, LoadError, no_driver, refused, load,
  prepare,
}
use fluxaos.Runner.Execute.{StageRunResult, Attempt, loaded, execute_stage_run}
use fluxaos.Runner.Completion.{IsSettled}
use fluxaos.Runner.Branches.{Settles, prepared-Settles}

-- What holds of the value, where there is one.
unfoldable Holds {ℓ} : {E : Type 0} {A : Type ℓ} → (A → Type 0) → Result E A → Type 0
Holds P (err e) = Unit
Holds P (ok a) = P a

Holds-bind {ℓ κ} :
    {E : Type 0} {A : Type ℓ} {B : Type κ} (P : B → Type 0) (m : Result E A) (f : A → Result E B)
    → ((a : A) → m ≡ ok a → Holds P (f a))
    → Holds P (m >>= f)
unfolding Holds
Holds-bind P (err e) f h = tt
Holds-bind P (ok a) f h = h a refl

Holds-ok {ℓ} : {A : Type ℓ} (P : A → Type 0) (a : A) → P a → Holds {E = LoadError} P (ok a)
unfolding Holds
Holds-ok P a h = h

or_refuse-ok {ℓ} :
    {A : Type ℓ} (o : Option A) (text : String) (a : A) → or_refuse o text ≡ ok a → o ≡ some a
or_refuse-ok none text a h = absurd (cc)
or_refuse-ok (some b) text a h = cc

abbrev HasId : ℕ → Loaded → Type 0
HasId id l = l.s_run.id ≡ id

load-HasId :
    (ports : RunnerPorts) (run_id stage_run_id : ℕ) (db : Db)
    → Holds (HasId stage_run_id) (load ports run_id stage_run_id db)
unfolding load
load-HasId ports run_id stage_run_id db =
    Holds-bind (HasId stage_run_id) (or_refuse (get_run run_id db) "Pipeline run not found") _
      (λ run e.
        Holds-bind (HasId stage_run_id)
          (or_refuse (find (stage_run_has_id stage_run_id) db.stage_runs) "Stage run not found") _
          (λ s_run found.
            Holds-bind (HasId stage_run_id)
              (or_refuse (find (λ (s : PipelineStage). s.id == s_run.pipeline_stage_id) db.stages)
                "Pipeline stage not found")
              _
              (λ stage e.
                Holds-bind (HasId stage_run_id)
                  (or_refuse (resolve_project_id (issue_of_run run.issue_id db) run.pipeline_id db)
                    "Stage-runner cannot run without a projectId")
                  _
                  (λ project_id e.
                    Holds-bind (HasId stage_run_id)
                      (or_refuse (ports.project_row project_id db)
                        "Project not found for scope resolution")
                      _
                      (λ scope e.
                        Holds-bind (HasId stage_run_id)
                          (or_no_driver
                            (if_set stage.driver_id (λ id. ports.driver id project_id db)))
                          _
                          (λ driver e.
                            Holds-bind (HasId stage_run_id)
                              (or_refuse (given (some driver.config.output_format))
                                "Driver has no output_format configured")
                              _
                              (λ format e.
                                Holds-bind (HasId stage_run_id)
                                  (or_refuse (given driver.issue_prompt_template)
                                    "Driver is missing issuePromptTemplate")
                                  _
                                  (λ template e.
                                    Holds-bind (HasId stage_run_id)
                                      (or_refuse
                                        (resolve ports.compile (ports.routes db) stage.id
                                          project_id)
                                        "No routing model resolved for stage")
                                      _
                                      (λ routing e.
                                        Holds-bind (HasId stage_run_id)
                                          (or_refuse (given (some routing.model_identifier))
                                            "No routing model resolved for stage")
                                          _
                                          (λ identifier e.
                                            Holds-ok (HasId stage_run_id) _
                                              (same s_run found)))))))))))
  where
    same :
        (s_run : StageRun)
        → or_refuse (find (stage_run_has_id stage_run_id) db.stage_runs) "Stage run not found"
          ≡ ok s_run
        → s_run.id ≡ stage_run_id
    same s_run e =
        (==_iff s_run.id stage_run_id).0 (
          find-passes (stage_run_has_id stage_run_id) db.stage_runs s_run
            (or_refuse-ok _ _ s_run e))

pub execute_stage_run-settles :
    (ports : RunnerPorts) (run_id stage_run_id : ℕ) (trigger : String) (db db' : Db)
    (r : StageRunResult)
    → execute_stage_run ports run_id stage_run_id trigger db ≡ (ok r, db')
    → IsSettled ports stage_run_id r db'
unfolding execute_stage_run Holds
execute_stage_run-settles ports run_id stage_run_id trigger db db' r h =
    go (load ports run_id stage_run_id db) (load-HasId ports run_id stage_run_id db) h
  where
    go :
        (x : Result LoadError Loaded)
        → Holds (HasId stage_run_id) x
        → loaded ports stage_run_id trigger x db ≡ (ok r, db')
        → IsSettled ports stage_run_id r db'
    go (err (no_driver text)) has h = absurd (cc (ap (λ (a : Attempt StageRunResult). a.0) h))
    go (err (refused text)) has h = absurd (cc (ap (λ (a : Attempt StageRunResult). a.0) h))
    go (ok l) has h =
        subst (λ i. IsSettled ports i r db') has
          (subst (Settles ports l trigger) h
            (prepared-Settles ports l trigger (prepare ports l db)))
