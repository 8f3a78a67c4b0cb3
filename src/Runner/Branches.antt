-- ===== src/Runner/Branches.antt =====
-- src/core/orchestrator/stage-runner.ts: how each branch of the process leaves the stage run.
use fluxaos.Prelude.{
  ℕ, ◌≡◌, refl, sym, subst, false, String, Option, none, some, Bool-cases, inl, inr, ◌==◌, Result,
  ok, err,
}
use fluxaos.Store.{EventType, Payload, IssueEventType, StageRunStatus, Db}
use fluxaos.Runs.Service.{complete_stage_run, append_event, append_issue_event}
use fluxaos.Executor.Launch.{was_cancelled}
use fluxaos.Executor.Ports.{given}
use fluxaos.Commands.Build.{BuiltCommand}
use fluxaos.Runner.Ports.{RunnerPorts, Execution, crashed, exited}
use fluxaos.Runner.Load.{Loaded, Workspace}
use fluxaos.Runner.Execute.{
  get_parser, note_commit, StageRunResult, Attempt, note_on, results_with, complete_clean,
  complete_failed, committed, ended, after_execution, parsed, spawned, run_process, caught,
  prepared, mark_started,
}
use fluxaos.Runner.Completion.{HasEnded, IsSettled, completed-HasEnded}

note_on-rows :
    (o : Option ℕ) (type : IssueEventType) (payload : Payload) (db : Db)
    → (note_on o type payload db).stage_runs ≡ db.stage_runs
unfolding append_issue_event
note_on-rows none type payload db = refl
note_on-rows (some issue_id) type payload db = refl

module _ (ports : RunnerPorts) (l : Loaded) (trigger : String) where
  complete_failed-HasEnded :
      (exit_code : ℕ) (before : Db)
      → was_cancelled l.s_run.id before ≡ false
      → HasEnded ports StageRunStatus.failed l.s_run.id
          (complete_failed l trigger exit_code (ports.meanwhile before)).stage_runs
  unfolding complete_failed append_event
  complete_failed-HasEnded exit_code before live =
      let results = results_with l trigger none (some "no skill signal emitted") in
      let written =
        complete_stage_run l.s_run.id StageRunStatus.failed results (ports.meanwhile before) in
      subst (HasEnded ports StageRunStatus.failed l.s_run.id)
        (sym (
          note_on-rows l.run.issue_id IssueEventType.stage_failed
            (Payload.stage l.s_run.id l.stage.name none (some exit_code))
            (append_event l.s_run.id EventType.error none "no skill signal emitted" written)))
        (completed-HasEnded ports l.s_run.id StageRunStatus.failed results before
          (ports.meanwhile before) refl live (inl refl))

  complete_clean-HasEnded :
      (sha : Option String) (before after : Db) (path message : String)
      → was_cancelled l.s_run.id before ≡ false
      → after ≡ (ports.commit_all path message before).1
      → HasEnded ports StageRunStatus.completed l.s_run.id
          (complete_clean l trigger sha after).stage_runs
  unfolding complete_clean append_event
  complete_clean-HasEnded sha before after path message live after_commit =
      let written =
        complete_stage_run l.s_run.id StageRunStatus.completed
          (results_with l trigger (some "proceed") none)
          (note_commit (given sha) l.s_run.id after) in
      subst (HasEnded ports StageRunStatus.completed l.s_run.id)
        (sym (
          note_on-rows l.run.issue_id IssueEventType.stage_completed
            (Payload.stage l.s_run.id l.stage.name (some "proceed") (some 0))
            (append_event l.s_run.id EventType.completed none
              "no flux:signal emitted but skill exited 0" written)))
        (go (given sha))
    where
      plain :
          HasEnded ports StageRunStatus.completed l.s_run.id
            (complete_stage_run l.s_run.id StageRunStatus.completed
              (results_with l trigger (some "proceed") none)
              after).stage_runs
      plain =
          completed-HasEnded ports l.s_run.id StageRunStatus.completed
            (results_with l trigger (some "proceed") none) before after refl live
            (inr (path, message, after_commit))

      go :
          (o : Option String)
          → HasEnded ports StageRunStatus.completed l.s_run.id
              (complete_stage_run l.s_run.id StageRunStatus.completed
                (results_with l trigger (some "proceed") none)
                (note_commit o l.s_run.id after)).stage_runs
      go none = plain
      go (some text) = unfold complete_stage_run in plain

  abbrev pub Settles : Attempt StageRunResult → Type 0
  Settles (err text, db) = Unit
  Settles (ok r, db) = IsSettled ports l.s_run.id r db

  committed-Settles :
      (x : Result String (Option String) × Db) (before : Db) (path message : String)
      → was_cancelled l.s_run.id before ≡ false
      → x.1 ≡ (ports.commit_all path message before).1
      → Settles (committed l trigger x)
  committed-Settles (err text, db) before path message live e = tt
  committed-Settles (ok sha, db) before path message live e =
      inr (inl (refl, refl, complete_clean-HasEnded sha before db path message live e))

  ended-Settles :
      (w : Workspace) (exit_code : ℕ) (db : Db) → Settles (ended ports l w trigger exit_code db)
  unfolding ended
  ended-Settles w exit_code db = elim (Bool-cases (was_cancelled l.s_run.id db)) [
    | inl e ↦ rw e (inl (refl, e))
    | inr e ↦ elim (Bool-cases (exit_code == 0)) [
      | inl f ↦ rw (e, f) (committed-Settles _ db _ _ e refl)
      | inr f ↦ rw (e, f) (inr (inr (refl, f, complete_failed-HasEnded exit_code db e)))
    ]
  ]

  spawned-Settles :
      (w : Workspace) (cmd : Result String BuiltCommand) (db : Db)
      → Settles (spawned ports l w trigger cmd db)
  spawned-Settles w (err text) db = tt
  spawned-Settles w (ok cmd) db = go (get_parser l.driver.config.output_format) (mark_started l db)
    where
      executed : (x : Execution × Db) → Settles (after_execution ports l w trigger x)
      executed (crashed text, db) = tt
      executed (exited exit_code, db) = ended-Settles w exit_code db

      go : (p : Result String (Unit {0})) (db : Db) → Settles (parsed ports l w trigger cmd p db)
      go (err text) db = tt
      go (ok known) db = executed _

  caught-Settles : (x : Attempt StageRunResult) → Settles x → Settles (caught ports l trigger x)
  unfolding caught
  caught-Settles (ok r, db) h = h
  caught-Settles (err text, db) h = elim (Bool-cases (was_cancelled l.s_run.id db)) [
    | inl e ↦ rw e (inl (refl, e))
    | inr e ↦ rw e tt
  ]

  pub prepared-Settles : (x : Attempt Workspace) → Settles (prepared ports l trigger x)
  unfolding run_process
  prepared-Settles (err text, db) = tt
  prepared-Settles (ok w, db) = caught-Settles _ (spawned-Settles w _ db)
