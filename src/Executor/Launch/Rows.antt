-- ===== src/Executor/Launch/Rows.antt =====
-- `launchStage` of src/core/orchestrator/stage-executor.ts: the rows that it writes, and what it reads.
use fluxaos.Prelude.{
  decimal, ℕ, String, Bool, true, false, Option, none, some, List, [], ◌∷◌, ◌++◌, find,
  update_where, str_eq, ◌+s◌, if◌then◌else◌, Result, ok, err,
}
use fluxaos.Store.{
  StageRunStatus, EventType, IssueEventType, Payload, GateMode, PipelineRun, PipelineStage,
  StageRun, Project, Issue, Db, is_stage_cancelled, run_has_id, stage_run_has_id,
}
use fluxaos.Gates.Rules.{GateVerdict}
use fluxaos.Runs.Service.{
  StageResults, create_stage_run, update_stage_run_status, complete_stage_run, append_event,
}
use fluxaos.Issues.Lookup.{find_issue}
use fluxaos.Executor.Ports.{Ports, World, Driver, Skill, DocVerdict, given}
use fluxaos.Executor.Prompt.{SkillRef}
use fluxaos.Executor.Route.{note_on_issue}

abbrev pub is_held : GateMode → Bool
is_held GateMode.hold = true
is_held GateMode.manual = true
is_held _ = false

abbrev pub gate_reason : GateMode → String
gate_reason GateMode.manual = "gate mode: manual"
gate_reason _ = "gate mode: hold"

-- `preExisting ?? createStageRun(…)`
unfoldable pub stage_run_for :
    PipelineRun → PipelineStage → Option StageRun → World → StageRun × World
unfolding create_stage_run
stage_run_for run stage (some s_run) w = (s_run, w)
stage_run_for run stage none w =
    let (s_run, db) = create_stage_run run.id stage.id w.db in (s_run, record w { db = db })

unfoldable pub hold_stage : PipelineRun → PipelineStage → StageRun → World → World
unfolding update_stage_run_status append_event
hold_stage run stage s_run w =
    let reason = gate_reason stage.gate_mode in
    note_on_issue run.issue_id IssueEventType.gate_hold (Payload.held s_run.id stage.name reason)
      (record w {
        db =
            append_event s_run.id EventType.gate_checked none reason
              (update_stage_run_status s_run.id StageRunStatus.pending w.db);
      })

abbrev pub no_results : StageResults
no_results = record {
  provider = none;
  model = none;
  driver = none;
  cost_usd = none;
  tokens_in = none;
  tokens_out = none;
  skill_signal = none;
  trigger = none;
  error_message = none;
  result_doc = none;
}

-- `completeStageRun(id, failed, …)`
unfoldable pub mark_failed : StageRun → StageResults → World → World
unfolding complete_stage_run
mark_failed s_run results w = record w {
  db = complete_stage_run s_run.id StageRunStatus.failed results w.db;
}

abbrev pub message : String → StageResults
message text = record no_results { error_message = some text }

abbrev pub run_failure : String → String → StageResults
run_failure binary text = record no_results {
  driver = some binary;
  trigger = some "automated";
  error_message = some text;
}

abbrev pub number_of : Option ℕ → Db → Option ℕ
number_of none db = none
number_of (some issue_id) db = elim (find_issue issue_id db) [
  | none ↦ none
  | some i ↦ some i.number
]

abbrev pub usable : List Skill → List SkillRef
usable [] = []
usable (s ∷ rest) = elim (given s.prompt_template) [
  | none ↦ usable rest
  | some text ↦ record { name = s.name; prompt_template = text } ∷ usable rest
]

abbrev pub set_artifacts : PipelineRun → String → Option String → World → World
set_artifacts run path (some kept) w = w
set_artifacts run path none w = record w {
  db = record w.db {
    runs =
        update_where (run_has_id run.id)
          (λ (r : PipelineRun). record r { artifacts_path = some path; updated_at = w.db.now })
          w.db.runs;
  };
}

-- `if (!value) throw new Error(text)`
abbrev pub or_throw {ℓ} : {A : Type ℓ} → Option A → String → Result String A
or_throw none text = err text
or_throw (some a) text = ok a

-- What a prompt is made of.
pub record Loaded : Type 0 where
  pub soul : String
  pub issue : Issue
  pub project : Project
  pub args : List String

-- A run that has no artifacts path gets that of its environment.
abbrev pub keep_artifacts : PipelineRun → String → World → World
keep_artifacts run path w = set_artifacts run path (given run.artifacts_path) w

abbrev pub was_cancelled : ℕ → Db → Bool
was_cancelled id db = elim (find (stage_run_has_id id) db.stage_runs) [
  | none ↦ false
  | some s ↦ is_stage_cancelled s.status
]

-- The verdict of a valid document.
abbrev pub verdict_of : DocVerdict → GateVerdict
verdict_of DocVerdict.pass = GateVerdict.proceed
verdict_of DocVerdict.fail = GateVerdict.rework
verdict_of DocVerdict.blocked = GateVerdict.hold

abbrev pub effective_driver : Ports → Option ℕ → ℕ → Db → Option Driver
effective_driver ports none project_id db = none
effective_driver ports (some driver_id) project_id db = ports.driver driver_id project_id db

abbrev pub binary_of : Option Driver → Option (Driver × String)
binary_of none = none
binary_of (some driver) = elim (given driver.binary) [ none ↦ none | some b ↦ some (driver, b) ]

abbrev pub driver_message : Option ℕ → String
driver_message none = "stage has no driver configured"
driver_message (some id) =
    "stage driver has no binary configured (driverId: " +s (decimal id +s ")")

abbrev pub driver_args : Driver → String → List String → List String
driver_args driver prompt args =
    if str_eq driver.prompt_transport "argv" then args ++ prompt ∷ [] else args
