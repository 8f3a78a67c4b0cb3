-- ===== src/Runner/Execute.antt =====
-- `executeStageRun` of src/core/orchestrator/stage-runner.ts: the process, and what becomes of the stage run.
use Prim.Native.Char.{Char}
use fluxaos.Prelude.{
  ℕ, String, Option, none, some, List, [], ◌∷◌, ◌++◌, chars, of_chars, ◌==◌, str_eq, decimal, ◌+s◌,
  ◌*◌, if◌then◌else◌, Result, ok, err, ◌>>=◌,
}
use fluxaos.Store.{StageRunStatus, EventType, IssueEventType, Payload, Actor, Issue, Db}
use fluxaos.Runs.Service.{
  StageResults, update_stage_run_status, complete_stage_run, append_event, append_issue_event,
}
use fluxaos.Executor.Ports.{given}
use fluxaos.Executor.Launch.{was_cancelled, no_results}
use fluxaos.Commands.Build.{BuiltCommand, build_command}
use fluxaos.Runner.Ports.{Execution, crashed, exited, RunnerPorts}
use fluxaos.Runner.Environment.{or_throw}
use fluxaos.Runner.Load.{
  Loaded, LoadError, no_driver, refused, Workspace, load, prepare, render, or_blank, skill_name,
}

pub record Metadata : Type 0 where
  pub target_state : Option String
  pub question : Option String

pub record StageRunResult : Type 0 where
  pub exit_code : ℕ
  pub issue_id : Option ℕ
  pub stage_id : ℕ
  pub driver_name : String
  pub provider_name : Option String
  pub model_identifier : Option String
  pub skill_signal : Option String
  pub skill_signal_reason : Option String
  pub skill_metadata : Option Metadata

-- An exception or a result, and the store that it leaves.
abbrev pub Attempt : Type 0 → Type 0
Attempt A = Result String A × Db

abbrev issue_variables : Option Issue → List (String × String)
issue_variables none = ("issue_title", "") ∷ ("issue_description", "") ∷ []
issue_variables (some i) =
    ("issue_number", decimal i.number)
    ∷ ("issue_title", i.title)
    ∷ ("issue_description", or_blank i.body_md)
    ∷ []

abbrev pub prompt_of : Loaded → Workspace → String
prompt_of l w =
    render
      (issue_variables l.issue
        ++ (("skill_name", skill_name l.skill l.stage.name)
            ∷ ("workspace_path", w.env.working_path)
            ∷ ("artifacts_path", or_blank w.env.artifacts_path)
            ∷ []))
      l.template

abbrev pub command_of : RunnerPorts → Loaded → Workspace → Result String BuiltCommand
command_of ports l w = build_command l.driver.config (record {
  model = l.routing.model_identifier;
  workspace_path = w.path;
  prompt = prompt_of l w;
  session_name = some ("fluxaos-" +s ports.short_id l.s_run.id);
  additional_dirs =
      if str_eq w.env.working_path w.path then none else some (w.env.working_path ∷ []);
})

abbrev after_env : List Char → Option String
after_env (a ∷ b ∷ c ∷ d ∷ rest) =
    if str_eq (of_chars (a ∷ b ∷ c ∷ d ∷ [])) "env:" then some (of_chars rest) else none
after_env _ = none

-- `ref?.startsWith('env:')`, and `ref.slice(4)`
abbrev env_var_of : Option String → Option String
env_var_of none = none
env_var_of (some ref) = after_env (chars ref)

abbrev value_of_key : RunnerPorts → Option String → Result String (List (String × String))
value_of_key ports none = ok []
value_of_key ports (some name) = do
  value ← or_throw (ports.process_env name) "Provider API key env var is not set"
  given_value ← or_throw (given (some value)) "Provider API key env var is not set"
  ok ((name, given_value) ∷ [])

abbrev pub with_provider_key : RunnerPorts → Loaded → BuiltCommand → Result String BuiltCommand
with_provider_key ports l cmd = do
  key ← value_of_key ports (env_var_of l.routing.provider_api_key_ref)
  ok (record cmd { env = key ++ cmd.env })

-- `stdoutParser.getParser` of src/adapters/subprocess/stdout-parser.ts
abbrev pub get_parser : String → Result String (Unit {0})
get_parser format =
    if str_eq format "stream-json"
    then ok tt
    else if str_eq format "text"
    then ok tt
    else err "unknown output format"

abbrev pub note_on : Option ℕ → IssueEventType → Payload → Db → Db
note_on none type payload db = db
note_on (some issue_id) type payload db =
    append_issue_event issue_id type payload Actor.stage_runner db

unfoldable pub mark_started : Loaded → Db → Db
unfolding update_stage_run_status append_event append_issue_event
mark_started l db =
    note_on l.run.issue_id IssueEventType.stage_started
      (Payload.stage l.s_run.id l.stage.name none none)
      (append_event l.s_run.id EventType.launched none ""
        (update_stage_run_status l.s_run.id StageRunStatus.running db))

abbrev pub result_of : Loaded → ℕ → Option String → Option String → StageRunResult
result_of l exit_code signal reason = record {
  exit_code = exit_code;
  issue_id = l.run.issue_id;
  stage_id = l.stage.id;
  driver_name = l.driver.name;
  provider_name = some l.routing.provider_name;
  model_identifier = some l.routing.model_identifier;
  skill_signal = signal;
  skill_signal_reason = reason;
  skill_metadata = none;
}

abbrev pub cancelled_result : Loaded → ℕ → StageRunResult
cancelled_result l exit_code = result_of l exit_code (some "abort") (some "cancelled")

abbrev pub note_commit : Option String → ℕ → Db → Db
note_commit none stage_run_id db = db
note_commit (some sha) stage_run_id db =
    append_event stage_run_id EventType.completed none "auto-committed worktree changes" db

abbrev pub results_with : Loaded → String → Option String → Option String → StageResults
results_with l trigger signal error = record no_results {
  provider = some l.routing.provider_name;
  model = some l.routing.model_identifier;
  driver = some l.driver.name;
  trigger = some trigger;
  skill_signal = signal;
  error_message = error;
}

unfoldable pub complete_clean : Loaded → String → Option String → Db → Db
unfolding complete_stage_run append_event append_issue_event
complete_clean l trigger sha db =
    note_on l.run.issue_id IssueEventType.stage_completed
      (Payload.stage l.s_run.id l.stage.name (some "proceed") (some 0))
      (append_event l.s_run.id EventType.completed none "no flux:signal emitted but skill exited 0"
        (complete_stage_run l.s_run.id StageRunStatus.completed
          (results_with l trigger (some "proceed") none) (note_commit (given sha) l.s_run.id db)))

unfoldable pub complete_failed : Loaded → String → ℕ → Db → Db
unfolding complete_stage_run append_event append_issue_event
complete_failed l trigger exit_code db =
    note_on l.run.issue_id IssueEventType.stage_failed
      (Payload.stage l.s_run.id l.stage.name none (some exit_code))
      (append_event l.s_run.id EventType.error none "no skill signal emitted" (
        complete_stage_run l.s_run.id StageRunStatus.failed
          (results_with l trigger none (some "no skill signal emitted")) db))

abbrev pub committed : Loaded → String → Result String (Option String) × Db → Attempt StageRunResult
committed l trigger (err text, db) = (err text, db)
committed l trigger (ok sha, db) = (
  ok (result_of l 0 (some "proceed") (some "no_signal_clean_exit")),
  complete_clean l trigger sha db,
)

-- After the process has ended by itself.
unfoldable pub ended : RunnerPorts → Loaded → Workspace → String → ℕ → Db → Attempt StageRunResult
unfolding complete_clean complete_failed
ended ports l w trigger exit_code db =
    if was_cancelled l.s_run.id db
    then (ok (cancelled_result l exit_code), db)
    else if exit_code == 0
    then committed l trigger (
        ports.commit_all w.env.working_path
          (l.stage.name +s (": stage_run " +s ports.short_id l.s_run.id)) db)
    else (
      ok (result_of l exit_code none none),
      complete_failed l trigger exit_code (ports.meanwhile db),
    )

abbrev pub after_execution :
    RunnerPorts → Loaded → Workspace → String → Execution × Db → Attempt StageRunResult
after_execution ports l w trigger (crashed text, db) = (err text, db)
after_execution ports l w trigger (exited exit_code, db) = ended ports l w trigger exit_code db

abbrev pub parsed :
    RunnerPorts
    → Loaded
    → Workspace
    → String
    → BuiltCommand
    → Result String (Unit {0})
    → Db
    → Attempt StageRunResult
parsed ports l w trigger cmd (err text) db = (err text, db)
parsed ports l w trigger cmd (ok known) db =
    after_execution ports l w trigger (ports.execute cmd w.path (l.stage.timeout_sec * 1000) db)

abbrev pub spawned :
    RunnerPorts
    → Loaded
    → Workspace
    → String
    → Result String BuiltCommand
    → Db
    → Attempt StageRunResult
spawned ports l w trigger (err text) db = (err text, db)
spawned ports l w trigger (ok cmd) db =
    parsed ports l w trigger cmd (get_parser l.driver.config.output_format) (mark_started l db)

-- The body of the `try`.
unfoldable pub run_process : RunnerPorts → Loaded → Workspace → String → Db → Attempt StageRunResult
unfolding build_command render mark_started ended
run_process ports l w trigger db =
    spawned ports l w trigger (command_of ports l w >>= with_provider_key ports l) db

unfoldable pub complete_thrown : Loaded → String → String → Db → Db
unfolding complete_stage_run append_event
complete_thrown l trigger text db = append_event l.s_run.id EventType.error none text (
    complete_stage_run l.s_run.id StageRunStatus.failed
      (record no_results {
        driver = some l.driver.name;
        trigger = some trigger;
        error_message = some text;
      })
      db)

-- The `catch`: it throws again, unless the stage run was cancelled.
unfoldable pub caught :
    RunnerPorts → Loaded → String → Attempt StageRunResult → Attempt StageRunResult
unfolding complete_thrown
caught ports l trigger (ok r, db) = (ok r, db)
caught ports l trigger (err text, db) =
    if was_cancelled l.s_run.id db
    then (ok (cancelled_result l 130), db)
    else (err text, complete_thrown l trigger text (ports.meanwhile db))

abbrev pub prepared : RunnerPorts → Loaded → String → Attempt Workspace → Attempt StageRunResult
prepared ports l trigger (err text, db) = (err text, db)
prepared ports l trigger (ok w, db) = caught ports l trigger (run_process ports l w trigger db)

abbrev pub loaded :
    RunnerPorts
    → (stage_run_id : ℕ) → String
    → Result LoadError Loaded
    → Db
    → Attempt StageRunResult
loaded ports stage_run_id trigger (err (no_driver text)) db =
    (err text, append_event stage_run_id EventType.error none text db)
loaded ports stage_run_id trigger (err (refused text)) db = (err text, db)
loaded ports stage_run_id trigger (ok l) db = prepared ports l trigger (prepare ports l db)

unfoldable pub execute_stage_run :
    RunnerPorts → (run_id stage_run_id : ℕ) → String → Db → Attempt StageRunResult
unfolding load prepare run_process caught append_event
execute_stage_run ports run_id stage_run_id trigger db =
    loaded ports stage_run_id trigger (load ports run_id stage_run_id db) db
