-- ===== src/Executor/Ports.antt =====
-- What src/core/orchestrator/stage-executor.ts is given: the catalogs it reads, the isolation provider,
-- the runner of a stage, the parser of its output, and the hook that follows the end of a run.
use fluxaos.Prelude.{ℕ, String, Bool, Option, none, some, List, if◌then◌else◌, str_eq, Result}
use fluxaos.Store.{PipelineRunStatus, Db}

pub record Driver : Type 0 where
  pub binary : Option String
  pub prompt_transport : String
  -- `none` where the json value is no array of strings.
  pub default_args : Option (List String)

pub record Persona : Type 0 where
  pub soul : Option String

pub record Skill : Type 0 where
  pub name : String
  pub prompt_template : Option String

pub record Env : Type 0 where
  pub working_path : String
  pub artifacts_path : Option String

pub data DocVerdict : Type 0 where
  pass fail blocked : DocVerdict

-- The fields of a valid result document that are read; `text` is the whole document.
pub record ResultDoc : Type 0 where
  pub verdict : DocVerdict
  pub signal_reason : Option String
  pub question : Option String
  pub input_tokens : Option ℕ
  pub output_tokens : Option ℕ
  pub model : Option String
  pub text : String

pub data IngestOutput : Type 0 where
  valid : ResultDoc → IngestOutput
  invalid : (raw : Option String) → IngestOutput

-- How `stageGraphRunner.run` ends.
pub data GraphResult : Type 0 where
  threw : String → GraphResult
  returned : (ingest_output : String) (error : Option String) → GraphResult

pub record Invocation : Type 0 where
  pub stage_run_id : ℕ
  pub result_doc_path : String
  pub artifacts_dir : String
  pub prompt : String
  pub driver_command : String
  pub driver_args : List String
  pub cwd : String
  pub timeout_sec : ℕ

-- While a stage runs, everybody else goes on writing: the run ends in another store.
pub record Ports : Type 0 where
  pub driver : (driver_id project_id : ℕ) → Db → Option Driver
  pub persona : (persona_id project_id : ℕ) → Db → Option Persona
  pub skills : (project_id : ℕ) → Db → List Skill
  pub acquire : (project_id run_id : ℕ) (issue_number : Option ℕ) → Db → Result String Env
  pub has_config : Bool
  pub has_runner : Bool
  pub run : Invocation → Db → GraphResult × Db
  pub parse : String → Option IngestOutput
  pub on_terminal : (run_id : ℕ) (project_id : Option ℕ) → PipelineRunStatus → Db → Db

-- `terminals` has the calls of the terminal hook, in their order.
pub record World : Type 0 where
  pub db : Db
  pub terminals : List (ℕ × PipelineRunStatus)

-- A string column that `!value` takes for missing.
abbrev pub given : Option String → Option String
given none = none
given (some s) = if str_eq s "" then none else some s
