-- ===== src/Runner/Ports.antt =====
-- What src/core/orchestrator/stage-runner.ts is given: the catalogs that it reads, the isolation provider,
-- the file system, the environment of the process, git, and the executor of a command.
use fluxaos.Prelude.{Bool, ℕ, String, Option, List, Result}
use fluxaos.Store.{Db}
use fluxaos.Routing.Resolver.{Routes}
use fluxaos.Commands.Build.{DriverConfig, BuiltCommand}

-- The columns of a project that the runner reads.
pub record RepoProject : Type 0 where
  pub id : ℕ
  pub repo_url : Option String
  pub target_repo_path : Option String
  pub default_branch : String
  pub copy_files : List String
  pub brand_id : Option ℕ

pub record DriverRow : Type 0 where
  pub name : String
  pub config : DriverConfig
  pub issue_prompt_template : Option String
  pub context_layout : Option (String × String)

pub record SkillRow : Type 0 where
  pub name : String
  pub prompt_template : Option String

pub record PersonaRow : Type 0 where
  pub soul : Option String
  pub identity : Option String
  pub brand_id : Option ℕ

pub record Brand : Type 0 where
  pub tone_of_voice : Option String
  pub style_guide : Option String

pub record IsolationEnv : Type 0 where
  pub working_path : String
  pub artifacts_path : Option String

pub record AcquireParams : Type 0 where
  pub project_id : ℕ
  pub run_id : ℕ
  pub repo_path : String
  pub repo_url : String
  pub branch_name : String
  pub base_branch : String
  pub copy_files : List String
  pub artifacts_path : Option String

pub record PersonaInput : Type 0 where
  pub soul : Option String
  pub identity : Option String
  pub brand_tone_of_voice : Option String
  pub brand_style_guide : Option String

pub record MaterializeOptions : Type 0 where
  pub stage_run_id : ℕ
  pub context_layout : String × String
  pub persona : Option PersonaInput
  pub skill_name : String
  pub prompt_template : Option String
  pub issue_number : ℕ
  pub issue_title : String
  pub issue_body : Option String

-- How `executor.execute` ends.
pub data Execution : Type 0 where
  crashed : String → Execution
  exited : (exit_code : ℕ) → Execution

-- While a command runs, its output is appended as events and everybody else goes on writing: the run ends
-- in another store, and so does the commit. `meanwhile` is what others write between the check whether the
-- stage run was cancelled and its completion. `short_id` has the first eight characters of an id.
pub record RunnerPorts : Type 0 where
  pub short_id : ℕ → String
  pub project_row : ℕ → Db → Option RepoProject
  pub driver : (driver_id project_id : ℕ) → Db → Option DriverRow
  pub skill : (skill_id project_id : ℕ) → Db → Option SkillRow
  pub skill_of : (stage_run_id : ℕ) → Db → Option ℕ
  pub persona : (persona_id project_id : ℕ) → Db → Option PersonaRow
  pub brand : (brand_id project_id : ℕ) → Db → Option Brand
  pub routes : Db → Routes
  pub compile : String → Option (String → Bool)
  pub acquire : AcquireParams → Db → Result String IsolationEnv
  pub materialize : MaterializeOptions → Result String String
  pub process_env : String → Option String
  pub execute : BuiltCommand → (cwd : String) (timeout_ms : ℕ) → Db → Execution × Db
  pub commit_all : (working_path message : String) → Db → Result String (Option String) × Db
  pub meanwhile : Db → Db
