-- ===== src/Runner/Load.antt =====
-- `executeStageRun` of src/core/orchestrator/stage-runner.ts, up to its `try`.
use Prim.Native.Char.{Char}
use fluxaos.Prelude.{
  ℕ, String, Option, none, some, List, [], ◌∷◌, chars, of_chars, find, update_where, ◌==◌, str_eq,
  if◌then◌else◌, Result, ok, err, ◌>>=◌,
}
use fluxaos.Store.{PipelineStage, PipelineRun, StageRun, Issue, Db, run_has_id, stage_run_has_id}
use fluxaos.Runs.Service.{get_run}
use fluxaos.Issues.Lookup.{find_issue}
use fluxaos.Executor.Ports.{given}
use fluxaos.Routing.Resolver.{ResolvedRouting, resolve}
use fluxaos.Commands.Template.{render_template}
use fluxaos.Runner.Ports.{
  RepoProject, DriverRow, SkillRow, PersonaRow, Brand, IsolationEnv, PersonaInput,
  MaterializeOptions, RunnerPorts,
}
use fluxaos.Runner.Environment.{
  or_throw, resolve_project_id, acquire_isolation_env, resolve_stage_brand,
}

pub record Loaded : Type 0 where
  pub run : PipelineRun
  pub s_run : StageRun
  pub stage : PipelineStage
  pub issue : Option Issue
  pub project_id : ℕ
  pub driver : DriverRow
  pub template : String
  pub skill : Option SkillRow
  pub routing : ResolvedRouting
  pub persona : Option PersonaRow

-- Only a missing driver leaves an event behind.
pub data LoadError : Type 0 where
  no_driver refused : (text : String) → LoadError

abbrev pub or_refuse {ℓ} : {A : Type ℓ} → Option A → String → Result LoadError A
or_refuse none text = err (refused text)
or_refuse (some a) text = ok a

abbrev pub or_no_driver : Option DriverRow → Result LoadError DriverRow
or_no_driver none = err (no_driver "No driver configured for stage")
or_no_driver (some d) = ok d

abbrev pub issue_of_run : Option ℕ → Db → Option Issue
issue_of_run none db = none
issue_of_run (some id) db = find_issue id db

-- `id ? catalog.resolveEffectiveById(id) : null`
abbrev pub if_set {ℓ} : {A : Type ℓ} → Option ℕ → (ℕ → Option A) → Option A
if_set none f = none
if_set (some id) f = f id

unfoldable pub load : RunnerPorts → (run_id stage_run_id : ℕ) → Db → Result LoadError Loaded
unfolding get_run find_issue resolve_project_id
load ports run_id stage_run_id db = do
  run ← or_refuse (get_run run_id db) "Pipeline run not found"
  s_run ← or_refuse (find (stage_run_has_id stage_run_id) db.stage_runs) "Stage run not found"
  stage ←
      or_refuse (find (λ (s : PipelineStage). s.id == s_run.pipeline_stage_id) db.stages)
        "Pipeline stage not found"
  let issue = issue_of_run run.issue_id db
  project_id ←
      or_refuse (resolve_project_id issue run.pipeline_id db)
        "Stage-runner cannot run without a projectId"
  scope ← or_refuse (ports.project_row project_id db) "Project not found for scope resolution"
  driver ← or_no_driver (if_set stage.driver_id (λ id. ports.driver id project_id db))
  format ←
      or_refuse (given (some driver.config.output_format)) "Driver has no output_format configured"
  template ← or_refuse (given driver.issue_prompt_template) "Driver is missing issuePromptTemplate"
  routing ←
      or_refuse (resolve ports.compile (ports.routes db) stage.id project_id)
        "No routing model resolved for stage"
  identifier ←
      or_refuse (given (some routing.model_identifier)) "No routing model resolved for stage"
  ok (record {
    run = run;
    s_run = s_run;
    stage = stage;
    issue = issue;
    project_id = project_id;
    driver = driver;
    template = template;
    skill = if_set (ports.skill_of s_run.id db) (λ id. ports.skill id project_id db);
    routing = routing;
    persona = if_set stage.persona_id (λ id. ports.persona id project_id db);
  })

pub record Workspace : Type 0 where
  pub env : IsolationEnv
  pub path : String

abbrev set_artifacts_path : String → PipelineRun → PipelineRun
set_artifacts_path path r = record r { artifacts_path = some path }

-- The path of every acquisition is written, whether the run has one or not.
abbrev pub mirror_artifacts : Option String → ℕ → Db → Db
mirror_artifacts none run_id db = db
mirror_artifacts (some path) run_id db = record db {
  runs = update_where (run_has_id run_id) (set_artifacts_path path) db.runs;
}

abbrev tone_of : Option Brand → Option String
tone_of none = none
tone_of (some b) = b.tone_of_voice

abbrev style_of : Option Brand → Option String
style_of none = none
style_of (some b) = b.style_guide

abbrev persona_input : Option PersonaRow → Option Brand → Option PersonaInput
persona_input none none = none
persona_input none (some b) = some (record {
  soul = none;
  identity = none;
  brand_tone_of_voice = b.tone_of_voice;
  brand_style_guide = b.style_guide;
})
persona_input (some p) brand = some (record {
  soul = p.soul;
  identity = p.identity;
  brand_tone_of_voice = tone_of brand;
  brand_style_guide = style_of brand;
})

abbrev brand_of_persona : Option PersonaRow → Option ℕ
brand_of_persona none = none
brand_of_persona (some p) = p.brand_id

abbrev pub skill_name : Option SkillRow → String → String
skill_name none stage_name = stage_name
skill_name (some s) stage_name = s.name

abbrev pub or_blank : Option String → String
or_blank none = ""
or_blank (some s) = s

-- `renderTemplate` with these values, by name.
abbrev pub lookup_variable : List (String × String) → String → Option String
lookup_variable [] key = none
lookup_variable ((name, value) ∷ rest) key =
    if str_eq name key then some value else lookup_variable rest key

abbrev chars_of : Option String → Option (List Char)
chars_of none = none
chars_of (some s) = some (chars s)

unfoldable pub render : List (String × String) → String → String
unfolding render_template
render variables template =
    of_chars (
      render_template (λ key. chars_of (lookup_variable variables (of_chars key))) (chars template))

abbrev rendered_skill : Option SkillRow → IsolationEnv → Option String
rendered_skill none env = none
rendered_skill (some s) env = elim (given s.prompt_template) [
  | none ↦ none
  | some template ↦ some (
      render
        (("artifacts_path", or_blank env.artifacts_path)
          ∷ ("workspace_path", env.working_path)
          ∷ ("skill_name", s.name)
          ∷ [])
        template)
]

abbrev issue_number_of : Option Issue → Option ℕ
issue_number_of none = none
issue_number_of (some i) = some i.number

abbrev pub options_of : Loaded → IsolationEnv → Option Brand → String × String → MaterializeOptions
options_of l env brand layout = record {
  stage_run_id = l.s_run.id;
  context_layout = layout;
  persona = persona_input l.persona brand;
  skill_name = skill_name l.skill l.stage.name;
  prompt_template = rendered_skill l.skill env;
  issue_number = elim l.issue [ none ↦ 0 | some i ↦ i.number ];
  issue_title = elim l.issue [ none ↦ "No issue context" | some i ↦ i.title ];
  issue_body = elim l.issue [ none ↦ none | some i ↦ i.body_md ];
}

abbrev pub materialized :
    RunnerPorts → Loaded → IsolationEnv → RepoProject → Db → Result String Workspace
materialized ports l env project db = do
  let brand =
      resolve_stage_brand ports l.project_id (brand_of_persona l.persona) project.brand_id db
  layout ← or_throw l.driver.context_layout "Driver is missing contextLayout"
  path ← ports.materialize (options_of l env brand layout)
  ok (record { env = env; path = path })

abbrev pub in_env :
    RunnerPorts
    → Loaded
    → Result String (IsolationEnv × RepoProject)
    → Db
    → Result String Workspace × Db
in_env ports l (err text) db = (err text, db)
in_env ports l (ok (env, project)) db =
    (materialized ports l env project db, mirror_artifacts (given env.artifacts_path) l.run.id db)

unfoldable pub prepare : RunnerPorts → Loaded → Db → Result String Workspace × Db
unfolding acquire_isolation_env resolve_stage_brand render
prepare ports l db =
    in_env ports l (acquire_isolation_env ports l.project_id l.run (issue_number_of l.issue) db) db
