-- ===== src/Executor/Sample.antt =====
-- A pipeline of two stages with a run, for src/core/orchestrator.
use fluxaos.Prelude.{ℕ, String, true, false, Option, none, some, List, [], ◌∷◌, ok}
use fluxaos.Store.{
  PipelineRunStatus, StageRunStatus, GateMode, PipelineRun, PipelineStage, StageRun, Issue, Db,
}
use fluxaos.Executor.Ports.{Ports, World, returned, invalid}

abbrev pub stage_of : ℕ → String → Option String → Option String → PipelineStage
stage_of id name on_pass fallback = record {
  id = id;
  pipeline_id = 1;
  name = name;
  sort_order = id;
  persona_id = some 1;
  driver_id = some 1;
  timeout_sec = 300;
  max_retries = some 1;
  gate_mode = GateMode.auto;
  on_pass = on_pass;
  on_fail = none;
  fallback = fallback;
}

abbrev pub build : PipelineStage
build = stage_of 1 "build" (some "review") (some "__blocked__")

abbrev pub review : PipelineStage
review = stage_of 2 "review" (some "__complete__") none

abbrev pub the_issue : Issue
the_issue = record {
  id = 5;
  project_id = 1;
  number = 1;
  title = "t";
  body_md = none;
  body_html = none;
  state_id = 1;
  status_id = 1;
  type_id = 1;
  priority_id = 1;
  is_closed = false;
  assignee = none;
  author = "system";
  labels = [];
  version = 1;
  closed_at = none;
  parent_issue_id = none;
  created_at = 0;
  updated_at = 0;
}

abbrev pub the_run : PipelineRun
the_run = record {
  id = 3;
  pipeline_id = 1;
  issue_id = some 5;
  status = PipelineRunStatus.running;
  started_at = none;
  completed_at = none;
  total_cost_usd = 0;
  artifacts_path = some "/a";
  created_at = 0;
  updated_at = 0;
}

abbrev pub start_db : Db
start_db = record {
  projects =
      record {
        id = 1;
        name = "p";
        default_pipeline_id = none;
        repo_url = some "u";
        default_branch = "main";
      }
      ∷ [];
  pipelines = record { id = 1; project_id = 1 } ∷ [];
  stages = build ∷ review ∷ [];
  runs = the_run ∷ [];
  stage_runs = [];
  events = [];
  issues = the_issue ∷ [];
  states = [];
  statuses = [];
  config = [];
  issue_events = [];
  next_id = 10;
  now = 100;
}

abbrev pub start_world : World
start_world = record { db = start_db; terminals = [] }

-- Every driver answers with a document that is not valid; `change` is what else happens meanwhile.
abbrev pub ports_with : (Db → Db) → Ports
ports_with change = record {
  driver = λ d p db.
      some (record { binary = some "agent"; prompt_transport = "stdin"; default_args = some [] });
  persona = λ i p db. some (record { soul = some "soul" });
  skills = λ p db. [];
  acquire = λ p r n db. ok (record { working_path = "/w"; artifacts_path = some "/a" });
  has_config = true;
  has_runner = true;
  run = λ i db. (returned "out" none, change db);
  parse = λ text. some (invalid none);
  on_terminal = λ r p s db. db;
}

abbrev pub quiet : Ports
quiet = ports_with (λ db. db)

abbrev pub cancel : StageRun → StageRun
cancel s = record s { status = StageRunStatus.cancelled }

abbrev pub cancel_all : List StageRun → List StageRun
cancel_all [] = []
cancel_all (s ∷ rest) = cancel s ∷ cancel_all rest

abbrev pub cancelling : Ports
cancelling = ports_with (λ db. record db { stage_runs = cancel_all db.stage_runs })
