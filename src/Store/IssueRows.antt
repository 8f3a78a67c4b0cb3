-- ===== src/Store/IssueRows.antt =====
-- The rows of issues and their catalogs (src/core/db/schema.ts).
use fluxaos.Prelude.{ℕ, String, Bool, Option, List, ◌==◌}

pub data IssueEventType : Type 0 where
  stage_started stage_completed stage_failed pipeline_completed pipeline_failed deploy_succeeded
        deploy_failed deploy_skipped gate_hold state_changed status_changed issue_created
        fields_updated comment_added comment_edited comment_deleted :
      IssueEventType

pub data Actor : Type 0 where
  orchestrator stage_runner manual_run deploy_bridge system : Actor
  user : String → Actor

pub record IssueState : Type 0 where
  pub id : ℕ
  pub project_id : ℕ
  pub key : String
  pub is_terminal : Bool
  pub is_active : Bool
  pub sort_order : ℕ

pub record IssueStatus : Type 0 where
  pub id : ℕ
  pub project_id : ℕ
  pub key : String

-- A jsonb value; fractions, negative numbers, arrays and objects are `other`.
pub data ConfigValue : Type 0 where
  null : ConfigValue
  text : String → ConfigValue
  whole : ℕ → ConfigValue
  boolean : Bool → ConfigValue
  other : ConfigValue

pub record ConfigEntry : Type 0 where
  pub project_id : Option ℕ
  pub key : String
  pub value : ConfigValue

pub record Issue : Type 0 where
  pub id : ℕ
  pub project_id : ℕ
  pub number : ℕ
  pub title : String
  pub body_md : Option String
  pub body_html : Option String
  pub state_id : ℕ
  pub status_id : ℕ
  pub type_id : ℕ
  pub priority_id : ℕ
  pub is_closed : Bool
  pub assignee : Option String
  pub author : String
  pub labels : List String
  pub version : ℕ
  pub closed_at : Option ℕ
  pub parent_issue_id : Option ℕ
  pub created_at : ℕ
  pub updated_at : ℕ

-- The payload of an issue event. `state` has the two states, whether the transition was an override,
-- and the child whose closing caused it; `fields` has the names of the fields that changed; `stage`, `exited`
-- and `redirected` are those of stage-runner.ts and manual-run.ts.
pub data Payload : Type 0 where
  created : String → Payload
  completed_run : (run_id : ℕ) → Payload
  failed_run : (run_id : ℕ) (reason failed_stage : String) → Payload
  blocked : (reason : String) (question : Option String) → Payload
  held : (stage_run_id : ℕ) (stage_name reason : String) → Payload
  state : (from_state to_state : ℕ) (override : Bool) (last_child : Option ℕ) → Payload
  status : (status_id : ℕ) (reason : Option String) → Payload
  fields : List String → Payload
  stage :
      (stage_run_id : ℕ) (stage_name : String) (signal : Option String) (exit_code : Option ℕ)
      → Payload
  exited : (run_id exit_code : ℕ) → Payload
  redirected : (reason target_state : String) → Payload

pub record IssueEvent : Type 0 where
  pub issue_id : ℕ
  pub actor : Actor
  pub type : IssueEventType
  pub payload : Payload

abbrev pub issue_has_id : ℕ → Issue → Bool
issue_has_id id i = i.id == id

abbrev pub state_has_id : ℕ → IssueState → Bool
state_has_id id s = s.id == id
