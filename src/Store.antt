-- ===== src/Store.antt =====
-- The database (src/core/db/schema.ts): the tables that the modelled services read and write.
mod RunRows
mod IssueRows
pub use RunRows.*
pub use IssueRows.*
use fluxaos.Prelude.{ℕ, String, List, Option}

pub record Pipeline : Type 0 where
  pub id : ℕ
  pub project_id : ℕ

pub record Project : Type 0 where
  pub id : ℕ
  pub name : String
  pub default_pipeline_id : Option ℕ
  pub repo_url : Option String
  pub default_branch : String

-- `now` is what the clock shows, and `next_id` what the database gives to the next row.
pub record Db : Type 0 where
  pub projects : List Project
  pub pipelines : List Pipeline
  pub stages : List PipelineStage
  pub runs : List PipelineRun
  pub stage_runs : List StageRun
  pub events : List Event
  pub issues : List Issue
  pub states : List IssueState
  pub statuses : List IssueStatus
  pub config : List ConfigEntry
  pub issue_events : List IssueEvent
  pub next_id : ℕ
  pub now : ℕ
