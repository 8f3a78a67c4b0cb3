-- ===== src/Executor.antt =====
-- src/core/orchestrator/stage-executor.ts with run-helpers.ts: a run goes from stage to stage.
pub mod Ports
pub mod Prompt
pub mod Finish
pub mod Route
pub mod Launch
pub mod Steps
pub mod Ends
pub mod Returns
pub mod Given
pub mod Verdicts
pub mod Launches
pub mod Sample
mod Tests
