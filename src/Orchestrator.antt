-- ===== src/Orchestrator.antt =====
-- src/core/orchestrator/event-orchestrator.ts: which runs are taken up, when, and from which stage.
pub mod Handlers
pub mod Claims
pub mod Handled
mod Tests
