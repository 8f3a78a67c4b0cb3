-- ===== src/Runs.antt =====
-- src/core/orchestrator/pipeline-run-service.ts: pipeline runs, stage runs and their events.
pub mod Service
pub mod Timeline
pub mod Slots
pub mod Limiter
pub mod Refinement
pub mod Traces
pub mod Limit
pub mod Attempts
mod Tests
