-- ===== src/Runner.antt =====
-- src/core/orchestrator/stage-runner.ts, stage-runner-env.ts and manual-run.ts: one stage, by a process.
pub mod Ports
pub mod Environment
pub mod Load
pub mod Execute
pub mod Manual
pub mod Completion
pub mod Branches
pub mod Settled
pub mod Ends
mod Tests
