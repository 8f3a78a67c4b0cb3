-- ===== src/Deploy.antt =====
-- src/core/deploy and src/core/orchestrator/pipeline-terminal-hook.ts: what follows the end of a run.
pub mod Templates
pub mod Bridge
pub mod Hook
pub mod Kept
pub mod Published
pub mod Recorded
mod Tests
