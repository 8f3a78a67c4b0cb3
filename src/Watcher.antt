-- ===== src/Watcher.antt =====
-- src/core/orchestrator/issue-watcher.ts: open issues get a pipeline run by themselves.
pub mod Dispatch
pub mod Sweep
pub mod Tasks
mod Tests
