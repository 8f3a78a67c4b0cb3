-- ===== src/Cleanup.antt =====
-- src/core/cleanup/cleanup-service.ts and cleanup-service-artifacts.ts: which worktrees and artifacts are removed.
pub mod Safety
pub mod Remove
pub mod Sweep
pub mod Reapable
pub mod Closed
pub mod Report
mod Tests
