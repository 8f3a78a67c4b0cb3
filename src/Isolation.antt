-- ===== src/Isolation.antt =====
-- src/adapters/git/worktree-isolation-provider.ts: the worktree that a run works in.
pub mod Config
pub mod Ports
pub mod Paths
pub mod Provider
pub mod Steps
pub mod Acquired
pub mod Reuse
pub mod Released
pub mod Sample
mod Tests
