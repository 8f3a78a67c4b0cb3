-- ===== src/Agents.antt =====
-- src/core/agents: groups of children that run side by side, and stages that run in a loop.
pub mod Parallel
pub mod Loop
pub mod First
mod Tests
