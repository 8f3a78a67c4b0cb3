-- ===== src/Issues.antt =====
-- src/core/services/issue.ts: the life of an issue.
pub mod Lookup
pub mod Writes
pub mod Service
pub mod Levels
pub mod Closing
pub mod Climb
pub mod Moves
pub mod Versions
pub mod Numbers
pub mod Consistency
mod Tests
