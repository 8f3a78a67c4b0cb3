-- ===== src/Gates.antt =====
-- src/core/gates: the rules engine (types.ts, engine.ts) and the service that stores its results.
pub mod Rules
pub mod Operators
pub mod Engine
pub mod Meaning
pub mod Worst
pub mod Verdict
pub mod Paths
mod Tests
