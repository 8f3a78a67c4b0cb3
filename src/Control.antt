-- ===== src/Control.antt =====
-- src/server/routers/pipeline.ts, its mutations of runs and stage runs, and src/server/ownership.ts.
pub mod Access
pub mod Mutations
pub mod Guarded
pub mod Cancelled
pub mod Routes
pub mod Trigger
pub mod Seeded
mod Tests
