-- ===== src/Routing.antt =====
-- src/core/orchestrator/routing-resolver.ts: the model and the driver of a stage.
pub mod Resolver
pub mod Routed
pub mod Pick
pub mod Chosen
mod Tests
