-- ===== src/Scopes.antt =====
-- src/core/services/resolve-scoped.ts: drivers, personas, skills and settings by scope.
pub mod Resolve
pub mod Specific
mod Tests
