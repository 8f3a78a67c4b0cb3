-- ===== src/Commands.antt =====
-- src/core/orchestrator/command-builder.ts: prompt templates and command lines.
pub mod Template
pub mod Build
pub mod Rendered
mod Tests
