-- ===== src/Content.antt =====
-- Content items: src/services/content-lifecycle.ts and src/services/workflow.ts.
pub mod Lifecycle
pub mod Workflow
pub mod Review
mod Tests
mod ReviewTests
