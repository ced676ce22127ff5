-- ===== src/Runs.antt =====
-- src/services/agent-runs.ts: the runs of agents.
pub mod Status
pub mod Store
pub mod Plan
pub mod Control
pub mod Create
mod Refinement
mod Timing
mod Effects
mod Tests
