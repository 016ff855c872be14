-- ===== src/Engine.antt =====
-- packages/core/src/engine.ts: commands are decided, events are applied, histories are replayed.
pub mod Errors
pub mod Lookup
pub mod Journal
pub mod Nodes
pub mod Projects
pub mod Runs
pub mod Coaching
pub mod Comparisons
pub mod Decisions
pub mod Apply
pub mod Decide
pub mod Replay
pub mod Outcomes
pub mod Graph
pub mod Divergence
