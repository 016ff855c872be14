-- ===== src/Invariant.antt =====
-- Invariants of the states that `replayDomainEvents` of packages/core/src/engine.ts reaches.
pub mod Passed
pub mod Induction
pub mod Forest
pub mod Nodes
pub mod Decided
pub mod Ids
pub mod Passing
pub mod Distinct
pub mod Coverage
