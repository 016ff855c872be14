-- ===== src/Coherence.antt =====
-- Histories that `replayDomainEvents` of packages/core/src/engine.ts replays, and the batch that one
-- more command adds.
pub mod Marks
pub mod Scan
pub mod Fresh
pub mod Batches
pub mod Replay
