-- ===== src/Acceptance.antt =====
-- Accepted commands of packages/core/src/engine.ts: `decideProjectCommand` beside `applyDomainEvent` on
-- the events that it emits.
pub mod Identity
pub mod RunStart
pub mod Chain
pub mod Frame
pub mod Comparing
pub mod Completion
pub mod Creation
pub mod Confirmation
pub mod Pairs
pub mod Commands
pub mod Timing
