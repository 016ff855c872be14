-- ===== src/History.antt =====
-- What events that packages/core/src/engine.ts applies do to the state: their effects, the journal of
-- processed commands, retries, growth.
pub mod Effect
pub mod Journal
pub mod Emitted
pub mod Kept
pub mod Retry
pub mod Growth
