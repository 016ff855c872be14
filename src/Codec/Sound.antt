-- ===== src/Codec/Sound.antt =====
-- packages/protocol/src/serialization.ts: the values that its decoders return.
pub mod Steps
pub mod Exact
pub mod Fields
pub mod Plans
pub mod Records
pub mod Nodes
pub mod Evidence
pub mod Runs
pub mod Coaching
pub mod Normal
pub mod Findings
pub mod Alternatives
pub mod Variants
pub mod Events
pub mod States
