-- ===== src/Codec/RoundTrip.antt =====
-- packages/protocol/src/serialization.ts: what its decoders read back.
pub mod Arrays
pub mod Canonical
pub mod Plans
pub mod Records
pub mod Nodes
pub mod Runs
pub mod Coaching
pub mod Alternatives
pub mod Events
pub mod States
