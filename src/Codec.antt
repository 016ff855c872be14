-- ===== src/Codec.antt =====
-- packages/protocol/src/serialization.ts and packages/protocol/src/primitives.ts: decoding of events
-- and states from JSON.
pub mod Makers
pub mod Values
pub mod Canonical
pub mod Grammar
pub mod Written
pub mod Order
pub mod Fields
pub mod Plans
pub mod Records
pub mod Nodes
pub mod Runs
pub mod Coaching
pub mod Alternatives
pub mod Events
pub mod States
pub mod Objects
pub mod Valid
pub mod RoundTrip
pub mod Sound
