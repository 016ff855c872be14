-- ===== src/Graph.antt =====
-- `validateNodeGraph` of packages/core/src/engine.ts on the Nodes that the engine registers.
pub mod Climb
pub mod Filter
pub mod Valid
pub mod Projects
