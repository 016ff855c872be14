-- ===== src/Tests.antt =====
-- A small history, run through the engine of packages/core/src/engine.ts, and the
-- theorems at its states.
mod Sample
mod Run
mod Commands
mod Histories
mod Divergences
mod Auth
mod Codec
