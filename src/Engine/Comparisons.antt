-- ===== src/Engine/Comparisons.antt =====
-- packages/core/src/engine.ts: comparing alternatives.
mod Resolution
mod Cohorts
unfoldable pub use Resolution.*
unfoldable pub use Cohorts.*
