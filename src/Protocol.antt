-- ===== src/Protocol.antt =====
-- packages/protocol: the Result type, the branded primitives, the domain model.
mod Results
mod Primitives
mod Plans
mod Nodes
mod Runs
mod Coaching
mod Alternatives
mod Metadata
mod Commands
mod Events
mod State
mod Hashing
unfoldable pub use Results.*
unfoldable pub use Primitives.*
unfoldable pub use Plans.*
unfoldable pub use Nodes.*
unfoldable pub use Runs.*
unfoldable pub use Coaching.*
unfoldable pub use Alternatives.*
unfoldable pub use Metadata.*
unfoldable pub use Commands.*
unfoldable pub use Events.*
unfoldable pub use State.*
unfoldable pub use Hashing.*
