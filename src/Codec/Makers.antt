-- ===== src/Codec/Makers.antt =====
-- packages/protocol/src/primitives.ts: the constructors of the branded strings and numbers, on values
-- of the type `unknown`. Where the source passes no field name, the constructor takes none.
mod Ids
mod Git
mod Texts
unfoldable pub use Ids.*
unfoldable pub use Git.*
unfoldable pub use Texts.*
