-- ===== src/Keeper.antt =====
-- chain/x/agntcoin/keeper: the keeper's store (keeper.go), what a handler gets from outside the
-- module, and the helpers that several handlers share. The children have the helpers of credit.go,
-- hash.go, emission.go, genesis.go, pagerank.go, reputation_score.go and query_reputation.go.
--
-- Not modelled: the encoding of the store, its I/O errors (a read fails only where nothing is
-- stored), and the events that a handler emits.
mod Defs
mod Collections
pub mod Hash
pub mod Anchors
pub mod Credit
pub mod Emission
pub mod Genesis
pub mod PageRank
pub mod Reputation
pub use Defs.*
unfoldable pub use Collections.*
