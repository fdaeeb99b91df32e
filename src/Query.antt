-- ===== src/Query.antt =====
-- The query server: chain/x/agntcoin/keeper/query.go and the query_*.go files beside it. A query
-- reads the store and does not change it; `none` in the place of a request is a nil pointer.
pub mod Defs
pub mod Answers
pub mod Standing
pub use Defs.*
