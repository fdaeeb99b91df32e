-- ===== src/Types.antt =====
-- chain/x/agntcoin/types: the records of the store, with the protobuf fields' names, the constants
-- of the protocol, and the module's parameters. Unsigned fields are numbers below 2 ^ 64 and signed
-- ones bit patterns (Base/Words.antt). A status is one of the constants of constants.go.
mod Status
mod Records
mod Constants
pub mod Params
pub use Status.*
pub use Records.*
pub use Constants.*
