-- ===== src/Msg.antt =====
-- The message handlers of chain/x/agntcoin/keeper, one child for each part of the protocol. Each is
-- a function of the surroundings (Keeper/Defs.antt) and the message, and has the handler's tests in
-- the handler's order.
pub mod Accounts
pub mod Vouches
pub mod Bonds
pub mod Escrows
pub mod Verifiers
pub mod Jury
pub mod Verdict
pub mod Gates
pub mod Contributions
pub mod Evidence
pub mod Governance
