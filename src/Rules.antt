-- ===== src/Rules.antt =====
-- What the handlers of Msg.antt allow and refuse.
pub mod Awards
pub mod Gates
pub mod Bonds
pub mod Escrows
pub mod Payouts
pub mod Delivery
pub mod Votes
pub mod Stakes
pub mod Plurality
pub mod AnyOrder
pub mod Verifiers
pub mod Vouches
