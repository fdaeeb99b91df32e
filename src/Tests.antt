-- ===== src/Tests.antt =====
-- A small chain on which the theorems are applied, and runs of the handlers on it.
pub mod Fixtures
mod Coins
mod Minting
mod Lives
mod Behaviour
mod Ledger
mod Standing
mod Settling
