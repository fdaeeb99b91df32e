-- ===== src/Supply.antt =====
-- Where the coins are: the balances of the accounts, and what the protocol holds in escrows, in
-- bonds and behind vouches. The children follow the sum through the handlers of Msg.antt.
pub mod Payments
pub mod Steps
pub mod Accounts
pub mod Vouches
pub mod Bonds
pub mod Escrows
pub mod Locking
pub mod Verifiers
pub mod Gates
pub mod Jury
pub mod Verdict
pub mod Records
use ag3nt_coin.Base.{ℕ, ◌+◌}
use ag3nt_coin.Base.Store
use ag3nt_coin.Base.Store.{uint_key, string_key}
use ag3nt_coin.Types.{Account, Vouch, Escrow, EscrowStatus, Bond, BondStatus}
use ag3nt_coin.Keeper.{State}

-- An escrow holds its amount until it is paid out.
abbrev pub held_amount : ℕ → EscrowStatus → ℕ
held_amount amount EscrowStatus.released = 0
held_amount amount EscrowStatus.refunded = 0
held_amount amount EscrowStatus.challenged = 0
held_amount amount _ = amount

abbrev pub held : Escrow → ℕ
held e = held_amount e.amount e.status

abbrev pub bonded_amount : ℕ → BondStatus → ℕ
bonded_amount amount BondStatus.active = amount
bonded_amount amount _ = 0

abbrev pub bonded : Bond → ℕ
bonded b = bonded_amount b.amount b.status

abbrev pub balance : Account → ℕ
balance a = a.balance

abbrev pub stake : Vouch → ℕ
stake v = v.stake

-- All coins in existence.
unfoldable pub supply : State → ℕ
supply s =
    Store.sum balance s.account
    + Store.sum held s.escrow
    + Store.sum bonded s.bond
    + Store.sum stake s.vouch
