-- ===== src/Invariant.antt =====
-- The ids of the keeper's records: a record stands under its own id, below the next id.
pub mod Records
use ag3nt_coin.Base.{ℕ, ◌<◌, ◌≡◌}
use ag3nt_coin.Base.Store.{Store, uint_key}
use ag3nt_coin.Base.Store.Distinct.{IsDistinct}
use ag3nt_coin.Base.Store.Entries.{All}
use ag3nt_coin.Types.{Vouch, Escrow, Bond, Dispute, Gate}
use ag3nt_coin.Keeper.{State}

abbrev pub HasId : {V : Type 0} → (V → ℕ) → ℕ → ℕ → V → Type 0
HasId id next k v = (id v ≡ k) × (k < next)

abbrev pub IsNumbered : {V : Type 0} → (V → ℕ) → ℕ → Store ℕ V → Type 0
IsNumbered id next m = All (HasId id next) m

abbrev pub vouch_id : Vouch → ℕ
vouch_id v = v.id

abbrev pub escrow_id : Escrow → ℕ
escrow_id e = e.id

abbrev pub bond_id : Bond → ℕ
bond_id b = b.id

abbrev pub dispute_id : Dispute → ℕ
dispute_id d = d.id

abbrev pub gate_id : Gate → ℕ
gate_id g = g.id

pub record IsWellFormed (s : State) : Type 0 where
  pub vouches : IsNumbered vouch_id s.vouch_seq s.vouch
  pub distinct : IsDistinct s.vouch
  pub escrows : IsNumbered escrow_id s.escrow_seq s.escrow
  pub disputes : IsNumbered dispute_id s.dispute_seq s.dispute
  pub bonds : IsNumbered bond_id s.bond_seq s.bond
  pub gates : IsNumbered gate_id s.gate_seq s.gate
