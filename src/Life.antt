-- ===== src/Life.antt =====
-- The life cycle of an escrow, as a specification: which status may follow which, and what does not
-- change. The children compare the handlers of Msg.antt with it.
pub mod Frames
pub mod Edges
pub mod Steps
pub mod Handlers
pub mod Disputes
pub mod Runs
use ag3nt_coin.Base.{ℕ, String, Bool, List, ◌≡◌, some}
use ag3nt_coin.Base.Store.{Store}
use ag3nt_coin.Types.{Escrow, EscrowStatus}
use ag3nt_coin.Keeper.{State, escrow_of}

-- The edges of the life cycle, and staying put.
pub data Moves : EscrowStatus → EscrowStatus → Type 0 where
  stays : {a : EscrowStatus} → Moves a a
  submits : Moves EscrowStatus.locked EscrowStatus.submitted
  disputes : Moves EscrowStatus.submitted EscrowStatus.disputed
  fails : Moves EscrowStatus.submitted EscrowStatus.fail_attested
  releases_locked : Moves EscrowStatus.locked EscrowStatus.released
  releases_submitted : Moves EscrowStatus.submitted EscrowStatus.released
  releases_disputed : Moves EscrowStatus.disputed EscrowStatus.released
  releases_failed : Moves EscrowStatus.fail_attested EscrowStatus.released
  refunds_locked : Moves EscrowStatus.locked EscrowStatus.refunded
  refunds_failed : Moves EscrowStatus.fail_attested EscrowStatus.refunded
  freezes_submitted : Moves EscrowStatus.submitted EscrowStatus.in_jury
  freezes_disputed : Moves EscrowStatus.disputed EscrowStatus.in_jury
  freezes_failed : Moves EscrowStatus.fail_attested EscrowStatus.in_jury
  challenges : Moves EscrowStatus.released EscrowStatus.challenged
  accepts : Moves EscrowStatus.in_jury EscrowStatus.released
  rejects : Moves EscrowStatus.in_jury EscrowStatus.refunded
  upholds : Moves EscrowStatus.challenged EscrowStatus.released

-- What LockEscrow fixes for good.
pub record Terms : Type 0 where
  pub id : ℕ
  pub payer : String
  pub payee : String
  pub amount : ℕ
  pub ref : String
  pub deadline : ℕ
  pub no_auto_release : Bool
  pub verifier_addrs : List String
  pub verifier_quorum : ℕ
  pub acceptance_hash : String

abbrev pub terms : Escrow → Terms
terms e = record {
  id = e.id;
  payer = e.payer;
  payee = e.payee;
  amount = e.amount;
  ref = e.ref;
  deadline = e.deadline;
  no_auto_release = e.no_auto_release;
  verifier_addrs = e.verifier_addrs;
  verifier_quorum = e.verifier_quorum;
  acceptance_hash = e.acceptance_hash;
}

pub record Follows (e e' : Escrow) : Type 0 where
  pub same_terms : terms e' ≡ terms e
  pub moves : Moves e.status e'.status

-- Every escrow is still there, and has followed the life cycle by one edge at most.
abbrev pub Evolves : State → State → Type 0
Evolves s s' =
    (k : ℕ) (e : Escrow)
    → escrow_of k s ≡ some e
    → (e' : Escrow) × (escrow_of k s' ≡ some e') × Follows e e'

-- The escrows and the next id; a handler that leaves them alone keeps `SameEscrows`.
abbrev pub Escrows : Type 0
Escrows = Store ℕ Escrow × ℕ

abbrev pub escrows_of : State → Escrows
escrows_of s = (s.escrow, s.escrow_seq)

abbrev pub SameEscrows : Escrows → State → Type 0
SameEscrows m s = escrows_of s ≡ m
