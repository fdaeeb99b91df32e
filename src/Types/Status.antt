-- ===== src/Types/Status.antt =====
-- The status and resolution constants of chain/x/agntcoin/types/constants.go, and the tests by
-- which the handlers read them.
use ag3nt_coin.Base.{Bool, true, false}

pub data EscrowStatus : Type 0 where
  locked submitted disputed in_jury released refunded fail_attested challenged : EscrowStatus

pub data BondStatus : Type 0 where
  active released slashed : BondStatus

pub data DisputeStatus : Type 0 where
  pending resolved : DisputeStatus

-- `undecided` is the empty string of a dispute that is open.
pub data Resolution : Type 0 where
  undecided accept reject : Resolution

pub data GateStatus : Type 0 where
  accepting settled : GateStatus

abbrev pub is_locked : EscrowStatus → Bool
is_locked EscrowStatus.locked = true
is_locked _ = false

abbrev pub is_submitted : EscrowStatus → Bool
is_submitted EscrowStatus.submitted = true
is_submitted _ = false

abbrev pub is_disputed : EscrowStatus → Bool
is_disputed EscrowStatus.disputed = true
is_disputed _ = false

abbrev pub is_released : EscrowStatus → Bool
is_released EscrowStatus.released = true
is_released _ = false

abbrev pub is_fail_attested : EscrowStatus → Bool
is_fail_attested EscrowStatus.fail_attested = true
is_fail_attested _ = false

abbrev pub is_in_jury : EscrowStatus → Bool
is_in_jury EscrowStatus.in_jury = true
is_in_jury _ = false

abbrev pub is_challenged : EscrowStatus → Bool
is_challenged EscrowStatus.challenged = true
is_challenged _ = false

abbrev pub is_refunded : EscrowStatus → Bool
is_refunded EscrowStatus.refunded = true
is_refunded _ = false

abbrev pub is_active : BondStatus → Bool
is_active BondStatus.active = true
is_active _ = false

abbrev pub is_pending : DisputeStatus → Bool
is_pending DisputeStatus.pending = true
is_pending _ = false

abbrev pub is_accepting : GateStatus → Bool
is_accepting GateStatus.accepting = true
is_accepting _ = false

abbrev pub is_accept : Resolution → Bool
is_accept Resolution.accept = true
is_accept _ = false

abbrev pub is_reject : Resolution → Bool
is_reject Resolution.reject = true
is_reject _ = false
