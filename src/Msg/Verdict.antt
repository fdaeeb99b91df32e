-- ===== src/Msg/Verdict.antt =====
-- msg_server_resolve_dispute.go of chain/x/agntcoin/keeper: the tally, and the settlement of the
-- escrow, of the opener's bond, of the jurors' stakes and of the verifiers' stakes.
use ag3nt_coin.Base.{
  ℕ, suc, ◌+◌, ◌/◌, String, Bool, true, false, Option, none, some, List, [], ◌∷◌, not, ltb, length,
  ◌==◌, ◌&&◌, ◌||◌, str_eq, bool_eq, if◌then◌else◌,
}
use ag3nt_coin.Exec.{
  Exec, bad_address, invalid_request, key_not_found, io, pure, gets, or_raise, raise_if, modify,
  ◌>>=◌, ◌>>◌,
}
use ag3nt_coin.Types.{
  Escrow, EscrowStatus, Attestation, Bond, BondStatus, Dispute, DisputeStatus, Resolution, Vote,
  is_pending, is_in_jury, is_challenged, is_accept, is_reject,
}
use ag3nt_coin.Keeper.{State, Env, read, escrow_of, put_escrow, dispute_of, put_dispute}
use ag3nt_coin.Keeper.Anchors.{resolve_anchors}
use ag3nt_coin.Msg.Bonds.{settle_bond}
use ag3nt_coin.Msg.Escrows.{pay_payee, pay_payer}
use ag3nt_coin.Msg.Verifiers.{live_bond, attestation_purpose}
use ag3nt_coin.Msg.Jury.{dispute_purpose, juror_purpose}

-- The votes on one side.
unfoldable pub count_votes : Bool → List Vote → ℕ
count_votes side [] = 0
count_votes side (v ∷ rest) =
    let n = count_votes side rest in if bool_eq v.accept side then suc n else n

-- A strict majority of the eligible jurors.
unfoldable pub quorum_of : ℕ → ℕ
quorum_of n_jurors = n_jurors / 2 + 1

unfoldable pub verdict : List Vote → Resolution
verdict votes =
    if ltb (count_votes false votes) (count_votes true votes)
    then Resolution.accept
    else Resolution.reject

-- The escrow's money by the verdict, and the escrow that is stored. After a release that was
-- challenged no money moves.
unfoldable pub settle_escrow : Env → Escrow → Resolution → Exec State Escrow
settle_escrow env escrow resolution =
    if is_challenged escrow.status
    then pure (record escrow { status = EscrowStatus.released })
    else if is_accept resolution
    then (do
      pay_payee env escrow
      pure (record escrow { status = EscrowStatus.released; released_at = env.block_time }))
    else (do pay_payer env escrow; pure (record escrow { status = EscrowStatus.refunded }))

-- The verdict went the opener's way.
unfoldable pub opener_upheld : Dispute → Escrow → Resolution → Bool
opener_upheld d e resolution =
    (str_eq d.opener e.payer && is_reject resolution)
    || (str_eq d.opener e.payee && is_accept resolution)

-- The first verifier that passed the work, or `otherwise`.
unfoldable pub first_passed : String → List Attestation → String
first_passed otherwise [] = otherwise
first_passed otherwise (a ∷ rest) =
    let r = first_passed otherwise rest in if a.passed then a.verifier else r

-- Who gets the opener's bond.
unfoldable pub bond_recipient : Bool → Dispute → Escrow → Resolution → String
bond_recipient challenged d e resolution =
    if opener_upheld d e resolution
    then d.opener
    else let counterparty = if str_eq d.opener e.payer then e.payee else e.payer in
      if challenged then first_passed counterparty e.attestations else counterparty

unfoldable pub settled_status : Bool → BondStatus
settled_status true = BondStatus.released
settled_status false = BondStatus.slashed

-- A bond that is not live is passed over.
unfoldable pub settle_if_live : String → BondStatus → Option Bond → Exec State (Unit {0})
settle_if_live recipient status none = pure tt
settle_if_live recipient status (some bond) = settle_bond recipient status bond

unfoldable pub settle_dispute_bond : Bool → Dispute → Escrow → Resolution → Exec State (Unit {0})
settle_dispute_bond challenged d e resolution = do
  bond ← gets (live_bond (dispute_purpose d.id) d.bond_id)
  settle_if_live (bond_recipient challenged d e resolution)
      (settled_status (opener_upheld d e resolution)) bond

-- A stake by a verdict that agrees with the jury's goes back; any other goes to the winner.
unfoldable pub settle_stake : String → ℕ → String → Bool → String → Exec State (Unit {0})
settle_stake purpose bond_id holder coherent winner = do
  bond ← gets (live_bond purpose bond_id)
  settle_if_live (if coherent then holder else winner) (settled_status coherent) bond

unfoldable pub settle_votes : String → Bool → String → List Vote → Exec State (Unit {0})
settle_votes purpose accepted winner [] = pure tt
settle_votes purpose accepted winner (v ∷ rest) = do
  settle_stake purpose v.bond_id v.juror (bool_eq v.accept accepted) winner
  settle_votes purpose accepted winner rest

unfoldable pub settle_attestations :
    String → Bool → String → List Attestation → Exec State (Unit {0})
settle_attestations purpose accepted winner [] = pure tt
settle_attestations purpose accepted winner (a ∷ rest) = do
  settle_stake purpose a.bond_id a.verifier (bool_eq a.passed accepted) winner
  settle_attestations purpose accepted winner rest

-- The party that the verdict favours.
unfoldable pub winner_of : Escrow → Resolution → String
winner_of e resolution = if is_accept resolution then e.payee else e.payer

-- The handler's steps after the escrow is stored.
unfoldable pub finish_dispute : Bool → Dispute → Escrow → Resolution → Exec State Resolution
finish_dispute challenged d e resolution = do
  settle_dispute_bond challenged d e resolution
  settle_votes (juror_purpose d.id) (is_accept resolution) (winner_of e resolution) d.votes
  settle_attestations (attestation_purpose e.id) (is_accept resolution) (winner_of e resolution)
      e.attestations
  modify (put_dispute d.id (record d { status = DisputeStatus.resolved; resolution = resolution }))
  pure resolution

unfoldable pub resolve_dispute : Env → String → ℕ → Exec State Resolution
resolve_dispute env creator dispute_id = do
  or_raise (env.string_to_bytes creator) bad_address
  dispute ← read (dispute_of dispute_id) key_not_found
  raise_if (not (is_pending dispute.status)) invalid_request
  params ← read (λ s. s.params) io
  raise_if (ltb (length dispute.votes) (quorum_of (length (resolve_anchors env params.anchors))))
      invalid_request
  raise_if (count_votes true dispute.votes == count_votes false dispute.votes) invalid_request
  escrow ← read (escrow_of dispute.escrow_id) io
  raise_if (not (is_in_jury escrow.status) && not (is_challenged escrow.status)) invalid_request
  settled ← settle_escrow env escrow (verdict dispute.votes)
  modify (put_escrow escrow.id settled)
  finish_dispute (is_challenged escrow.status) dispute settled (verdict dispute.votes)
