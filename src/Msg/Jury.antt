-- ===== src/Msg/Jury.antt =====
-- msg_server_open_dispute.go and msg_server_cast_vote.go of chain/x/agntcoin/keeper.
use Prim.Native.String.{◌++◌ as text_append}
use ag3nt_coin.Base.{
  ℕ, String, Bool, false, List, [], ◌∷◌, ◌++◌, not, ltb, length, ◌==◌, ◌&&◌, ◌||◌, str_eq,
}
use ag3nt_coin.Base.Words.{sle}
use ag3nt_coin.Base.Text.{format_uint}
use ag3nt_coin.Exec.{
  Exec, bad_address, invalid_request, insufficient_funds, key_not_found, unauthorized, io, pure,
  raise, gets, or_raise, raise_if, modify, ◌>>=◌, ◌>>◌,
}
use ag3nt_coin.Types.{
  Escrow, EscrowStatus, Dispute, DisputeStatus, Resolution, Vote, is_pending, min_dispute_bond,
  min_juror_stake,
}
use ag3nt_coin.Types.Params.{contains}
use ag3nt_coin.Keeper.{
  State, Env, read, account_of, escrow_of, put_escrow, dispute_of, put_dispute, add_dispute,
}
use ag3nt_coin.Keeper.Anchors.{resolve_anchors}
use ag3nt_coin.Msg.Bonds.{lock_bond}

pub record MsgOpenDispute : Type 0 where
  pub creator : String
  pub escrow_id : ℕ
  pub reason : String
  pub bond_amount : ℕ

-- What the escrow moves to while the jury sits, by the status that it has.
unfoldable pub freeze : ℕ → String → Escrow → EscrowStatus → Exec State EscrowStatus
freeze now creator e EscrowStatus.submitted = pure EscrowStatus.in_jury
freeze now creator e EscrowStatus.disputed = pure EscrowStatus.in_jury
freeze now creator e EscrowStatus.fail_attested = do
  raise_if (not (str_eq creator e.payee)) unauthorized
  raise_if (sle e.challenge_deadline now) invalid_request
  pure EscrowStatus.in_jury
freeze now creator e EscrowStatus.released = do
  raise_if (not (str_eq creator e.payer)) unauthorized
  raise_if ((length e.attestations == 0) || (e.challenge_deadline == 0)) invalid_request
  raise_if (sle e.challenge_deadline now) invalid_request
  pure EscrowStatus.challenged
freeze now creator e _ = raise invalid_request

unfoldable pub dispute_purpose : ℕ → String
dispute_purpose id = text_append "dispute:" (format_uint id)

-- The dispute that is stored.
abbrev pub new_dispute : MsgOpenDispute → ℕ → ℕ → Dispute
new_dispute msg bond_id id = record {
  id = id;
  escrow_id = msg.escrow_id;
  opener = msg.creator;
  reason = msg.reason;
  status = DisputeStatus.pending;
  resolution = Resolution.undecided;
  votes = [];
  bond_id = bond_id;
}

unfoldable pub open_dispute : Env → MsgOpenDispute → Exec State ℕ
open_dispute env msg = do
  or_raise (env.string_to_bytes msg.creator) bad_address
  escrow ← read (escrow_of msg.escrow_id) key_not_found
  raise_if (not (str_eq msg.creator escrow.payer) && not (str_eq msg.creator escrow.payee))
      unauthorized
  frozen_status ← freeze env.block_time msg.creator escrow escrow.status
  raise_if (ltb msg.bond_amount min_dispute_bond) invalid_request
  opener ← read (account_of msg.creator) invalid_request
  raise_if (not opener.registered) invalid_request
  raise_if (ltb opener.balance msg.bond_amount) insufficient_funds
  id ← gets (λ s. s.dispute_seq)
  bond_id ←
      lock_bond opener msg.creator msg.bond_amount (dispute_purpose id) ""
        (format_uint msg.escrow_id)
  modify (add_dispute (new_dispute msg bond_id))
  modify (put_escrow escrow.id (record escrow { status = frozen_status }))
  pure id

pub record MsgCastVote : Type 0 where
  pub creator : String
  pub dispute_id : ℕ
  pub accept : Bool
  pub stake_amount : ℕ

unfoldable pub has_voted : String → List Vote → Bool
has_voted addr [] = false
has_voted addr (v ∷ rest) = str_eq v.juror addr || has_voted addr rest

unfoldable pub juror_purpose : ℕ → String
juror_purpose id = text_append "jurorstake:" (format_uint id)

unfoldable pub cast_vote : Env → MsgCastVote → Exec State (Unit {0})
cast_vote env msg = do
  or_raise (env.string_to_bytes msg.creator) bad_address
  dispute ← read (dispute_of msg.dispute_id) key_not_found
  raise_if (not (is_pending dispute.status)) invalid_request
  params ← read (λ s. s.params) io
  raise_if (not (contains msg.creator (resolve_anchors env params.anchors))) unauthorized
  raise_if (has_voted msg.creator dispute.votes) invalid_request
  raise_if (ltb msg.stake_amount min_juror_stake) invalid_request
  juror ← read (account_of msg.creator) invalid_request
  raise_if (not juror.registered) invalid_request
  raise_if (ltb juror.balance msg.stake_amount) insufficient_funds
  bond_id ←
      lock_bond juror msg.creator msg.stake_amount (juror_purpose dispute.id) ""
        (format_uint dispute.id)
  modify (
      put_dispute dispute.id (record dispute {
        votes =
            dispute.votes
            ++ (record { juror = msg.creator; accept = msg.accept; bond_id = bond_id }) ∷ [];
      }))
