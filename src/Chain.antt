-- ===== src/Chain.antt =====
-- The message server (chain/x/agntcoin/keeper/msg_server.go and the service `Msg` of
-- chain/proto/agntcoin/agntcoin/v1/tx.proto): one constructor for each message, the handler of
-- each, and the runs of the chain.
pub mod Handlers
pub mod Cap
use ag3nt_coin.Base.{none, some, ℕ, String, ◌≡◌, []}
use ag3nt_coin.Exec.{Exec, Outcome, ok, pure, ◌>>=◌, ◌>>◌}
use ag3nt_coin.Types.{ModuleParams}
use ag3nt_coin.Keeper.{State, Env}
use ag3nt_coin.Keeper.Genesis.{default_genesis, init_genesis, empty_store}
use ag3nt_coin.Msg.Accounts.{MsgTransfer, register, faucet, transfer}
use ag3nt_coin.Msg.Vouches.{MsgCastvouch, castvouch, unvouch}
use ag3nt_coin.Msg.Bonds.{MsgPostBond, MsgSlashBond, post_bond, release_bond, slash_bond}
use ag3nt_coin.Msg.Escrows.{
  MsgLockEscrow, MsgSubmitEscrow, lock_escrow, submit_escrow, release_escrow, refund_escrow,
  dispute_escrow,
}
use ag3nt_coin.Msg.Verifiers.{
  MsgAttestEscrow, attest_escrow, verified_release, reclaim_attestation_bonds,
}
use ag3nt_coin.Msg.Jury.{MsgOpenDispute, MsgCastVote, open_dispute, cast_vote}
use ag3nt_coin.Msg.Verdict.{resolve_dispute}
use ag3nt_coin.Msg.Gates.{
  MsgPostGate, MsgRevealAnswer, MsgSettleGate, post_gate, commit_answer, reveal_answer, settle_gate,
}
use ag3nt_coin.Msg.Contributions.{MsgAwardContribution, award_contribution}
use ag3nt_coin.Msg.Evidence.{MsgCastScopedEvidenceVouch, cast_scoped_evidence_vouch}
use ag3nt_coin.Msg.Governance.{update_params}

-- The messages; one that has two or three fields only has them as arguments, the creator first.
pub data Message : Type 0 where
  msg_update_params : String → ModuleParams → Message
  msg_register : String → Message
  msg_faucet : String → Message
  msg_transfer : MsgTransfer → Message
  msg_castvouch : MsgCastvouch → Message
  msg_unvouch : String → String → Message
  msg_lock_escrow : MsgLockEscrow → Message
  msg_release_escrow : String → ℕ → Message
  msg_refund_escrow : String → ℕ → Message
  msg_submit_escrow : MsgSubmitEscrow → Message
  msg_dispute_escrow : String → ℕ → Message
  msg_open_dispute : MsgOpenDispute → Message
  msg_cast_vote : MsgCastVote → Message
  msg_resolve_dispute : String → ℕ → Message
  msg_post_bond : MsgPostBond → Message
  msg_release_bond : String → ℕ → Message
  msg_slash_bond : MsgSlashBond → Message
  msg_attest_escrow : MsgAttestEscrow → Message
  msg_verified_release : String → ℕ → String → Message
  msg_reclaim_attestation_bonds : String → ℕ → Message
  msg_post_gate : MsgPostGate → Message
  msg_commit_answer : String → ℕ → String → Message
  msg_reveal_answer : MsgRevealAnswer → Message
  msg_settle_gate : MsgSettleGate → Message
  msg_award_contribution : MsgAwardContribution → Message
  msg_cast_scoped_evidence_vouch : MsgCastScopedEvidenceVouch → Message

-- The response of a handler is dropped.
abbrev pub no_response : {A : Type 0} → Exec State A → Exec State (Unit {0})
no_response m = m >> pure tt

unfoldable pub handle : Env → Message → Exec State (Unit {0})
handle env (msg_update_params authority params) = update_params env authority params
handle env (msg_register creator) = register env creator
handle env (msg_faucet creator) = faucet
handle env (msg_transfer msg) = transfer env msg
handle env (msg_castvouch msg) = castvouch env msg
handle env (msg_unvouch creator to_addr) = unvouch env creator to_addr
handle env (msg_lock_escrow msg) = no_response (lock_escrow env msg)
handle env (msg_release_escrow creator id) = release_escrow env creator id
handle env (msg_refund_escrow creator id) = refund_escrow env creator id
handle env (msg_submit_escrow msg) = submit_escrow env msg
handle env (msg_dispute_escrow creator id) = dispute_escrow env creator id
handle env (msg_open_dispute msg) = no_response (open_dispute env msg)
handle env (msg_cast_vote msg) = cast_vote env msg
handle env (msg_resolve_dispute creator id) = no_response (resolve_dispute env creator id)
handle env (msg_post_bond msg) = no_response (post_bond env msg)
handle env (msg_release_bond creator id) = release_bond env creator id
handle env (msg_slash_bond msg) = slash_bond env msg
handle env (msg_attest_escrow msg) = no_response (attest_escrow env msg)
handle env (msg_verified_release creator id key) = verified_release env creator id key
handle env (msg_reclaim_attestation_bonds creator id) = reclaim_attestation_bonds env creator id
handle env (msg_post_gate msg) = no_response (post_gate env msg)
handle env (msg_commit_answer creator id commit) = commit_answer env creator id commit
handle env (msg_reveal_answer msg) = reveal_answer env msg
handle env (msg_settle_gate msg) = no_response (settle_gate env msg)
handle env (msg_award_contribution msg) = no_response (award_contribution env msg)
handle env (msg_cast_scoped_evidence_vouch msg) = no_response (cast_scoped_evidence_vouch env msg)

-- A run: messages whose handlers succeed, each in surroundings of its own.
pub data Run : State → State → Type 0 where
  nothing : {s : State} → Run s s
  then :
      {s t u : State} → Run s t → (env : Env) (msg : Message) → handle env msg t ≡ ok tt u → Run s u

-- What `InitGenesis` makes of `DefaultGenesis` with the parameters given.
abbrev pub new_chain : Env → ModuleParams → State
new_chain env params = init_genesis env (record default_genesis { params = params }) empty_store
