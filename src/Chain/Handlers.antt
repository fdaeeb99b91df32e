-- ===== src/Chain/Handlers.antt =====
-- The message server as a whole: the theorems of Supply and Mint, put together.
use ag3nt_coin.Base.{ℕ, ◌≤◌, ap, arith}
use mathlib.Core.Path.{subst}
use ag3nt_coin.Base.{sym}
use ag3nt_coin.Exec.{Exec, Outcome}
use ag3nt_coin.Exec.Returns.{Returns, Returns-call, Returns-pure, Returns-weaken, Returns-raise}
use ag3nt_coin.Keeper.{State, Env}
use ag3nt_coin.Supply.Steps.{Conserves}
use ag3nt_coin.Supply.Accounts.{transfer-Conserves}
use ag3nt_coin.Supply.Vouches.{castvouch-Conserves, unvouch-Conserves}
use ag3nt_coin.Supply.Bonds.{
  Slashes, post_bond-Conserves, release_bond-Conserves, slash_bond-Slashes,
}
use ag3nt_coin.Supply.Escrows.{
  submit_escrow-Conserves, dispute_escrow-Conserves, release_escrow-Conserves,
  refund_escrow-Conserves,
}
use ag3nt_coin.Supply.Locking.{lock_escrow-Conserves}
use ag3nt_coin.Supply.Verifiers.{
  attest_escrow-Conserves, verified_release-Conserves, reclaim_attestation_bonds-Conserves,
}
use ag3nt_coin.Supply.Gates.{post_gate-Conserves, commit_answer-Conserves, reveal_answer-Conserves}
use ag3nt_coin.Supply.Jury.{open_dispute-Conserves, cast_vote-Conserves}
use ag3nt_coin.Supply.Verdict.{resolve_dispute-Conserves}
use ag3nt_coin.Supply.Records.{
  register-Slashes, update_params-Conserves, cast_scoped_evidence_vouch-Conserves,
}
use ag3nt_coin.Msg.Accounts.{faucet}
use ag3nt_coin.Mint.{
  IsValid, Mints, SoundEmission, scheduled_left, ceiling, Conserves-Mints, supply_fits,
}
use ag3nt_coin.Mint.Gates.{settle_gate-Mints}
use ag3nt_coin.Mint.Contributions.{award_contribution-Mints}
use ag3nt_coin.Chain.{Message, no_response, handle}

-- The store stays valid, and the ceiling does not rise.
pub record Keeps (s s' : State) : Type 0 where
  pub valid : IsValid s'
  pub below : ceiling s' ≤ ceiling s

Mints-Keeps : {amount : ℕ} {s s' : State} → Mints amount s s' → Keeps s s'
Mints-Keeps h = record { valid = h.valid; below = h.below }

Slashes-Keeps : {burned : ℕ} {s s' : State} → IsValid s → Slashes burned s s' → Keeps s s'
unfolding ceiling
Slashes-Keeps valid h =
    let same = ap scheduled_left h.emission in
    record {
      valid = record {
        well_formed = h.well_formed;
        sound = subst SoundEmission (sym h.emission) valid.sound;
        fits = omega (arith, valid.fits, h.total, same);
      };
      below = omega (arith, h.total, same);
    }

module _ {s : State} (valid : IsValid s) where
  moves :
      {A : Type 0} {o : Outcome State A}
      → Returns (λ _ s'. Conserves s s') o
      → Returns (λ _ s'. Keeps s s') o
  moves r = Returns-weaken (λ _ _ h. Mints-Keeps (Conserves-Mints valid h)) r

-- The response makes no difference.
pub without_response :
    {A : Type 0} {Q : State → Type 0} (m : Exec State A) (s : State)
    → Returns (λ _ s'. Q s') (m s)
    → Returns (λ _ s'. Q s') (no_response m s)
without_response m s r = Returns-call _ m _ s r λ _ s' q. Returns-pure tt s' q

-- A message of any kind whose handler succeeds on a valid store leaves a valid store, and does not
-- raise the coins in existence together with those that may still be minted.
pub handle-Keeps :
    (env : Env) (msg : Message) (s : State)
    → IsValid s
    → Returns (λ _ s'. Keeps s s') (handle env msg s)
unfolding handle
handle-Keeps env (Message.msg_update_params authority params) s valid =
    moves valid (update_params-Conserves s valid.well_formed env authority params)
handle-Keeps env (Message.msg_register creator) s valid =
    Returns-weaken (λ _ _ h. Slashes-Keeps valid h)
      (register-Slashes s valid.well_formed env creator)
handle-Keeps env (Message.msg_faucet creator) s valid = unfold faucet in Returns-raise _ s
handle-Keeps env (Message.msg_transfer msg) s valid =
    moves valid (transfer-Conserves env msg s valid.well_formed (supply_fits s valid))
handle-Keeps env (Message.msg_castvouch msg) s valid =
    moves valid (castvouch-Conserves s valid.well_formed (supply_fits s valid) env msg)
handle-Keeps env (Message.msg_unvouch creator to_addr) s valid =
    moves valid (unvouch-Conserves s valid.well_formed (supply_fits s valid) env creator to_addr)
handle-Keeps env (Message.msg_lock_escrow msg) s valid =
    without_response _ s
      (moves valid (lock_escrow-Conserves s valid.well_formed (supply_fits s valid) env msg))
handle-Keeps env (Message.msg_release_escrow creator id) s valid =
    moves valid (release_escrow-Conserves s valid.well_formed (supply_fits s valid) env creator id)
handle-Keeps env (Message.msg_refund_escrow creator id) s valid =
    moves valid (refund_escrow-Conserves s valid.well_formed (supply_fits s valid) env creator id)
handle-Keeps env (Message.msg_submit_escrow msg) s valid =
    moves valid (submit_escrow-Conserves s valid.well_formed env msg)
handle-Keeps env (Message.msg_dispute_escrow creator id) s valid =
    moves valid (dispute_escrow-Conserves s valid.well_formed env creator id)
handle-Keeps env (Message.msg_open_dispute msg) s valid =
    without_response _ s
      (moves valid (open_dispute-Conserves s valid.well_formed (supply_fits s valid) env msg))
handle-Keeps env (Message.msg_cast_vote msg) s valid =
    moves valid (cast_vote-Conserves s valid.well_formed (supply_fits s valid) env msg)
handle-Keeps env (Message.msg_resolve_dispute creator id) s valid = without_response _ s (
    moves valid
      (resolve_dispute-Conserves s valid.well_formed (supply_fits s valid) env creator id))
handle-Keeps env (Message.msg_post_bond msg) s valid =
    without_response _ s
      (moves valid (post_bond-Conserves s valid.well_formed (supply_fits s valid) env msg))
handle-Keeps env (Message.msg_release_bond creator id) s valid =
    moves valid (release_bond-Conserves s valid.well_formed (supply_fits s valid) env creator id)
handle-Keeps env (Message.msg_slash_bond msg) s valid =
    Returns-weaken (λ _ _ h. Slashes-Keeps valid h)
      (slash_bond-Slashes s valid.well_formed (supply_fits s valid) env msg)
handle-Keeps env (Message.msg_attest_escrow msg) s valid =
    without_response _ s
      (moves valid (attest_escrow-Conserves s valid.well_formed (supply_fits s valid) env msg))
handle-Keeps env (Message.msg_verified_release creator id key) s valid =
    moves valid
      (verified_release-Conserves s valid.well_formed (supply_fits s valid) env creator id key)
handle-Keeps env (Message.msg_reclaim_attestation_bonds creator id) s valid =
    moves valid
      (reclaim_attestation_bonds-Conserves s valid.well_formed (supply_fits s valid) env creator id)
handle-Keeps env (Message.msg_post_gate msg) s valid =
    without_response _ s (moves valid (post_gate-Conserves s valid.well_formed env msg))
handle-Keeps env (Message.msg_commit_answer creator id commit) s valid =
    moves valid (commit_answer-Conserves s valid.well_formed env creator id commit)
handle-Keeps env (Message.msg_reveal_answer msg) s valid =
    moves valid (reveal_answer-Conserves s valid.well_formed env msg)
handle-Keeps env (Message.msg_settle_gate msg) s valid =
    without_response _ s
      (Returns-weaken (λ _ _ h. Mints-Keeps h.2) (settle_gate-Mints env msg s valid))
handle-Keeps env (Message.msg_award_contribution msg) s valid =
    without_response _ s
      (Returns-weaken (λ _ _ h. Mints-Keeps h.1) (award_contribution-Mints env msg s valid))
handle-Keeps env (Message.msg_cast_scoped_evidence_vouch msg) s valid =
    without_response _ s
      (moves valid (cast_scoped_evidence_vouch-Conserves s valid.well_formed env msg))
