-- ===== src/Frame/Settlements.antt =====
-- The handlers that write no escrow keep what has the laws of a frame: the votes and the settlement
-- of a dispute's bonds, gates, contributions, evidence and parameters.
use ag3nt_coin.Base.{ℕ, String, Bool, Option, none, some, List, [], ◌∷◌}
use ag3nt_coin.Exec.{modify}
use ag3nt_coin.Exec.Keeps.{
  Keeps, Keeps-modify, Keeps-bind, Keeps-if, Keeps-pure, Keeps-or_raise, keeps_rules,
}
use ag3nt_coin.Types.{
  Escrow, Attestation, Bond, BondStatus, GateAnswer, Gate, Vote, Dispute, Resolution, ModuleParams,
}
use ag3nt_coin.Keeper.{State, Env, Keeps-read, put_dispute, put_gate, add_gate}
use ag3nt_coin.Msg.Jury.{MsgCastVote, cast_vote}
use ag3nt_coin.Msg.Verdict.{
  settle_if_live, settle_dispute_bond, settle_stake, settle_votes, settle_attestations,
  finish_dispute,
}
use ag3nt_coin.Msg.Gates.{
  MsgPostGate, MsgRevealAnswer, MsgSettleGate, post_gate, commit_answer, reveal_answer, pay_answers,
  pay_winners, settle_gate,
}
use ag3nt_coin.Msg.Contributions.{
  MsgAwardContribution, new_award, add_award, check_evidence, award_contribution,
}
use ag3nt_coin.Msg.Evidence.{
  MsgCastScopedEvidenceVouch, new_evidence_vouch, add_evidence_vouch, cast_scoped_evidence_vouch,
}
use ag3nt_coin.Msg.Governance.{put_params, update_params}
use ag3nt_coin.Frame.{Frame}
use ag3nt_coin.Frame.Payments.{
  settle_bond-Keeps, read_account-Keeps, lock_bond-Keeps, check_new_account_credit-Keeps,
  mint_protocol_reward-Keeps,
}

module _ {P : State → Type 0} (frame : Frame P) where
  put_dispute-Keeps : (k : ℕ) (d : Dispute) → Keeps P (modify (put_dispute k d))
  put_dispute-Keeps k d = Keeps-modify _ (frame.writes_dispute k d)

  put_gate-Keeps : (k : ℕ) (g : Gate) → Keeps P (modify (put_gate k g))
  put_gate-Keeps k g = Keeps-modify _ (frame.writes_gate k g)

  add_gate-Keeps : (g : ℕ → Gate) → Keeps P (modify (add_gate g))
  add_gate-Keeps g = Keeps-modify _ (frame.adds_gate g)

  put_params-Keeps : (params : ModuleParams) → Keeps P (modify (put_params params))
  put_params-Keeps params = Keeps-modify _ (frame.writes_params params)

  pub cast_vote-Keeps : (env : Env) (msg : MsgCastVote) → Keeps P (cast_vote env msg)
  unfolding cast_vote
  cast_vote-Keeps env msg =
      search
        (
          read_account-Keeps frame,
          lock_bond-Keeps frame,
          put_dispute-Keeps,
          keeps_rules,
          Keeps-read,
        )
        depth 40 fits 8000

  settle_if_live-Keeps :
      (recipient : String) (status : BondStatus) (bond : Option Bond)
      → Keeps P (settle_if_live recipient status bond)
  unfolding settle_if_live
  settle_if_live-Keeps recipient status none = Keeps-pure tt
  settle_if_live-Keeps recipient status (some bond) = settle_bond-Keeps frame recipient status bond

  settle_dispute_bond-Keeps :
      (challenged : Bool) (d : Dispute) (e : Escrow) (r : Resolution)
      → Keeps P (settle_dispute_bond challenged d e r)
  unfolding settle_dispute_bond
  settle_dispute_bond-Keeps challenged d e r = search (keeps_rules, settle_if_live-Keeps)

  settle_stake-Keeps :
      (purpose : String) (bond_id : ℕ) (holder : String) (coherent : Bool) (winner : String)
      → Keeps P (settle_stake purpose bond_id holder coherent winner)
  unfolding settle_stake
  settle_stake-Keeps purpose bond_id holder coherent winner =
      search (keeps_rules, settle_if_live-Keeps)

  settle_votes-Keeps :
      (purpose : String) (accepted : Bool) (winner : String) (votes : List Vote)
      → Keeps P (settle_votes purpose accepted winner votes)
  unfolding settle_votes
  settle_votes-Keeps purpose accepted winner [] = Keeps-pure tt
  settle_votes-Keeps purpose accepted winner (v ∷ rest) =
      Keeps-bind _ _ (settle_stake-Keeps purpose v.bond_id v.juror _ winner)
        λ _. settle_votes-Keeps purpose accepted winner rest

  settle_attestations-Keeps :
      (purpose : String) (accepted : Bool) (winner : String) (attestations : List Attestation)
      → Keeps P (settle_attestations purpose accepted winner attestations)
  unfolding settle_attestations
  settle_attestations-Keeps purpose accepted winner [] = Keeps-pure tt
  settle_attestations-Keeps purpose accepted winner (a ∷ rest) =
      Keeps-bind _ _ (settle_stake-Keeps purpose a.bond_id a.verifier _ winner)
        λ _. settle_attestations-Keeps purpose accepted winner rest

  pub finish_dispute-Keeps :
      (challenged : Bool) (d : Dispute) (e : Escrow) (r : Resolution)
      → Keeps P (finish_dispute challenged d e r)
  unfolding finish_dispute
  finish_dispute-Keeps challenged d e r =
      search
        (
          put_dispute-Keeps, keeps_rules, settle_dispute_bond-Keeps, settle_votes-Keeps,
          settle_attestations-Keeps,
        )
        depth 12

  pub post_gate-Keeps : (env : Env) (msg : MsgPostGate) → Keeps P (post_gate env msg)
  unfolding post_gate
  post_gate-Keeps env msg = search (add_gate-Keeps, keeps_rules, Keeps-read) depth 30 fits 4000

  pub commit_answer-Keeps :
      (env : Env) (creator : String) (gate_id : ℕ) (commit : String)
      → Keeps P (commit_answer env creator gate_id commit)
  unfolding commit_answer
  commit_answer-Keeps env creator gate_id commit =
      search (put_gate-Keeps, keeps_rules, Keeps-read) depth 30 fits 4000

  pub reveal_answer-Keeps : (env : Env) (msg : MsgRevealAnswer) → Keeps P (reveal_answer env msg)
  unfolding reveal_answer
  reveal_answer-Keeps env msg = search (put_gate-Keeps, keeps_rules, Keeps-read) depth 30 fits 4000

  pay_answers-Keeps :
      (env : Env) (drip : ℕ) (winning : String) (answers : List GateAnswer)
      → Keeps P (pay_answers env drip winning answers)
  unfolding pay_answers
  pay_answers-Keeps env drip winning [] = Keeps-pure []
  pay_answers-Keeps env drip winning (a ∷ rest) =
      let later = pay_answers-Keeps env drip winning rest in
      Keeps-if _ _ _ (Keeps-bind _ _ later λ others. Keeps-pure _) (
        Keeps-bind _ _ (Keeps-or_raise _ _) λ bytes.
          Keeps-bind _ _ (mint_protocol_reward-Keeps frame env a.agent bytes drip)
            λ _. Keeps-bind _ _ later λ others. Keeps-pure _)

  pay_winners-Keeps :
      (env : Env) (gate : Gate) (winning : String) → Keeps P (pay_winners env gate winning)
  unfolding pay_winners
  pay_winners-Keeps env gate winning = search (keeps_rules, pay_answers-Keeps)

  pub settle_gate-Keeps : (env : Env) (msg : MsgSettleGate) → Keeps P (settle_gate env msg)
  unfolding settle_gate
  settle_gate-Keeps env msg =
      search (put_gate-Keeps, keeps_rules, Keeps-read, pay_winners-Keeps) depth 30 fits 4000

  check_evidence-Keeps : (msg : MsgAwardContribution) → Keeps P (check_evidence msg)
  unfolding check_evidence
  check_evidence-Keeps msg = search keeps_rules depth 30 fits 4000

  new_award-Keeps : (msg : MsgAwardContribution) → Keeps P (modify (add_award (new_award msg)))
  new_award-Keeps msg = Keeps-modify _ (frame.adds_award msg)

  pub award_contribution-Keeps :
      (env : Env) (msg : MsgAwardContribution) → Keeps P (award_contribution env msg)
  unfolding award_contribution
  award_contribution-Keeps env msg =
      search
        (
          new_award-Keeps,
          check_evidence-Keeps,
          check_new_account_credit-Keeps frame,
          mint_protocol_reward-Keeps frame,
          keeps_rules,
          Keeps-read,
        )
        depth 40 fits 8000

  new_evidence_vouch-Keeps :
      (msg : MsgCastScopedEvidenceVouch)
      → Keeps P (modify (add_evidence_vouch (new_evidence_vouch msg)))
  new_evidence_vouch-Keeps msg = Keeps-modify _ (frame.adds_evidence_vouch msg)

  pub cast_scoped_evidence_vouch-Keeps :
      (env : Env) (msg : MsgCastScopedEvidenceVouch) → Keeps P (cast_scoped_evidence_vouch env msg)
  unfolding cast_scoped_evidence_vouch
  cast_scoped_evidence_vouch-Keeps env msg =
      search (new_evidence_vouch-Keeps, keeps_rules, Keeps-read) depth 40 fits 8000

  pub update_params-Keeps :
      (env : Env) (authority : String) (params : ModuleParams)
      → Keeps P (update_params env authority params)
  unfolding update_params
  update_params-Keeps env authority params =
      search (put_params-Keeps, keeps_rules) depth 30 fits 4000
