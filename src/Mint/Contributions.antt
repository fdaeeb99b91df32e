-- ===== src/Mint/Contributions.antt =====
-- What AwardContribution (Msg/Contributions.antt) mints.
use ag3nt_coin.Base.{ℕ, ◌≤◌, ◌≡◌, arith}
use ag3nt_coin.Exec.Returns.{
  Returns-refuse, Returns-becomes, Returns, Returns-or_raise, Returns-raise_if, Returns-gets,
  Returns-call, Returns-modify, Returns-pure,
}
use ag3nt_coin.Types.{max_contribution_award}
use ag3nt_coin.Keeper.{State, Env, Returns-read}
use ag3nt_coin.Msg.Contributions.{
  MsgAwardContribution, new_award, check_evidence, award_contribution,
}
use ag3nt_coin.Mint.{IsValid, Mints, Conserves-Mints}
use ag3nt_coin.Mint.Reward.{mint_protocol_reward-Rewards}
use ag3nt_coin.Supply.Payments.{Returns-check}
use ag3nt_coin.Supply.Records.{add_award-Conserves}

check_evidence_holds :
    (msg : MsgAwardContribution) (s : State) → Returns (λ _ s'. s' ≡ s) (check_evidence msg s)
unfolding check_evidence
check_evidence_holds msg s = Returns-raise_if _ _ _ s λ _. Returns-raise_if _ _ _ s λ _.
    Returns-raise_if _ _ _ s λ _. Returns-raise_if _ _ _ s λ _.
      Returns-raise_if _ _ _ s
        λ _. Returns-raise_if _ _ _ s λ _. Returns-raise_if _ _ _ s λ _. Returns-refuse _ _ s

-- A store in between that minted nothing does not count.
stored_first : {amount : ℕ} {s t u : State} → Mints 0 s t → Mints amount t u → Mints amount s u
stored_first h k = record {
  valid = k.valid;
  total = omega (arith, h.total, k.total);
  below = omega (arith, h.below, k.below);
}

-- AwardContribution, when it succeeds on a valid store, was asked for at most 500 coins, leaves a
-- valid store, raises the coins in existence by exactly that amount, and does not raise the
-- ceiling.
pub award_contribution-Mints :
    (env : Env) (msg : MsgAwardContribution) (s : State)
    → IsValid s
    → Returns
        (λ _ s'. (msg.amount ≤ max_contribution_award) × Mints msg.amount s s')
        (award_contribution env msg s)
unfolding award_contribution
award_contribution-Mints env msg s valid = Returns-or_raise _ _ _ s λ _ _.
    Returns-or_raise _ _ _ s λ bytes _. Returns-or_raise _ _ _ s λ _ _. Returns-read _ _ _ s λ _ _.
      Returns-raise_if _ _ _ s λ _. Returns-raise_if _ _ _ s λ capped. Returns-raise_if _ _ _ s λ _.
        Returns-raise_if _ _ _ s λ _. Returns-raise_if _ _ _ s λ _.
          Returns-becomes s _ _ s (check_evidence_holds msg s) λ _. Returns-gets _ _ s (
            Returns-raise_if _ _ _ s λ _. Returns-check s _ _ _ λ _. Returns-gets _ _ s (
              Returns-modify _ _ s (
                let stored =
                  Conserves-Mints valid (add_award-Conserves s valid.well_formed (new_award msg)) in
                Returns-call _ _ _ _
                  (mint_protocol_reward-Rewards _ stored.valid env msg.recipient bytes msg.amount)
                  λ _ t st. Returns-pure _ t (ground arith, stored_first stored st.mints))))
