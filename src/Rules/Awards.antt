-- ===== src/Rules/Awards.antt =====
-- The awards of an artifact (Msg/Contributions.antt).
use ag3nt_coin.Base.{ℕ, ◌≡◌, refl, String, true, false, Bool-cases, inl, inr}
use ag3nt_coin.Base.Text.{equal_fold}
use ag3nt_coin.Base.Store.{uint_key}
use ag3nt_coin.Base.Store.Laws.{find-set}
use ag3nt_coin.Exec.{succeeds, final}
use ag3nt_coin.Exec.Keeps.{Keeps, keeps_rules}
use ag3nt_coin.Exec.Returns.{
  Returns, Returns-or_raise, Returns-raise_if, Returns-call, Returns-any, Returns-anyway,
  Returns-known, Returns-final, Returns-pure, Returns-gets, Returns-modify,
}
use ag3nt_coin.Types.{ContributionAward}
use ag3nt_coin.Keeper.{State, Env, Returns-read}
use ag3nt_coin.Keeper.Credit.{check_new_account_credit, credit_account, ensure_auth_account}
use ag3nt_coin.Keeper.Emission.{
  put_emission_state, get_emission_state, sync_emission_state, mint_protocol_reward,
}
use ag3nt_coin.Exec.Keeps.{Keeps-Returns}
use ag3nt_coin.Msg.Contributions.{
  MsgAwardContribution, new_award, is_awarded, add_award, check_evidence, award_contribution,
}

-- The artifact is among the stored awards.
abbrev IsAwarded : String → State → Type 0
IsAwarded artifact s = is_awarded artifact s ≡ true

module _ (artifact : String) where
  check_new_account_credit-Keeps :
      (a : String) (amount : ℕ) → Keeps (IsAwarded artifact) (check_new_account_credit a amount)
  unfolding check_new_account_credit
  check_new_account_credit-Keeps a amount = search keeps_rules depth 30 fits 4000

  sync_emission_state-Keeps : (env : Env) → Keeps (IsAwarded artifact) (sync_emission_state env)
  unfolding sync_emission_state get_emission_state put_emission_state is_awarded
  sync_emission_state-Keeps env = search keeps_rules depth 30 fits 4000

  credit_account-Keeps :
      (env : Env) (a bytes : String) (amount : ℕ)
      → Keeps (IsAwarded artifact) (credit_account env a bytes amount)
  unfolding credit_account ensure_auth_account is_awarded
  credit_account-Keeps env a bytes amount = search keeps_rules depth 30 fits 4000

  mint_protocol_reward-Keeps :
      (env : Env) (a bytes : String) (amount : ℕ)
      → Keeps (IsAwarded artifact) (mint_protocol_reward env a bytes amount)
  unfolding mint_protocol_reward put_emission_state is_awarded
  mint_protocol_reward-Keeps env a bytes amount =
      search
        (
          keeps_rules, check_new_account_credit-Keeps, sync_emission_state-Keeps,
          credit_account-Keeps,
        )
        depth 30 fits 4000

  add_award-IsAwarded :
      (a : ℕ → ContributionAward) (s : State)
      → equal_fold (a s.contribution_award_seq).artifact_sha256 artifact ≡ true
      → IsAwarded artifact (add_award a s)
  unfolding is_awarded add_award
  add_award-IsAwarded a s same =
      let (e, found) =
        find-set (λ x. equal_fold x.artifact_sha256 artifact) s.contribution_award_seq
          (a s.contribution_award_seq) s.contribution_award same in
      rw found refl

check_evidence-Keeps :
    (s : State) (msg : MsgAwardContribution) → Keeps (λ t. t ≡ s) (check_evidence msg)
unfolding check_evidence
check_evidence-Keeps s msg = search keeps_rules depth 30 fits 4000

module _ (env : Env) (msg : MsgAwardContribution) where
  award_contribution-IsAwarded :
      (artifact : String) (s : State)
      → equal_fold msg.artifact_sha256 artifact ≡ true
      → Returns (λ _ s'. IsAwarded artifact s') (award_contribution env msg s)
  unfolding award_contribution
  award_contribution-IsAwarded artifact s same = Returns-or_raise _ _ _ s λ _ _.
      Returns-or_raise _ _ _ s λ bytes _. Returns-or_raise _ _ _ s λ _ _.
        Returns-read _ _ _ s λ _ _. Returns-raise_if _ _ _ s λ _. Returns-raise_if _ _ _ s λ _.
          Returns-raise_if _ _ _ s λ _. Returns-raise_if _ _ _ s λ _. Returns-raise_if _ _ _ s λ _.
            Returns-any _ _ s λ _ t. Returns-gets _ _ t (
              Returns-raise_if _ _ _ t λ _. Returns-any _ _ t λ _ u. Returns-gets _ _ u (
                Returns-modify _ _ u (
                  Returns-call (λ _ v. IsAwarded artifact v) _ _ _
                    (Keeps-Returns _ _
                      (mint_protocol_reward-Keeps artifact env msg.recipient bytes msg.amount)
                      (add_award-IsAwarded artifact (new_award msg) u (unfold new_award in same)))
                    λ _ v awarded. Returns-pure _ v awarded)))

  award_contribution-IsNew :
      (s : State)
      → Returns (λ _ _. is_awarded msg.artifact_sha256 s ≡ false) (award_contribution env msg s)
  unfolding award_contribution
  award_contribution-IsNew s = Returns-or_raise _ _ _ s λ _ _. Returns-or_raise _ _ _ s λ _ _.
      Returns-or_raise _ _ _ s λ _ _. Returns-read _ _ _ s λ _ _. Returns-raise_if _ _ _ s λ _.
        Returns-raise_if _ _ _ s λ _. Returns-raise_if _ _ _ s λ _. Returns-raise_if _ _ _ s λ _.
          Returns-raise_if _ _ _ s λ _.
            Returns-call (λ _ t. t ≡ s) _ _ s (Keeps-Returns _ s (check_evidence-Keeps s msg) refl)
              λ _ t same.
                Returns-gets _ _ t
                  (Returns-raise_if _ _ _ t λ new. Returns-anyway _ (rw same at new))

-- Once an award for an artifact has succeeded, every further award for an artifact whose digest is
-- the same up to the case of its letters is refused in the store that it leaves, whatever the
-- surroundings.
pub award_once :
    (env env' : Env) (msg msg' : MsgAwardContribution) (s : State)
    → equal_fold msg.artifact_sha256 msg'.artifact_sha256 ≡ true
    → succeeds (award_contribution env msg s) ≡ true
    → succeeds (award_contribution env' msg' (final (award_contribution env msg s))) ≡ false
award_once env env' msg msg' s same done =
    let t = final (award_contribution env msg s) in
    let awarded : is_awarded msg'.artifact_sha256 t ≡ true =
      Returns-final _ (award_contribution-IsAwarded env msg msg'.artifact_sha256 s same) done in
    elim (Bool-cases (succeeds (award_contribution env' msg' t))) [
      | inl again ↦ let new = Returns-known _ (award_contribution-IsNew env' msg' t) again in cc
      | inr refused ↦ refused
    ]
