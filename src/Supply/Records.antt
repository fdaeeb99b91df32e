-- ===== src/Supply/Records.antt =====
-- The coins under the handlers that write other records: Register, UpdateParams,
-- CastScopedEvidenceVouch, and the award that AwardContribution stores.
use ag3nt_coin.Base.{
  false, true, ℕ, refl, String, Option, none, some, arith, Option-cases, inl, inr,
}
use ag3nt_coin.Base.Store.{string_key}
use ag3nt_coin.Base.Store.Laws.{sum-set-some, sum-set-none}
use ag3nt_coin.Exec.{modify}
use ag3nt_coin.Exec.Returns.{
  Returns, success, Returns-or_raise, Returns-raise_if, Returns-gets, Returns-modify, Returns-pure,
}
use ag3nt_coin.Types.{Account, ModuleParams, ScopedEvidenceVouch, ContributionAward}
use ag3nt_coin.Keeper.{State, Env, Returns-read, account_of, put_account}
use ag3nt_coin.Msg.Accounts.{register}
use ag3nt_coin.Msg.Contributions.{add_award}
use ag3nt_coin.Msg.Evidence.{
  MsgCastScopedEvidenceVouch, add_evidence_vouch, cast_scoped_evidence_vouch,
}
use ag3nt_coin.Msg.Governance.{put_params, update_params}
use ag3nt_coin.Invariant.{IsWellFormed}
use ag3nt_coin.Supply.{supply, balance}
use ag3nt_coin.Supply.Steps.{Conserves, put_account-IsWellFormed}
use ag3nt_coin.Supply.Bonds.{Slashes}

module _ (s : State) (wf : IsWellFormed s) where
  put_params-Conserves : (params : ModuleParams) → Conserves s (put_params params s)
  unfolding put_params supply
  put_params-Conserves params = record {
    well_formed = record {
      vouches = wf.vouches;
      distinct = wf.distinct;
      escrows = wf.escrows;
      disputes = wf.disputes;
      bonds = wf.bonds;
      gates = wf.gates;
    };
    total = refl;
    emission = refl;
  }

  add_evidence_vouch-Conserves :
      (v : ℕ → ScopedEvidenceVouch) → Conserves s (add_evidence_vouch v s)
  unfolding add_evidence_vouch supply
  add_evidence_vouch-Conserves v = record {
    well_formed = record {
      vouches = wf.vouches;
      distinct = wf.distinct;
      escrows = wf.escrows;
      disputes = wf.disputes;
      bonds = wf.bonds;
      gates = wf.gates;
    };
    total = refl;
    emission = refl;
  }

  pub add_award-Conserves : (v : ℕ → ContributionAward) → Conserves s (add_award v s)
  unfolding add_award supply
  add_award-Conserves v = record {
    well_formed = record {
      vouches = wf.vouches;
      distinct = wf.distinct;
      escrows = wf.escrows;
      disputes = wf.disputes;
      bonds = wf.bonds;
      gates = wf.gates;
    };
    total = refl;
    emission = refl;
  }

  pub update_params-Conserves :
      (env : Env) (authority : String) (params : ModuleParams)
      → Returns (λ _ s'. Conserves s s') (update_params env authority params s)
  unfolding update_params
  update_params-Conserves env authority params = Returns-or_raise _ _ _ s λ _ _.
      Returns-raise_if _ _ _ s
        λ _. Returns-raise_if _ _ _ s λ _. unfold modify in success (put_params-Conserves params)

  pub cast_scoped_evidence_vouch-Conserves :
      (env : Env) (msg : MsgCastScopedEvidenceVouch)
      → Returns (λ _ s'. Conserves s s') (cast_scoped_evidence_vouch env msg s)
  unfolding cast_scoped_evidence_vouch
  cast_scoped_evidence_vouch-Conserves env msg = Returns-or_raise _ _ _ s λ _ _.
      Returns-or_raise _ _ _ s λ _ _. Returns-read _ _ _ s λ _ _. Returns-gets _ _ s (
        Returns-raise_if _ _ _ s λ _. Returns-raise_if _ _ _ s λ _. Returns-raise_if _ _ _ s λ _.
          Returns-raise_if _ _ _ s λ _. Returns-raise_if _ _ _ s λ _. Returns-raise_if _ _ _ s λ _.
            Returns-raise_if _ _ _ s λ _. Returns-raise_if _ _ _ s λ _. Returns-gets _ _ s (
              Returns-raise_if _ _ _ s λ _.
                Returns-gets _ _ s
                  (Returns-modify _ _ s (Returns-pure _ _ (add_evidence_vouch-Conserves _)))))

-- The balance of an account that is not registered yet is lost when it registers.
abbrev pub unregistered_balance : Option Account → ℕ
unregistered_balance none = 0
unregistered_balance (some a) = a.balance

module _ (s : State) (wf : IsWellFormed s) where
  overwritten-Slashes :
      (a : String)
      → Slashes (unregistered_balance (account_of a s)) s (
          put_account a
            (record {
              address = a;
              balance = 0;
              nonce = 0;
              registered = true;
              faucet_claimed = false;
            })
            s)
  unfolding supply
  overwritten-Slashes a = record {
    well_formed = put_account-IsWellFormed s wf a _;
    emission = refl;
    total = elim (Option-cases (account_of a s)) [
      | inl e ↦ rw e (
          omega (
            arith,
            sum-set-none balance a
                (record {
                  address = a;
                  balance = 0;
                  nonce = 0;
                  registered = true;
                  faucet_claimed = false;
                })
                s.account e,
          ))
      | inr (old, e) ↦ rw e (
          omega (
            arith,
            sum-set-some balance a
                (record {
                  address = a;
                  balance = 0;
                  nonce = 0;
                  registered = true;
                  faucet_claimed = false;
                })
                old s.account e,
          ))
    ];
  }

  -- Register, when it succeeds in a well-formed store, lowers the coins in existence by the balance
  -- of the account record that it overwrites, which is none if the address had no record, keeps the
  -- store well formed, and leaves the emission state alone.
  pub register-Slashes :
      (env : Env) (creator : String)
      → Returns
          (λ _ s'. Slashes (unregistered_balance (account_of creator s)) s s')
          (register env creator s)
  unfolding register
  register-Slashes env creator = Returns-or_raise _ _ _ s λ _ _.
      Returns-gets _ _ s
        (Returns-raise_if _ _ _ s λ _. unfold modify in success (overwritten-Slashes creator))
