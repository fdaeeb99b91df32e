-- ===== src/Frame.antt =====
-- Properties of the store that the shared writes of the handlers keep (chain/x/agntcoin/keeper): an
-- interface of laws, one for each kind of write, and what the handlers that write no escrow do with
-- them. The children go through the handlers, once for every property that has the laws.
pub mod Payments
pub mod Handling
pub mod Settlements
use ag3nt_coin.Base.{◌≡◌, ℕ, String, Option, some}
use ag3nt_coin.Base.Store.{string_key}
use ag3nt_coin.Base.Words.{add64}
use ag3nt_coin.Types.{Account, Vouch, Bond, Dispute, Gate, EmissionState, ModuleParams}
use ag3nt_coin.Keeper.{
  State, Env, account_of, put_account, put_bond, add_bond, put_dispute, put_gate, add_gate,
}
use ag3nt_coin.Keeper.Credit.{ensure_auth_account}
use ag3nt_coin.Keeper.Emission.{emission_or_default, sync_emission, put_emission_state}
use ag3nt_coin.Msg.Vouches.{MsgCastvouch, upsert_vouch, remove_vouch}
use ag3nt_coin.Msg.Contributions.{MsgAwardContribution, new_award, add_award}
use ag3nt_coin.Msg.Evidence.{MsgCastScopedEvidenceVouch, new_evidence_vouch, add_evidence_vouch}
use ag3nt_coin.Msg.Governance.{put_params}

-- `Known k a`: an account with the address `a` may stand under the key `k`. `Begun`: an emission
-- state that may be stored.
pub record Frame (P : State → Type 0) : Type 1 where
  pub Known : String → String → Type 0
  pub Begun : EmissionState → Type 0
  pub known_fresh : (k : String) → Known k k
  pub known_found :
      (k : String) (a : Account) (s : State) → P s → account_of k s ≡ some a → Known k a.address
  pub writes_account :
      (k : String) (a : Account) → Known k a.address → (s : State) → P s → P (put_account k a s)
  pub writes_auth :
      (env : Env) (bytes : String) (s : State) → P s → P (ensure_auth_account env bytes s)
  pub begun_read : (env : Env) (s : State) → P s → Begun (emission_or_default env s.emission_state)
  pub begun_synced : (now : ℕ) (e : EmissionState) → Begun e → Begun (sync_emission now e)
  pub begun_minted :
      (e : EmissionState) (amount : ℕ)
      → Begun e
      → Begun (record e {
        total_mined = add64 e.total_mined amount;
        epoch_mined = add64 e.epoch_mined amount;
      })
  pub writes_emission :
      (e : EmissionState) → Begun e → (s : State) → P s → P (put_emission_state e s)
  pub writes_params : (params : ModuleParams) (s : State) → P s → P (put_params params s)
  pub writes_vouch :
      (msg : MsgCastvouch) (found : Option (ℕ × Vouch)) (s : State)
      → P s
      → P (upsert_vouch msg found s)
  pub removes_vouch : (id : ℕ) (s : State) → P s → P (remove_vouch id s)
  pub writes_bond : (k : ℕ) (b : Bond) (s : State) → P s → P (put_bond k b s)
  pub adds_bond : (b : ℕ → Bond) (s : State) → P s → P (add_bond b s)
  pub writes_dispute : (k : ℕ) (d : Dispute) (s : State) → P s → P (put_dispute k d s)
  pub writes_gate : (k : ℕ) (g : Gate) (s : State) → P s → P (put_gate k g s)
  pub adds_gate : (g : ℕ → Gate) (s : State) → P s → P (add_gate g s)
  pub adds_award : (msg : MsgAwardContribution) (s : State) → P s → P (add_award (new_award msg) s)
  pub adds_evidence_vouch :
      (msg : MsgCastScopedEvidenceVouch) (s : State)
      → P s
      → P (add_evidence_vouch (new_evidence_vouch msg) s)
