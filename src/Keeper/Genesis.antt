-- ===== src/Keeper/Genesis.antt =====
-- The genesis file: chain/x/agntcoin/keeper/genesis.go, and `DefaultGenesis` and
-- `GenesisState.Validate` of chain/x/agntcoin/types/genesis.go.
use ag3nt_coin.Base.{
  ℕ, String, Bool, true, false, Option, none, some, List, [], ◌∷◌, ◌&&◌, ◌||◌, not, ltb, leb, ◌==◌,
  if◌then◌else◌,
}
use ag3nt_coin.Base.Words.{sub64}
use ag3nt_coin.Base.Store
use ag3nt_coin.Base.Store.{Store, uint_key, string_key}
use ag3nt_coin.Exec.{Exec, io, gets, pure, ◌>>=◌}
use ag3nt_coin.Types.{
  Account, Vouch, Escrow, EmissionState, ContributionAward, ScopedEvidenceVouch, ModuleParams,
}
use ag3nt_coin.Types.Params.{contains, validate_params}
use ag3nt_coin.Keeper.Defs.{State, Env}
use ag3nt_coin.Keeper.Collections.{read}
use ag3nt_coin.Keeper.Emission.{default_emission_state, remaining_scheduled, get_emission_state}

pub record GenesisState : Type 0 where
  pub params : ModuleParams
  pub emission_state : EmissionState
  pub account_map : List Account
  pub vouch_list : List Vouch
  pub vouch_count : ℕ
  pub escrow_list : List Escrow
  pub escrow_count : ℕ
  pub contribution_award_list : List ContributionAward
  pub contribution_award_count : ℕ
  pub scoped_evidence_vouch_list : List ScopedEvidenceVouch
  pub scoped_evidence_vouch_count : ℕ

abbrev pub default_params : ModuleParams
default_params = record { anchors = [] }

unfoldable pub default_genesis : GenesisState
default_genesis = record {
  params = default_params;
  emission_state = default_emission_state 0;
  account_map = [];
  vouch_list = [];
  vouch_count = 0;
  escrow_list = [];
  escrow_count = 0;
  contribution_award_list = [];
  contribution_award_count = 0;
  scoped_evidence_vouch_list = [];
  scoped_evidence_vouch_count = 0;
}

-- The errors of `Validate`, in the order in which they are looked for.
pub data Invalid : Type 0 where
  duplicate_account : Invalid
  duplicate_vouch vouch_beyond_count : Invalid
  duplicate_escrow escrow_beyond_count : Invalid
  duplicate_contribution_award contribution_award_beyond_count : Invalid
  duplicate_scoped_evidence_vouch scoped_evidence_vouch_beyond_count : Invalid
  no_max_supply no_epoch_length no_epoch_divisor no_current_epoch : Invalid
  mined_beyond_max epoch_mined_beyond_scheduled bad_params : Invalid

-- `if test { return err }`, and then the rest.
unfoldable pub fails_if : Bool → Invalid → Option Invalid → Option Invalid
fails_if true e rest = some e
fails_if false e rest = rest

-- One check after another: the first error ends them.
unfoldable pub and_then : Option Invalid → Option Invalid → Option Invalid
and_then none rest = rest
and_then (some e) rest = some e

-- The keys of a map that is used as a set.
unfoldable pub has_id : ℕ → List ℕ → Bool
has_id k [] = false
has_id k (j ∷ rest) = (j == k) || has_id k rest

module _ {V : Type 0} (id : V → ℕ) (count : ℕ) (duplicate beyond : Invalid) where
  -- The loop over a list of records with ids.
  unfoldable pub check_ids : List ℕ → List V → Option Invalid
  check_ids seen [] = none
  check_ids seen (v ∷ rest) =
      fails_if (has_id (id v) seen) duplicate
        (fails_if (leb count (id v)) beyond (check_ids (id v ∷ seen) rest))

-- The loop over the accounts.
unfoldable pub check_accounts : List String → List Account → Option Invalid
check_accounts seen [] = none
check_accounts seen (a ∷ rest) =
    fails_if (contains a.address seen) duplicate_account (check_accounts (a.address ∷ seen) rest)

unfoldable pub check_emission : EmissionState → Option Invalid
check_emission e = fails_if (e.max_supply == 0) no_max_supply (
    fails_if (e.epoch_length_seconds == 0) no_epoch_length (
      fails_if (e.epoch_reward_divisor == 0) no_epoch_divisor (
        fails_if (e.current_epoch == 0) no_current_epoch (
          fails_if
            ((remaining_scheduled e == 0)
              && (ltb e.max_supply e.total_mined
                  || ltb (sub64 e.max_supply e.total_mined) e.total_burned_unclaimed))
            mined_beyond_max
            (fails_if (ltb e.epoch_scheduled e.epoch_mined) epoch_mined_beyond_scheduled none)))))

-- `GenesisState.Validate`: the first error, if there is one.
unfoldable pub validate_genesis : GenesisState → Option Invalid
validate_genesis g = and_then (check_accounts [] g.account_map) (
    and_then
      (check_ids (λ v. v.id) g.vouch_count duplicate_vouch vouch_beyond_count [] g.vouch_list)
      (and_then
        (check_ids (λ e. e.id) g.escrow_count duplicate_escrow escrow_beyond_count [] g.escrow_list)
        (and_then
          (check_ids (λ a. a.id) g.contribution_award_count duplicate_contribution_award
            contribution_award_beyond_count [] g.contribution_award_list)
          (and_then
            (check_ids (λ v. v.id) g.scoped_evidence_vouch_count duplicate_scoped_evidence_vouch
              scoped_evidence_vouch_beyond_count [] g.scoped_evidence_vouch_list)
            (and_then (check_emission g.emission_state)
              (fails_if (not (validate_params g.params.anchors)) bad_params none))))))

-- The emission state that an import stores: the default where there is none, begun at the block's
-- time where it has no time of its own.
unfoldable pub started_emission : ℕ → EmissionState → EmissionState
started_emission now e =
    let given = if e.max_supply == 0 then default_emission_state 0 else e in
    if given.genesis_time == 0
    then record given { genesis_time = now; epoch_started_at = now }
    else given

unfoldable pub init_genesis : Env → GenesisState → State → State
init_genesis env g s = record s {
  emission_state = some (started_emission env.block_time g.emission_state);
  account = Store.set_all (λ a. a.address) g.account_map s.account;
  vouch = Store.set_all (λ v. v.id) g.vouch_list s.vouch;
  vouch_seq = g.vouch_count;
  escrow = Store.set_all (λ e. e.id) g.escrow_list s.escrow;
  escrow_seq = g.escrow_count;
  contribution_award = Store.set_all (λ a. a.id) g.contribution_award_list s.contribution_award;
  contribution_award_seq = g.contribution_award_count;
  scoped_evidence_vouch =
      Store.set_all (λ v. v.id) g.scoped_evidence_vouch_list s.scoped_evidence_vouch;
  scoped_evidence_vouch_seq = g.scoped_evidence_vouch_count;
  params = some g.params;
}

-- `ExportGenesis`; where no emission state is stored, the default one is stored on the way.
unfoldable pub export_genesis : Env → Exec State GenesisState
export_genesis env = do
  params ← read (λ s. s.params) io
  emission ← get_emission_state env
  s ← gets (λ s. s)
  pure (record {
    params = params;
    emission_state = emission;
    account_map = Store.values s.account;
    vouch_list = Store.values s.vouch;
    vouch_count = s.vouch_seq;
    escrow_list = Store.values s.escrow;
    escrow_count = s.escrow_seq;
    contribution_award_list = Store.values s.contribution_award;
    contribution_award_count = s.contribution_award_seq;
    scoped_evidence_vouch_list = Store.values s.scoped_evidence_vouch;
    scoped_evidence_vouch_count = s.scoped_evidence_vouch_seq;
  })

-- A store before `InitGenesis`: nothing is stored, and the sequences start at their default, 0.
abbrev pub empty_store : State
empty_store = record {
  params = none;
  emission_state = none;
  account = [];
  vouch_seq = 0;
  vouch = [];
  escrow_seq = 0;
  escrow = [];
  dispute_seq = 0;
  dispute = [];
  bond_seq = 0;
  bond = [];
  gate_seq = 0;
  gate = [];
  contribution_award_seq = 0;
  contribution_award = [];
  scoped_evidence_vouch_seq = 0;
  scoped_evidence_vouch = [];
  auth_created = [];
}
