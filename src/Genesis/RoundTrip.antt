-- ===== src/Genesis/RoundTrip.antt =====
-- An export and its import (chain/x/agntcoin/keeper/genesis.go).
use ag3nt_coin.Base.{sym, ◌≡◌, refl, ap, ◌∙◌, ℕ, ◌+◌, false, some, arith, ◌==◌}
use ag3nt_coin.Base.Store
use ag3nt_coin.Base.Store.{uint_key, string_key}
use ag3nt_coin.Base.Store.Rebuild.{get-rebuilt, sum-rebuilt}
use ag3nt_coin.Exec.{ok, ◌>>=◌}
use ag3nt_coin.Types.{EmissionState, ModuleParams}
use ag3nt_coin.Keeper.{State, Env, read}
use ag3nt_coin.Keeper.Emission.{get_emission_state, emission_or_default, put_emission_state}
use ag3nt_coin.Keeper.Genesis.{
  GenesisState, init_genesis, export_genesis, started_emission, empty_store,
}
use ag3nt_coin.Supply.{supply, balance, held, bonded, stake}
use ag3nt_coin.Genesis.{
  IsKeyed, SameRecords, address_of, key_of_vouch, key_of_escrow, award_id, evidence_vouch_id,
}

-- What an export writes of a store with parameters and an emission state.
abbrev exported : ModuleParams → EmissionState → State → GenesisState
exported params e s = record {
  params = params;
  emission_state = e;
  account_map = Store.values s.account;
  vouch_list = Store.values s.vouch;
  vouch_count = s.vouch_seq;
  escrow_list = Store.values s.escrow;
  escrow_count = s.escrow_seq;
  contribution_award_list = Store.values s.contribution_award;
  contribution_award_count = s.contribution_award_seq;
  scoped_evidence_vouch_list = Store.values s.scoped_evidence_vouch;
  scoped_evidence_vouch_count = s.scoped_evidence_vouch_seq;
}

-- The store that has them, and whose emission state needs no default and no time.
pub record IsExportable (s : State) (params : ModuleParams) (e : EmissionState) : Type 0 where
  pub keyed : IsKeyed s
  pub has_params : s.params ≡ some params
  pub has_emission : s.emission_state ≡ some e
  pub capped : (e.max_supply == 0) ≡ false
  pub begun : (e.genesis_time == 0) ≡ false

module _ (env : Env) (params : ModuleParams) (e : EmissionState) (s : State)
    (h : IsExportable s params e) where
  export_genesis-eq : export_genesis env s ≡ ok (exported params e s) (put_emission_state e s)
  unfolding export_genesis read get_emission_state emission_or_default put_emission_state ◌>>=◌
  export_genesis-eq = rw (h.has_params, h.has_emission, h.capped) refl

  started-eq : (now : ℕ) → started_emission now e ≡ e
  unfolding started_emission
  started-eq now = rw (h.capped, h.begun) refl

  init_genesis-SameRecords : SameRecords s (init_genesis env (exported params e s) empty_store)
  unfolding init_genesis
  init_genesis-SameRecords =
      let k = h.keyed in
      record {
        params = sym h.has_params;
        emission = ap some (started-eq env.block_time) ∙ sym h.has_emission;
        accounts = get-rebuilt address_of s.account k.accounts;
        vouches = get-rebuilt key_of_vouch s.vouch k.vouches;
        vouch_seq = refl;
        escrows = get-rebuilt key_of_escrow s.escrow k.escrows;
        escrow_seq = refl;
        awards = get-rebuilt award_id s.contribution_award k.awards;
        award_seq = refl;
        evidence = get-rebuilt evidence_vouch_id s.scoped_evidence_vouch k.evidence_vouches;
        evidence_seq = refl;
      }

  init_genesis-supply :
      supply (init_genesis env (exported params e s) empty_store) + Store.sum bonded s.bond
      ≡ supply s
  unfolding init_genesis supply Store.sum
  init_genesis-supply =
      let k = h.keyed in
      omega (
        arith,
        sum-rebuilt address_of s.account k.accounts balance,
        sum-rebuilt key_of_vouch s.vouch k.vouches stake,
        sum-rebuilt key_of_escrow s.escrow k.escrows held,
      )

-- The export succeeds with a genesis file of which `P` holds.
abbrev pub Exports : Env → State → (GenesisState → Type 0) → Type 0
Exports env s P = (g : GenesisState) × (t : State) × (export_genesis env s ≡ ok g t) × P g

module _ (env env' : Env) (params : ModuleParams) (e : EmissionState) (s : State)
    (h : IsExportable s params e) where
  pub exported-SameRecords : Exports env s (λ g. SameRecords s (init_genesis env' g empty_store))
  exported-SameRecords =
      (_, _, export_genesis-eq env params e s h, init_genesis-SameRecords env' params e s h)

  -- The bonds are not exported.
  pub exported-loses :
      Exports env s
        (λ g. supply (init_genesis env' g empty_store) + Store.sum bonded s.bond ≡ supply s)
  exported-loses = (_, _, export_genesis-eq env params e s h, init_genesis-supply env' params e s h)
