-- ===== src/Tests/Ledger.antt =====
-- The theorems on the genesis file, on vouches and on the queries, applied on the small chain.
use ag3nt_coin.Base.{◌≡◌, refl, true, ◌+◌, none}
use ag3nt_coin.Base.Store
use ag3nt_coin.Base.Store.{uint_key, string_key}
use ag3nt_coin.Base.Words.{sub64}
use ag3nt_coin.Exec.{succeeds, final, ok, ◌>>=◌}
use ag3nt_coin.Types.Params.{contains, validate_params}
use ag3nt_coin.Keeper.{State, read}
use ag3nt_coin.Keeper.Emission.{default_emission_state, remaining_scheduled}
use ag3nt_coin.Keeper.Genesis.{
  GenesisState, init_genesis, validate_genesis, default_genesis, empty_store, check_accounts,
  check_ids, check_emission, fails_if, and_then, has_id,
}
use ag3nt_coin.Msg.Vouches.{MsgCastvouch, castvouch, find_vouch, refunded_balance}
use ag3nt_coin.Invariant.{IsWellFormed}
use ag3nt_coin.Supply.{supply, bonded}
use ag3nt_coin.Genesis.{SameRecords}
use ag3nt_coin.Genesis.Import.{init_genesis-IsWellFormed}
use ag3nt_coin.Genesis.RoundTrip.{Exports}
use ag3nt_coin.Genesis.Runs.{export-init, export_loses_bonds}
use ag3nt_coin.Chain.{Message, handle, Run, nothing, then}
use ag3nt_coin.Msg.Bonds.{post_bond, lock_bond}
use ag3nt_coin.Keeper.Genesis.{started_emission}
use ag3nt_coin.Rules.Vouches.{Withdraws, castvouch-unvouch}
use ag3nt_coin.Tests.Fixtures.{env, env_at, store, store-IsWellFormed, store_fits}

abbrev genesis_file : GenesisState
genesis_file = record default_genesis {
  account_map = Store.values store.account;
  vouch_list = Store.values store.vouch;
  vouch_count = 1;
  escrow_list = Store.values store.escrow;
  escrow_count = 6;
}

genesis_file-valid : validate_genesis genesis_file ≡ none
unfolding validate_genesis default_genesis default_emission_state Store.values check_accounts
    check_ids check_emission fails_if and_then has_id contains validate_params remaining_scheduled
    sub64
genesis_file-valid = refl

init_genesis-IsWellFormed_example : IsWellFormed (init_genesis env genesis_file empty_store)
init_genesis-IsWellFormed_example = init_genesis-IsWellFormed env genesis_file genesis_file-valid

-- The chain after the import, and a bond.
abbrev imported : State
imported = init_genesis env genesis_file empty_store

abbrev posting : Message
posting =
    Message.msg_post_bond
      (record { creator = "alice"; amount = 50; purpose = "work"; slasher = "bob"; ref = "" })

abbrev with_bond : State
with_bond = final (handle env posting imported)

posting_runs : handle env posting imported ≡ ok tt with_bond
unfolding handle post_bond ◌>>=◌ read Store.get init_genesis Store.set_all Store.values Store.set
    lock_bond default_genesis started_emission
posting_runs = refl

bond-Run : Run imported with_bond
bond-Run = then nothing env posting posting_runs

export-init_example :
    Exports
      (env_at 4000)
      with_bond
      (λ g. SameRecords with_bond (init_genesis (env_at 5000) g empty_store))
export-init_example =
    export-init env (env_at 4000) (env_at 5000) genesis_file with_bond refl bond-Run

export_loses_bonds_example : Exports (env_at 4000) with_bond (λ g.
    supply (init_genesis (env_at 5000) g empty_store) + Store.sum bonded with_bond.bond
    ≡ supply with_bond)
export_loses_bonds_example =
    export_loses_bonds env (env_at 4000) (env_at 5000) genesis_file with_bond refl bond-Run

abbrev new_vouch : MsgCastvouch
new_vouch = record { creator = "carol"; to_addr = "bob"; weight = 20; stake = 150 }

new_vouch-succeeds : succeeds (castvouch env new_vouch store) ≡ true
unfolding castvouch ◌>>=◌ read Store.get refunded_balance find_vouch Store.find
new_vouch-succeeds = refl

no_vouch_yet : find_vouch "carol" "bob" store ≡ none
unfolding find_vouch Store.find
no_vouch_yet = refl

castvouch-unvouch_example : Withdraws env new_vouch store (final (castvouch env new_vouch store))
castvouch-unvouch_example =
    castvouch-unvouch env new_vouch store store-IsWellFormed store_fits no_vouch_yet
      new_vouch-succeeds
