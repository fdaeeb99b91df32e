-- ===== src/Genesis/Runs.antt =====
-- The chain after an import is ready for an export, whatever messages it has run
-- (Keeper/Genesis.antt, Chain.antt).
use ag3nt_coin.Base.{◌≡◌, refl, ℕ, ◌+◌, false, Option, none, some, ◌==◌, inl, inr, Bool-cases}
use ag3nt_coin.Base.Store
use ag3nt_coin.Base.Store.{uint_key}
use ag3nt_coin.Exec.Returns.{Returns-ok}
use ag3nt_coin.Exec.Keeps.{Keeps-Returns}
use ag3nt_coin.Exec.{Exec}
use ag3nt_coin.Exec.Keeps.{Keeps, Keeps-bind, Keeps-pure}
use ag3nt_coin.Types.{EmissionState, ModuleParams}
use ag3nt_coin.Keeper.{State, Env}
use ag3nt_coin.Keeper.Emission.{default_emission_state}
use ag3nt_coin.Keeper.Genesis.{GenesisState, init_genesis, started_emission, empty_store}
use ag3nt_coin.Chain.{Message, handle, no_response, Run, nothing, then}
use ag3nt_coin.Supply.{supply, bonded}
use ag3nt_coin.Genesis.{IsReady, IsStored, HasBegun, SameRecords}
use ag3nt_coin.Genesis.Import.{init_genesis-IsKeyed}
use ag3nt_coin.Frame.Handling.{
  register-Keeps, faucet-Keeps, transfer-Keeps, castvouch-Keeps, unvouch-Keeps, post_bond-Keeps,
  release_bond-Keeps, slash_bond-Keeps, reclaim_attestation_bonds-Keeps,
}
use ag3nt_coin.Frame.Settlements.{
  cast_vote-Keeps, post_gate-Keeps, commit_answer-Keeps, reveal_answer-Keeps, settle_gate-Keeps,
  award_contribution-Keeps, cast_scoped_evidence_vouch-Keeps, update_params-Keeps,
}
use ag3nt_coin.Genesis.Kept.{IsReady-Frame}
use ag3nt_coin.Genesis.Handling.{
  lock_escrow-Keeps, submit_escrow-Keeps, release_escrow-Keeps, refund_escrow-Keeps,
  dispute_escrow-Keeps, attest_escrow-Keeps, verified_release-Keeps, open_dispute-Keeps,
  resolve_dispute-Keeps,
}
use ag3nt_coin.Genesis.RoundTrip.{IsExportable, Exports, exported-SameRecords, exported-loses}

dropped-Keeps : {A : Type 0} (m : Exec State A) → Keeps IsReady m → Keeps IsReady (no_response m)
dropped-Keeps m k = Keeps-bind m _ k λ _. Keeps-pure tt

handle-Keeps-IsReady : (env : Env) (msg : Message) → Keeps IsReady (handle env msg)
unfolding handle
handle-Keeps-IsReady env (Message.msg_update_params authority params) =
    update_params-Keeps IsReady-Frame env authority params
handle-Keeps-IsReady env (Message.msg_register creator) = register-Keeps IsReady-Frame env creator
handle-Keeps-IsReady env (Message.msg_faucet creator) = faucet-Keeps IsReady-Frame
handle-Keeps-IsReady env (Message.msg_transfer msg) = transfer-Keeps IsReady-Frame env msg
handle-Keeps-IsReady env (Message.msg_castvouch msg) = castvouch-Keeps IsReady-Frame env msg
handle-Keeps-IsReady env (Message.msg_unvouch creator to_addr) =
    unvouch-Keeps IsReady-Frame env creator to_addr
handle-Keeps-IsReady env (Message.msg_lock_escrow msg) = dropped-Keeps _ (lock_escrow-Keeps env msg)
handle-Keeps-IsReady env (Message.msg_release_escrow creator id) =
    release_escrow-Keeps env creator id
handle-Keeps-IsReady env (Message.msg_refund_escrow creator id) = refund_escrow-Keeps env creator id
handle-Keeps-IsReady env (Message.msg_submit_escrow msg) = submit_escrow-Keeps env msg
handle-Keeps-IsReady env (Message.msg_dispute_escrow creator id) =
    dispute_escrow-Keeps env creator id
handle-Keeps-IsReady env (Message.msg_open_dispute msg) =
    dropped-Keeps _ (open_dispute-Keeps env msg)
handle-Keeps-IsReady env (Message.msg_cast_vote msg) = cast_vote-Keeps IsReady-Frame env msg
handle-Keeps-IsReady env (Message.msg_resolve_dispute creator id) =
    dropped-Keeps _ (resolve_dispute-Keeps env creator id)
handle-Keeps-IsReady env (Message.msg_post_bond msg) =
    dropped-Keeps _ (post_bond-Keeps IsReady-Frame env msg)
handle-Keeps-IsReady env (Message.msg_release_bond creator id) =
    release_bond-Keeps IsReady-Frame env creator id
handle-Keeps-IsReady env (Message.msg_slash_bond msg) = slash_bond-Keeps IsReady-Frame env msg
handle-Keeps-IsReady env (Message.msg_attest_escrow msg) =
    dropped-Keeps _ (attest_escrow-Keeps env msg)
handle-Keeps-IsReady env (Message.msg_verified_release creator id key) =
    verified_release-Keeps env creator id key
handle-Keeps-IsReady env (Message.msg_reclaim_attestation_bonds creator id) =
    reclaim_attestation_bonds-Keeps IsReady-Frame env creator id
handle-Keeps-IsReady env (Message.msg_post_gate msg) =
    dropped-Keeps _ (post_gate-Keeps IsReady-Frame env msg)
handle-Keeps-IsReady env (Message.msg_commit_answer creator id commit) =
    commit_answer-Keeps IsReady-Frame env creator id commit
handle-Keeps-IsReady env (Message.msg_reveal_answer msg) = reveal_answer-Keeps IsReady-Frame env msg
handle-Keeps-IsReady env (Message.msg_settle_gate msg) =
    dropped-Keeps _ (settle_gate-Keeps IsReady-Frame env msg)
handle-Keeps-IsReady env (Message.msg_award_contribution msg) =
    dropped-Keeps _ (award_contribution-Keeps IsReady-Frame env msg)
handle-Keeps-IsReady env (Message.msg_cast_scoped_evidence_vouch msg) =
    dropped-Keeps _ (cast_scoped_evidence_vouch-Keeps IsReady-Frame env msg)

Run-IsReady : {s t : State} → Run s t → IsReady s → IsReady t
Run-IsReady nothing ready = ready
Run-IsReady (then {t} run env msg done) ready =
    Returns-ok (handle env msg t)
      (Keeps-Returns (handle env msg) t (handle-Keeps-IsReady env msg) (Run-IsReady run ready)) done

started_emission-HasBegun :
    (now : ℕ) (e : EmissionState) → (now == 0) ≡ false → HasBegun (some (started_emission now e))
unfolding started_emission default_emission_state
started_emission-HasBegun now e later = elim (Bool-cases (e.max_supply == 0)) [
  | inl unset ↦ rw unset (refl, later)
  | inr given ↦ elim (Bool-cases (e.genesis_time == 0)) [
    | inl untimed ↦ rw (given, untimed) (given, later)
    | inr timed ↦ rw (given, timed) (given, timed)
  ]
]

init_genesis-IsReady :
    (env : Env) (g : GenesisState)
    → (env.block_time == 0) ≡ false
    → IsReady (init_genesis env g empty_store)
unfolding init_genesis
init_genesis-IsReady env g later = (
  unfold init_genesis in init_genesis-IsKeyed env g,
  tt,
  started_emission-HasBegun env.block_time g.emission_state later,
)

-- What is stored, taken out of the options.
ready-IsExportable :
    (s : State)
    → IsReady s
    → (params : ModuleParams) × (e : EmissionState) × IsExportable s params e
ready-IsExportable s ready = go s.params s.emission_state refl refl ready.1 ready.2
  where
    go :
        (p : Option ModuleParams) (o : Option EmissionState)
        → s.params ≡ p
        → s.emission_state ≡ o
        → IsStored p
        → HasBegun o
        → (params : ModuleParams) × (e : EmissionState) × IsExportable s params e
    go (some params) (some e) has_params has_emission set begun = (
      params,
      e,
      record {
        keyed = ready.0;
        has_params = has_params;
        has_emission = has_emission;
        capped = begun.0;
        begun = begun.1;
      },
    )
    go none o has_params has_emission set begun = absurd set
    go (some params) none has_params has_emission set begun = absurd begun

module _ (env_0 env env' : Env) (g : GenesisState) (s : State) where
  -- After every run from the import of any genesis file at a block time that is not zero,
  -- ExportGenesis succeeds, and InitGenesis of its result into an empty store gives the same
  -- parameters and emission state, and for accounts, vouches, escrows, awards and evidence vouches
  -- the same next ids and the same record under every key.
  pub export-init :
      (env_0.block_time == 0) ≡ false
      → Run (init_genesis env_0 g empty_store) s
      → Exports env s (λ g'. SameRecords s (init_genesis env' g' empty_store))
  export-init later run =
      let (params, e, h) =
        ready-IsExportable s (Run-IsReady run (init_genesis-IsReady env_0 g later)) in
      exported-SameRecords env env' params e s h

  -- After every run from the import of any genesis file at a block time that is not zero,
  -- ExportGenesis succeeds, and the coins in existence after InitGenesis of its result into an
  -- empty store are fewer by exactly the coins of the live bonds.
  pub export_loses_bonds :
      (env_0.block_time == 0) ≡ false
      → Run (init_genesis env_0 g empty_store) s
      → Exports env s
          (λ g'. supply (init_genesis env' g' empty_store) + Store.sum bonded s.bond ≡ supply s)
  export_loses_bonds later run =
      let (params, e, h) =
        ready-IsExportable s (Run-IsReady run (init_genesis-IsReady env_0 g later)) in
      exported-loses env env' params e s h
