-- ===== src/Chain/Cap.antt =====
-- The cap on the supply, over the runs of the chain.
use ag3nt_coin.Base.Store
use ag3nt_coin.Base.Words.{sub64}
use ag3nt_coin.Base.{ℕ, refl, ◌≡◌, ◌≤◌, arith}
use ag3nt_coin.Exec.Returns.{Returns-ok}
use ag3nt_coin.Types.{ModuleParams, max_supply}
use ag3nt_coin.Keeper.{State, Env}
use ag3nt_coin.Keeper.Genesis.{init_genesis, started_emission, default_genesis}
use ag3nt_coin.Supply.{supply}
use ag3nt_coin.Keeper.Emission.{remaining_scheduled, default_emission_state}
use ag3nt_coin.Mint.{IsSound, IsValid, ceiling}
use ag3nt_coin.Chain.{Run, nothing, then, handle, new_chain}
use ag3nt_coin.Chain.Handlers.{Keeps, handle-Keeps}

-- A run keeps the store valid, and does not raise the ceiling.
pub Run-Keeps : {s t : State} → Run s t → IsValid s → Keeps s t
Run-Keeps nothing valid = record { valid = valid; below = omega arith }
Run-Keeps (then run env msg e) valid =
    let before = Run-Keeps run valid in
    let step = Returns-ok (handle env msg _) (handle-Keeps env msg _ before.valid) e in
    record { valid = step.valid; below = omega (arith, before.below, step.below) }

supply-le-ceiling : (s : State) → supply s ≤ ceiling s
unfolding ceiling
supply-le-ceiling s = omega arith

ceiling-new_chain :
    (env : Env) (params : ModuleParams) → ceiling (new_chain env params) ≡ max_supply
unfolding ceiling supply Store.sum Store.set_all default_emission_state remaining_scheduled sub64
    init_genesis started_emission default_genesis
ceiling-new_chain env params = refl

pub default_emission_state-IsSound : (now : ℕ) → IsSound (default_emission_state now)
unfolding default_emission_state
default_emission_state-IsSound now = record {
  max_fits = omega arith;
  epoch_fits = omega arith;
  within = omega arith;
}

new_chain-IsValid : (env : Env) (params : ModuleParams) → IsValid (new_chain env params)
unfolding init_genesis started_emission default_genesis Store.set_all default_emission_state
new_chain-IsValid env params = record {
  well_formed = record {
    vouches = tt;
    distinct = tt;
    escrows = tt;
    disputes = tt;
    bonds = tt;
    gates = tt;
  };
  sound = default_emission_state-IsSound env.block_time;
  fits = omega (arith, ceiling-new_chain env params);
}

-- On every run from a new chain, whatever the surroundings of the messages, the coins in existence
-- (balances, escrows, bonds and vouch stakes together) are at most 21,000,000.
pub supply-le-max :
    (env : Env) (params : ModuleParams) (s : State)
    → Run (new_chain env params) s
    → supply s ≤ max_supply
supply-le-max env params s run =
    let kept = Run-Keeps run (new_chain-IsValid env params) in
    omega (arith, supply-le-ceiling s, kept.below, ceiling-new_chain env params)
