-- ===== src/Mint/Reward.antt =====
-- `mintProtocolReward` of chain/x/agntcoin/keeper/emission.go, and the schedule.
use ag3nt_coin.Base.{
  ℕ, ◌+◌, ◌≤◌, ◌<◌, ◌≡◌, refl, String, Option, none, some, arith, ltb→le, false, ◌==◌, Bool-cases,
  inl, inr,
}
use ag3nt_coin.Base.Words.{sub64, word, add64, add64-eq}
use ag3nt_coin.Exec.{ok, ◌>>=◌}
use ag3nt_coin.Exec.Returns.{Returns, Returns-raise_if, Returns-step, Returns-modify}
use ag3nt_coin.Types.{EmissionState, max_supply}
use ag3nt_coin.Keeper.{State, Env}
use ag3nt_coin.Keeper.Emission.{
  default_emission_state, remaining_scheduled, remaining_epoch, emission_or_default,
  put_emission_state, get_emission_state, sync_emission, sync_emission_state, mint_protocol_reward,
}
use ag3nt_coin.Invariant.{IsWellFormed}
use ag3nt_coin.Supply.{supply}
use ag3nt_coin.Supply.Payments.{credited, Returns-check, Returns-credit}
use ag3nt_coin.Supply.Steps.{supply-credited, credited-IsWellFormed}
use ag3nt_coin.Mint.{Rewards, IsSound, SoundEmission, scheduled_left, ceiling, IsValid}
use ag3nt_coin.Mint.Schedule.{
  Advances, sync_emission-Advances, remaining_scheduled-eq, remaining_epoch-eq,
  remaining_scheduled-Advances,
}

default-IsSound : (now : ℕ) → IsSound (default_emission_state now)
unfolding default_emission_state
default-IsSound now = record {
  max_fits = omega arith;
  epoch_fits = omega arith;
  within = omega arith;
}

default_left : (now : ℕ) → remaining_scheduled (default_emission_state now) ≡ max_supply
unfolding default_emission_state remaining_scheduled sub64
default_left now = refl

-- The state that the keeper reads keeps the budget, and leaves what the stored one leaves.
emission_or_default-IsSound :
    (env : Env) (o : Option EmissionState) → SoundEmission o → IsSound (emission_or_default env o)
unfolding emission_or_default
emission_or_default-IsSound env none h = default-IsSound env.block_time
emission_or_default-IsSound env (some e) h = elim (Bool-cases (e.max_supply == 0)) [
  | inl zero ↦ rw zero (default-IsSound env.block_time)
  | inr set ↦ rw set h
]

emission_or_default_left :
    (env : Env) (o : Option EmissionState)
    → remaining_scheduled (emission_or_default env o) ≡ scheduled_left o
unfolding emission_or_default
emission_or_default_left env none = default_left env.block_time
emission_or_default_left env (some e) = elim (Bool-cases (e.max_supply == 0)) [
  | inl zero ↦ rw zero (default_left env.block_time)
  | inr set ↦ rw set refl
]

-- The advanced state, in the store.
abbrev synced : Env → State → EmissionState
synced env s = sync_emission env.block_time (emission_or_default env s.emission_state)

sync_emission_state_lem :
    (env : Env) (s : State)
    → sync_emission_state env s ≡ ok (synced env s) (put_emission_state (synced env s) s)
unfolding sync_emission_state get_emission_state ◌>>=◌ put_emission_state
sync_emission_state_lem env s = refl

-- The emission state after a mint.
abbrev mined : ℕ → EmissionState → EmissionState
mined amount e = record e {
  total_mined = add64 e.total_mined amount;
  epoch_mined = add64 e.epoch_mined amount;
}

mined_total :
    (e : EmissionState) (amount : ℕ)
    → IsSound e
    → amount ≤ remaining_scheduled e
    → ((mined amount e).total_mined ≡ e.total_mined + amount)
      × (e.total_mined + e.total_burned_unclaimed + amount ≤ e.max_supply)
mined_total e amount sound scheduled =
    let left = remaining_scheduled-eq e sound.max_fits in
    (
      omega (arith, left, scheduled, sound.within, sound.max_fits, add64-eq e.total_mined amount),
      omega (arith, left, scheduled, sound.within),
    )

mined_epoch :
    (e : EmissionState) (amount : ℕ)
    → IsSound e
    → 0 < amount
    → amount ≤ remaining_epoch e
    → (mined amount e).epoch_mined ≡ e.epoch_mined + amount
mined_epoch e amount sound positive epoch = omega (
  arith,
  remaining_epoch-eq e sound.epoch_fits,
  sound.epoch_fits,
  epoch,
  add64-eq e.epoch_mined amount,
)

-- A mint of what the epoch and the schedule allow keeps the budget, and takes the amount out of
-- the schedule.
mined-IsSound :
    (e : EmissionState) (amount : ℕ)
    → IsSound e
    → 0 < amount
    → amount ≤ remaining_scheduled e
    → amount ≤ remaining_epoch e
    → IsSound (mined amount e)
mined-IsSound e amount sound positive scheduled epoch =
    let total = mined_total e amount sound scheduled in
    let open_epoch = mined_epoch e amount sound positive epoch in
    record {
      max_fits = sound.max_fits;
      epoch_fits = sound.epoch_fits;
      within =
          omega (arith, total, open_epoch, sound.within, remaining_epoch-eq e sound.epoch_fits);
    }

mined_left :
    (e : EmissionState) (amount : ℕ)
    → IsSound e
    → amount ≤ remaining_scheduled e
    → remaining_scheduled (mined amount e) + amount ≡ remaining_scheduled e
mined_left e amount sound scheduled = omega (
  arith,
  mined_total e amount sound scheduled,
  remaining_scheduled-eq e sound.max_fits,
  remaining_scheduled-eq (mined amount e) sound.max_fits,
)

set_left :
    (e : EmissionState)
    → (e.max_supply == 0) ≡ false
    → scheduled_left (some e) ≡ remaining_scheduled e
set_left e set = rw set refl

emission_or_default_set :
    (env : Env) (o : Option EmissionState) → ((emission_or_default env o).max_supply == 0) ≡ false
unfolding emission_or_default default_emission_state
emission_or_default_set env none = refl
emission_or_default_set env (some e) = elim (Bool-cases (e.max_supply == 0)) [
  | inl zero ↦ rw zero refl
  | inr set ↦ rw set set
]

supply-put_emission_state :
    (e : EmissionState) (s : State) → supply (put_emission_state e s) ≡ supply s
unfolding put_emission_state supply
supply-put_emission_state e s = refl

put_emission_state-IsWellFormed :
    (e : EmissionState) (s : State) → IsWellFormed s → IsWellFormed (put_emission_state e s)
unfolding put_emission_state
put_emission_state-IsWellFormed e s wf = record {
  vouches = wf.vouches;
  distinct = wf.distinct;
  escrows = wf.escrows;
  disputes = wf.disputes;
  bonds = wf.bonds;
  gates = wf.gates;
}

module _ (s : State) (valid : IsValid s) (env : Env) where
  synced-Advances : Advances (emission_or_default env s.emission_state) (synced env s)
  synced-Advances =
      sync_emission-Advances env.block_time _
        (emission_or_default-IsSound env s.emission_state valid.sound)

  synced_left : remaining_scheduled (synced env s) ≤ scheduled_left s.emission_state
  synced_left =
      let stored = emission_or_default-IsSound env s.emission_state valid.sound in
      omega (
        arith,
        remaining_scheduled-Advances (emission_or_default env s.emission_state) (synced env s)
            stored.max_fits synced-Advances,
        emission_or_default_left env s.emission_state,
      )

  synced_set : ((synced env s).max_supply == 0) ≡ false
  synced_set =
      let set = emission_or_default_set env s.emission_state in
      let same = synced-Advances.maximum in rw same set

  minted_total :
      (recipient bytes : String) (e : EmissionState) (amount : ℕ)
      → amount ≤ scheduled_left s.emission_state
      → supply (credited env recipient bytes amount (put_emission_state e s)) ≡ supply s + amount
  unfolding ceiling
  minted_total recipient bytes e amount scheduled =
      let same = supply-put_emission_state e s in
      let fits : supply s + amount < word = omega (arith, scheduled, valid.fits) in
      omega (
        arith,
        same,
        supply-credited (put_emission_state e s) (omega (arith, same, fits)) env recipient bytes
            amount (omega (arith, same, fits)),
      )

  -- A credit beside an emission state that is lowered by as much.
  minted-Rewards :
      (recipient bytes : String) (amount : ℕ) (e : EmissionState)
      → amount ≤ scheduled_left s.emission_state
      → IsSound e
      → (e.max_supply == 0) ≡ false
      → remaining_scheduled e + amount ≤ scheduled_left s.emission_state
      → Rewards amount s (credited env recipient bytes amount (put_emission_state e s))
  unfolding ceiling credited put_emission_state
  minted-Rewards recipient bytes amount e scheduled sound set left =
      let total = minted_total recipient bytes e amount scheduled in
      record {
        gates = refl;
        mints = record {
          total = total;
          below = omega (arith, total, set_left e set, left);
          valid = record {
            well_formed =
                credited-IsWellFormed _ (put_emission_state-IsWellFormed e s valid.well_formed) env
                  recipient bytes amount;
            sound = sound;
            fits = omega (arith, total, set_left e set, left, valid.fits);
          };
        };
      }

  -- The store after a reward.
  reward-Rewards :
      (recipient bytes : String) (amount : ℕ)
      → 0 < amount
      → amount ≤ remaining_scheduled (synced env s)
      → amount ≤ remaining_epoch (synced env s)
      → Rewards amount s (
          credited env recipient bytes amount (
            put_emission_state (mined amount (synced env s)) (put_emission_state (synced env s) s)))
  reward-Rewards recipient bytes amount positive scheduled epoch =
      let adv = synced-Advances in
      let new = mined_left (synced env s) amount adv.sound scheduled in
      unfold put_emission_state in
      minted-Rewards recipient bytes amount (mined amount (synced env s))
        (omega (arith, synced_left, scheduled))
        (mined-IsSound (synced env s) amount adv.sound positive scheduled epoch) synced_set
        (omega (arith, synced_left, new))

  -- A protocol reward, when it succeeds on a valid store, leaves a valid store with the same gates,
  -- raises the coins in existence by exactly its amount, and does not raise the coins in existence
  -- together with those that may still be minted.
  pub mint_protocol_reward-Rewards :
      (recipient bytes : String) (amount : ℕ)
      → Returns (λ _ s'. Rewards amount s s') (mint_protocol_reward env recipient bytes amount s)
  unfolding mint_protocol_reward
  mint_protocol_reward-Rewards recipient bytes amount = Returns-raise_if _ _ _ s λ positive.
      Returns-check s _ _ _ λ not_dust. Returns-step _ _ s (sync_emission_state_lem env s) (
        Returns-raise_if _ _ _ _ λ scheduled. Returns-raise_if _ _ _ _ λ epoch.
          Returns-modify _ _ _ (
            Returns-credit _ env recipient bytes amount (
              reward-Rewards recipient bytes amount (ground arith) (ltb→le _ _ scheduled)
                (ltb→le _ _ epoch))))
