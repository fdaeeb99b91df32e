-- ===== src/Keeper/Emission.antt =====
-- The monetary policy: chain/x/agntcoin/keeper/emission.go, and the emission functions of
-- chain/x/agntcoin/types/genesis.go.
use ag3nt_coin.Base.{
  ℕ, zero, suc, ◌/◌, String, Bool, Option, none, some, ◌&&◌, ltb, leb, ◌==◌, if◌then◌else◌,
}
use ag3nt_coin.Base.Words.{add64, sub64, slt, sle}
use ag3nt_coin.Exec.{Exec, invalid_request, gets, pure, raise_if, modify, ◌>>=◌, ◌>>◌}
use ag3nt_coin.Types.{
  EmissionState, max_supply, default_epoch_length_seconds, default_epoch_reward_divisor,
}
use ag3nt_coin.Keeper.Defs.{State, Env}
use ag3nt_coin.Keeper.Credit.{check_new_account_credit, credit_account}

unfoldable pub default_emission_state : ℕ → EmissionState
default_emission_state started_at = record {
  max_supply = max_supply;
  epoch_length_seconds = default_epoch_length_seconds;
  epoch_reward_divisor = default_epoch_reward_divisor;
  genesis_time = started_at;
  current_epoch = 1;
  epoch_started_at = started_at;
  epoch_scheduled = max_supply / default_epoch_reward_divisor;
  epoch_mined = 0;
  total_mined = 0;
  total_burned_unclaimed = 0;
}

unfoldable pub remaining_scheduled : EmissionState → ℕ
remaining_scheduled e =
    if leb e.max_supply e.total_mined
    then 0
    else let remaining_after_mined = sub64 e.max_supply e.total_mined in
      if leb remaining_after_mined e.total_burned_unclaimed
      then 0
      else sub64 remaining_after_mined e.total_burned_unclaimed

unfoldable pub remaining_epoch : EmissionState → ℕ
remaining_epoch e =
    if leb e.epoch_scheduled e.epoch_mined then 0 else sub64 e.epoch_scheduled e.epoch_mined

unfoldable pub next_epoch_scheduled : EmissionState → ℕ
next_epoch_scheduled e =
    let remaining = remaining_scheduled e in
    let scheduled = remaining / e.epoch_reward_divisor in
    if remaining == 0 then 0 else if scheduled == 0 then remaining else scheduled

-- What `getEmissionState` returns and leaves in the store, and `peekEmissionState` returns.
unfoldable pub emission_or_default : Env → Option EmissionState → EmissionState
emission_or_default env none = default_emission_state env.block_time
emission_or_default env (some e) =
    if e.max_supply == 0 then default_emission_state env.block_time else e

unfoldable pub put_emission_state : EmissionState → State → State
put_emission_state e s = record s { emission_state = some e }

unfoldable pub get_emission_state : Env → Exec State EmissionState
get_emission_state env = do
  found ← gets (λ s. s.emission_state)
  modify (put_emission_state (emission_or_default env found))
  pure (emission_or_default env found)

-- `if field == 0 { field = value }`
abbrev pub or_default : ℕ → ℕ → ℕ
or_default field value = if field == 0 then value else field

unfoldable pub fill_defaults : ℕ → EmissionState → EmissionState
fill_defaults now e = record e {
  genesis_time = or_default e.genesis_time now;
  epoch_started_at = or_default e.epoch_started_at now;
  current_epoch = or_default e.current_epoch 1;
  epoch_length_seconds = or_default e.epoch_length_seconds default_epoch_length_seconds;
  epoch_reward_divisor = or_default e.epoch_reward_divisor default_epoch_reward_divisor;
}

unfoldable pub schedule_epoch : EmissionState → EmissionState
schedule_epoch e =
    if (e.epoch_scheduled == 0) && ltb 0 (remaining_scheduled e)
    then record e { epoch_scheduled = next_epoch_scheduled e }
    else e

-- The loop's test: the epoch has a positive length, and has ended.
unfoldable pub epoch_over : ℕ → EmissionState → Bool
epoch_over now e =
    slt 0 e.epoch_length_seconds && sle (add64 e.epoch_started_at e.epoch_length_seconds) now

-- What the epoch left unmined is burned, before the next one is scheduled.
unfoldable pub burn_unclaimed : EmissionState → EmissionState
burn_unclaimed e = record e {
  total_burned_unclaimed = add64 e.total_burned_unclaimed (remaining_epoch e);
  current_epoch = add64 e.current_epoch 1;
  epoch_started_at = add64 e.epoch_started_at e.epoch_length_seconds;
  epoch_mined = 0;
}

-- The loop's body.
unfoldable pub close_epoch : EmissionState → EmissionState
close_epoch e =
    let burned = burn_unclaimed e in record burned { epoch_scheduled = next_epoch_scheduled burned }

-- The loop, with fuel.
unfoldable pub close_epochs : ℕ → ℕ → EmissionState → EmissionState
close_epochs zero now e = e
close_epochs (suc fuel) now e =
    let rest = close_epochs fuel now (close_epoch e) in if epoch_over now e then rest else e

-- A closed epoch moves the start by a second or more, so the seconds since the start are enough.
unfoldable pub sync_emission : ℕ → EmissionState → EmissionState
unfolding fill_defaults schedule_epoch epoch_over burn_unclaimed close_epoch close_epochs
sync_emission now e =
    let ready = schedule_epoch (fill_defaults now e) in
    close_epochs (sub64 now ready.epoch_started_at) now ready

unfoldable pub sync_emission_state : Env → Exec State EmissionState
sync_emission_state env = do
  e ← get_emission_state env
  modify (put_emission_state (sync_emission env.block_time e))
  pure (sync_emission env.block_time e)

unfoldable pub mint_protocol_reward : Env → String → String → ℕ → Exec State (Unit {0})
mint_protocol_reward env recipient bytes amount = do
  raise_if (amount == 0) invalid_request
  check_new_account_credit recipient amount
  e ← sync_emission_state env
  raise_if (ltb (remaining_scheduled e) amount) invalid_request
  raise_if (ltb (remaining_epoch e) amount) invalid_request
  modify (
      put_emission_state (record e {
        total_mined = add64 e.total_mined amount;
        epoch_mined = add64 e.epoch_mined amount;
      }))
  credit_account env recipient bytes amount
