-- ===== src/Mint/Schedule.antt =====
-- The budget of the emission schedule: the pure functions of
-- chain/x/agntcoin/keeper/emission.go and chain/x/agntcoin/types/genesis.go.
use native.Mathlib.Nat.{div-le_self}
use ag3nt_coin.Base.{
  suc, ◌∙◌, ℕ, zero, suc, ◌+◌, ◌-◌, ◌≤◌, ◌<◌, ◌≡◌, refl, arith, ltb, ◌==◌, ◌&&◌, Bool-cases, inl,
  inr,
}
use ag3nt_coin.Base.Words.{word, add64, sub64, add64-eq, sub64-eq}
use ag3nt_coin.Types.{EmissionState}
use ag3nt_coin.Keeper.Emission.{
  epoch_over, burn_unclaimed, close_epoch, close_epochs, sync_emission, remaining_scheduled,
  remaining_epoch, next_epoch_scheduled, fill_defaults, schedule_epoch,
}
use ag3nt_coin.Mint.{IsSound}

-- The schedule has advanced: the budget is kept, nothing was mined, and no coin was added.
pub record Advances (e e' : EmissionState) : Type 0 where
  pub sound : IsSound e'
  pub maximum : e'.max_supply ≡ e.max_supply
  pub mined : e'.total_mined ≡ e.total_mined
  pub burned : e.total_burned_unclaimed ≤ e'.total_burned_unclaimed

pub Advances-refl : (e : EmissionState) → IsSound e → Advances e e
Advances-refl e h = record { sound = h; maximum = refl; mined = refl; burned = omega arith }

Advances-trans : {a b c : EmissionState} → Advances a b → Advances b c → Advances a c
Advances-trans h k = record {
  sound = k.sound;
  maximum = k.maximum ∙ h.maximum;
  mined = k.mined ∙ h.mined;
  burned = omega (arith, h.burned, k.burned);
}

-- What is left of the schedule, without the wrap-around.
pub remaining_scheduled-eq :
    (e : EmissionState)
    → e.max_supply < word
    → remaining_scheduled e ≡ e.max_supply - (e.total_mined + e.total_burned_unclaimed)
unfolding remaining_scheduled
remaining_scheduled-eq e fits = ground (
  arith,
  sub64-eq e.max_supply e.total_mined,
  sub64-eq (sub64 e.max_supply e.total_mined) e.total_burned_unclaimed,
)

pub remaining_epoch-eq :
    (e : EmissionState)
    → e.epoch_scheduled < word
    → remaining_epoch e ≡ e.epoch_scheduled - e.epoch_mined
unfolding remaining_epoch
remaining_epoch-eq e fits = ground (arith, sub64-eq e.epoch_scheduled e.epoch_mined)

next_epoch_scheduled-le : (e : EmissionState) → next_epoch_scheduled e ≤ remaining_scheduled e
unfolding next_epoch_scheduled
next_epoch_scheduled-le e =
    ground (arith, div-le_self (remaining_scheduled e) e.epoch_reward_divisor)

-- An epoch is scheduled within what is left.
rescheduled-IsSound :
    (e : EmissionState)
    → e.max_supply < word
    → e.total_mined + e.total_burned_unclaimed ≤ e.max_supply
    → IsSound (record e { epoch_scheduled = next_epoch_scheduled e })
rescheduled-IsSound e fits spent =
    let within : e.total_mined + e.total_burned_unclaimed + next_epoch_scheduled e ≤ e.max_supply =
      omega (arith, spent, next_epoch_scheduled-le e, remaining_scheduled-eq e fits) in
    record {
      max_fits = fits;
      epoch_fits = omega (arith, within, fits);
      within = omega (arith, within);
    }

module _ (e : EmissionState) (sound : IsSound e) where
  fill_defaults-Advances : (now : ℕ) → Advances e (fill_defaults now e)
  unfolding fill_defaults
  fill_defaults-Advances now = record {
    sound = record {
      max_fits = sound.max_fits;
      epoch_fits = sound.epoch_fits;
      within = sound.within;
    };
    maximum = refl;
    mined = refl;
    burned = omega arith;
  }

  schedule_epoch-Advances : Advances e (schedule_epoch e)
  unfolding schedule_epoch
  schedule_epoch-Advances =
      elim (Bool-cases ((e.epoch_scheduled == 0) && ltb 0 (remaining_scheduled e))) [
        | inl h ↦ rw h (record {
          sound = rescheduled-IsSound e sound.max_fits (omega (arith, sound.within));
          maximum = refl;
          mined = refl;
          burned = omega arith;
        })
        | inr h ↦ rw h (Advances-refl e sound)
      ]

  -- What the epoch did not mine is burned, and no longer open.
  burned-eq :
      add64 e.total_burned_unclaimed (remaining_epoch e)
      ≡ e.total_burned_unclaimed + (e.epoch_scheduled - e.epoch_mined)
  burned-eq = omega (
    arith,
    remaining_epoch-eq e sound.epoch_fits,
    add64-eq e.total_burned_unclaimed (remaining_epoch e),
    sound.within,
    sound.max_fits,
  )

  close_epoch-Advances : Advances e (close_epoch e)
  unfolding close_epoch burn_unclaimed
  close_epoch-Advances =
      let burned = burned-eq in
      record {
        sound = rescheduled-IsSound _ sound.max_fits (omega (arith, burned, sound.within));
        maximum = refl;
        mined = refl;
        burned = omega (arith, burned);
      }

close_epochs-Advances :
    (fuel now : ℕ) (e : EmissionState) → IsSound e → Advances e (close_epochs fuel now e)
unfolding close_epochs
close_epochs-Advances zero now e sound = Advances-refl e sound
close_epochs-Advances (suc fuel) now e sound = elim (Bool-cases (epoch_over now e)) [
  | inl h ↦
      let closed = close_epoch-Advances e sound in
      rw h (Advances-trans closed (close_epochs-Advances fuel now (close_epoch e) closed.sound))
  | inr h ↦ rw h (Advances-refl e sound)
]

-- Advancing a sound emission state to a block's time gives a sound one with the same maximum and
-- the same number of mined coins, and does not lower the number of burned ones.
pub sync_emission-Advances :
    (now : ℕ) (e : EmissionState) → IsSound e → Advances e (sync_emission now e)
unfolding sync_emission
sync_emission-Advances now e sound =
    let filled = fill_defaults-Advances e sound now in
    let ready = schedule_epoch-Advances (fill_defaults now e) filled.sound in
    Advances-trans filled (Advances-trans ready (close_epochs-Advances _ now _ ready.sound))

-- What is left of the schedule never grows.
pub remaining_scheduled-Advances :
    (e e' : EmissionState)
    → e.max_supply < word
    → Advances e e'
    → remaining_scheduled e' ≤ remaining_scheduled e
remaining_scheduled-Advances e e' fits h = omega (
  arith,
  remaining_scheduled-eq e fits,
  remaining_scheduled-eq e' h.sound.max_fits,
  h.maximum,
  h.mined,
  h.burned,
)
