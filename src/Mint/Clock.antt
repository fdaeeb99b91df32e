-- ===== src/Mint/Clock.antt =====
-- The loop of `syncEmissionState` (chain/x/agntcoin/keeper/emission.go), and the fuel of
-- `sync_emission`.
use ag3nt_coin.Base.{
  leb, ltb, ℕ, zero, suc, ◌+◌, ◌-◌, ◌≤◌, ◌<◌, ◌≡◌, refl, true, false, arith, ◌&&◌, Bool-cases, inl,
  inr,
}
use ag3nt_coin.Base.Words.{sub-le-sub64, half_word, add64-eq, sle-eq-leb, slt-eq-ltb}
use ag3nt_coin.Types.{EmissionState}
use ag3nt_coin.Keeper.Emission.{
  epoch_over, close_epoch, burn_unclaimed, close_epochs, sync_emission, schedule_epoch,
  fill_defaults,
}

-- The test without the wrap-around, where the sum is an `int64` that is not negative.
epoch_over-eq :
    (now : ℕ) (e : EmissionState)
    → now < half_word
    → e.epoch_started_at + e.epoch_length_seconds < half_word
    → epoch_over now e
      ≡ (ltb 0 e.epoch_length_seconds && leb (e.epoch_started_at + e.epoch_length_seconds) now)
unfolding epoch_over
epoch_over-eq now e present sum =
    rw
      (
        add64-eq e.epoch_started_at e.epoch_length_seconds (omega (arith, sum)),
        slt-eq-ltb 0 e.epoch_length_seconds (omega arith) (omega (arith, sum)),
        sle-eq-leb (e.epoch_started_at + e.epoch_length_seconds) now sum present,
      )
      refl

closed_start :
    (e : EmissionState)
    → e.epoch_started_at + e.epoch_length_seconds < half_word
    → (close_epoch e).epoch_started_at ≡ e.epoch_started_at + e.epoch_length_seconds
unfolding close_epoch burn_unclaimed
closed_start e sum = omega (arith, add64-eq e.epoch_started_at e.epoch_length_seconds)

closed_length : (e : EmissionState) → (close_epoch e).epoch_length_seconds ≡ e.epoch_length_seconds
unfolding close_epoch burn_unclaimed
closed_length e = refl

-- The next epoch starts later, and no later than now.
over_start :
    (now : ℕ) (e : EmissionState)
    → epoch_over now e
      ≡ (ltb 0 e.epoch_length_seconds && leb (e.epoch_started_at + e.epoch_length_seconds) now)
    → epoch_over now e ≡ true
    → (0 < e.epoch_length_seconds) × (e.epoch_started_at + e.epoch_length_seconds ≤ now)
over_start now e test over = ground arith

-- With the seconds since the epoch's start as fuel, the loop runs until its test fails.
close_epochs_end :
    (fuel now : ℕ) (e : EmissionState)
    → now + e.epoch_length_seconds < half_word
    → e.epoch_started_at + e.epoch_length_seconds < half_word
    → now - e.epoch_started_at ≤ fuel
    → epoch_over now (close_epochs fuel now e) ≡ false
unfolding close_epochs
close_epochs_end zero now e future sum enough =
    ground (arith, epoch_over-eq now e (omega (arith, future)) sum)
close_epochs_end (suc fuel) now e future sum enough = elim (Bool-cases (epoch_over now e)) [
  | inl over ↦
      let test = epoch_over-eq now e (omega (arith, future)) sum in
      let start = closed_start e sum in
      let length = closed_length e in
      let before = over_start now e test over in
      rw over (
        close_epochs_end fuel now (close_epoch e) (omega (arith, future, length))
          (omega (arith, before, start, length, future)) (omega (arith, before, start, enough)))
  | inr h ↦ rw h h
]

ready_start :
    (now : ℕ) (e : EmissionState)
    → ((schedule_epoch e).epoch_started_at ≡ e.epoch_started_at)
      × ((schedule_epoch e).epoch_length_seconds ≡ e.epoch_length_seconds)
unfolding schedule_epoch
ready_start now e = ground arith

-- After an advance to a block's time no epoch that has ended is open, where the block's time and
-- the epoch's start, each with the epoch's length added, fit an int64: the fuel of the loop is
-- enough.
pub sync_emission_ends :
    (now : ℕ) (e : EmissionState)
    → now + (fill_defaults now e).epoch_length_seconds < half_word
    → (fill_defaults now e).epoch_started_at + (fill_defaults now e).epoch_length_seconds
      < half_word
    → epoch_over now (sync_emission now e) ≡ false
unfolding sync_emission
sync_emission_ends now e future sum =
    let (start, length) = ready_start now (fill_defaults now e) in
    close_epochs_end _ now (schedule_epoch (fill_defaults now e)) (omega (arith, length, future))
      (omega (arith, start, length, sum)) (sub-le-sub64 now _ (omega (arith, future)))
