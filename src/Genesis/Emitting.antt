-- ===== src/Genesis/Emitting.antt =====
-- The emission state of a store that is ready for an export (Keeper/Emission.antt).
use ag3nt_coin.Base.{
  ◌≡◌, refl, ◌∙◌, ap, ℕ, zero, suc, Option, none, some, false, true, Bool, ◌==◌, inl, inr,
  Bool-cases, if◌then◌else◌,
}
use ag3nt_coin.Base.Words.{sub64}
use ag3nt_coin.Types.{EmissionState}
use ag3nt_coin.Keeper.{Env}
use ag3nt_coin.Keeper.Emission.{
  emission_or_default, sync_emission, fill_defaults, schedule_epoch, close_epochs, close_epoch,
  burn_unclaimed, epoch_over,
}
use ag3nt_coin.Genesis.{HasBegun}

-- The two fields that decide whether an emission state needs a default or a time.
record SameStart (e e' : EmissionState) : Type 0 where
  maximum : e'.max_supply ≡ e.max_supply
  time : e'.genesis_time ≡ e.genesis_time

SameStart-refl : (e : EmissionState) → SameStart e e
SameStart-refl e = record { maximum = refl; time = refl }

SameStart-trans : {a b c : EmissionState} → SameStart a b → SameStart b c → SameStart a c
SameStart-trans h k = record { maximum = k.maximum ∙ h.maximum; time = k.time ∙ h.time }

fill_defaults-SameStart :
    (now : ℕ) (e : EmissionState) → HasBegun (some e) → SameStart e (fill_defaults now e)
unfolding fill_defaults
fill_defaults-SameStart now e begun = record { maximum = refl; time = rw begun.1 refl }

schedule_epoch-SameStart : (e : EmissionState) → SameStart e (schedule_epoch e)
unfolding schedule_epoch
schedule_epoch-SameStart e = go _ _
  where
    go : (n : ℕ) (b : Bool) → SameStart e (if b then record e { epoch_scheduled = n } else e)
    go n true = record { maximum = refl; time = refl }
    go n false = SameStart-refl e

close_epochs-SameStart : (fuel now : ℕ) (e : EmissionState) → SameStart e (close_epochs fuel now e)
unfolding close_epochs close_epoch burn_unclaimed
close_epochs-SameStart zero now e = SameStart-refl e
close_epochs-SameStart (suc fuel) now e = elim (Bool-cases (epoch_over now e)) [
  | inl over ↦ rw over (
      SameStart-trans (record { maximum = refl; time = refl })
        (close_epochs-SameStart fuel now (close_epoch e)))
  | inr open_still ↦ rw open_still (SameStart-refl e)
]

pub sync_emission-HasBegun :
    (now : ℕ) (e : EmissionState) → HasBegun (some e) → HasBegun (some (sync_emission now e))
unfolding sync_emission
sync_emission-HasBegun now e begun =
    let filled = fill_defaults-SameStart now e begun in
    let ready = schedule_epoch (fill_defaults now e) in
    let same : SameStart e (sync_emission now e) = SameStart-trans filled (
      SameStart-trans (schedule_epoch-SameStart (fill_defaults now e))
        (close_epochs-SameStart (sub64 now ready.epoch_started_at) now ready)) in
    (ap (λ n. n == 0) same.maximum ∙ begun.0, ap (λ n. n == 0) same.time ∙ begun.1)

pub emission_or_default-HasBegun :
    (env : Env) (o : Option EmissionState)
    → HasBegun o
    → HasBegun (some (emission_or_default env o))
unfolding emission_or_default
emission_or_default-HasBegun env none begun = absurd begun
emission_or_default-HasBegun env (some e) begun = rw begun.0 begun
