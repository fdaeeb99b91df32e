-- ===== src/Mint.antt =====
-- The monetary policy: what may still be minted, and the ceiling that it puts on the supply. The
-- children follow both through the emission schedule (chain/x/agntcoin/keeper/emission.go) and the
-- two handlers that mint.
pub mod Schedule
pub mod Clock
pub mod Reward
pub mod Gates
pub mod Contributions
use mathlib.Core.Path.{subst}
use ag3nt_coin.Base.{
  ap, sym, refl, ◌∙◌, arith, ℕ, ◌+◌, ◌-◌, ◌≤◌, ◌<◌, ◌≡◌, Option, none, some, if◌then◌else◌, ◌==◌,
}
use ag3nt_coin.Base.Words.{word}
use ag3nt_coin.Types.{EmissionState, max_supply}
use ag3nt_coin.Keeper.{State}
use ag3nt_coin.Keeper.Emission.{remaining_scheduled}
use ag3nt_coin.Invariant.{IsWellFormed}
use ag3nt_coin.Supply.{supply}
use ag3nt_coin.Supply.Steps.{Conserves}

-- The budget is kept: what is mined, burned and still open in the epoch is within the maximum.
pub record IsSound (e : EmissionState) : Type 0 where
  pub max_fits : e.max_supply < word
  pub epoch_fits : e.epoch_scheduled < word
  pub within :
      e.total_mined + e.total_burned_unclaimed + (e.epoch_scheduled - e.epoch_mined) ≤ e.max_supply

-- The stored emission state keeps the budget, if one is stored.
abbrev pub SoundEmission : Option EmissionState → Type 0
SoundEmission none = Unit
SoundEmission (some e) = IsSound e

-- What the schedule still allows to mint; a state without a maximum counts as none.
abbrev pub scheduled_left : Option EmissionState → ℕ
scheduled_left none = max_supply
scheduled_left (some e) = if e.max_supply == 0 then max_supply else remaining_scheduled e

-- The coins in existence and those that may still be minted.
unfoldable pub ceiling : State → ℕ
ceiling s = supply s + scheduled_left s.emission_state

-- The store is well formed, and the ceiling fits a `uint64`.
pub record IsValid (s : State) : Type 0 where
  pub well_formed : IsWellFormed s
  pub sound : SoundEmission s.emission_state
  pub fits : ceiling s < word

-- A step that mints `amount` out of the schedule.
pub record Mints (amount : ℕ) (s s' : State) : Type 0 where
  pub valid : IsValid s'
  pub total : supply s' ≡ supply s + amount
  pub below : ceiling s' ≤ ceiling s

-- A reward, which leaves the gates alone.
pub record Rewards (amount : ℕ) (s s' : State) : Type 0 where
  pub mints : Mints amount s s'
  pub gates : s'.gate ≡ s.gate

pub Mints-trans : {a b : ℕ} {s t u : State} → Mints a s t → Mints b t u → Mints (a + b) s u
Mints-trans h k = record {
  valid = k.valid;
  total = omega (arith, h.total, k.total);
  below = omega (arith, h.below, k.below);
}

pub Rewards-refl : (s : State) → IsValid s → Rewards 0 s s
Rewards-refl s valid = record {
  mints = record { valid = valid; total = omega arith; below = omega arith };
  gates = refl;
}

pub Rewards-trans : {a b : ℕ} {s t u : State} → Rewards a s t → Rewards b t u → Rewards (a + b) s u
Rewards-trans h k = record { mints = Mints-trans h.mints k.mints; gates = k.gates ∙ h.gates }

-- A step that only moves coins mints none.
pub Conserves-Mints : {s s' : State} → IsValid s → Conserves s s' → Mints 0 s s'
unfolding ceiling
Conserves-Mints {s} {s'} valid h =
    let same = ap scheduled_left h.emission in
    record {
      valid = record {
        well_formed = h.well_formed;
        sound = subst SoundEmission (sym h.emission) valid.sound;
        fits = omega (arith, valid.fits, h.total, same);
      };
      total = omega (arith, h.total);
      below = omega (arith, h.total, same);
    }

-- A valid store's coins fit a `uint64`.
pub supply_fits : (s : State) → IsValid s → supply s < word
unfolding ceiling
supply_fits s valid = omega (arith, valid.fits)
