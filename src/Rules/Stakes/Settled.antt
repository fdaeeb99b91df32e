-- ===== src/Rules/Stakes/Settled.antt =====
-- What becomes of the stakes that a dispute names (settle_bond of Msg/Bonds.antt).
use mathlib.Core.Path.{subst}
use ag3nt_coin.Base.{◌≡◌, ◌≢◌, ◌⊎◌, inl, inr, refl, ℕ, String, Option, none, some, List, [], ◌∷◌}
use ag3nt_coin.Types.{Escrow, Bond, BondStatus, Dispute}
use ag3nt_coin.Keeper.{State, bond_of}
use ag3nt_coin.Msg.Verifiers.{attestation_purpose}
use ag3nt_coin.Msg.Jury.{dispute_purpose, juror_purpose}
use ag3nt_coin.Rules.Stakes.{Kept, IsUnlocked, IsClosed}
use ag3nt_coin.Rules.Stakes.Closed.{AllClosed, StakesClosed, vote_bond, attestation_bond}

-- A bond that was stored under `k`, if it was posted for the purpose, is released or slashed now, and
-- the rest of it has not changed.
abbrev pub StakeAfter : String → ℕ → Option Bond → State → Type 0
StakeAfter purpose k none t = Unit
StakeAfter purpose k (some b) t =
    (b.purpose ≢ purpose)
    ⊎ ((status : BondStatus) × (bond_of k t ≡ some (record b { status = status }))
        × ((status ≡ BondStatus.released) ⊎ (status ≡ BondStatus.slashed)))

abbrev pub AllAfter : {A : Type 0} → (A → ℕ) → String → List A → State → State → Type 0
AllAfter f purpose [] s t = Unit
AllAfter f purpose (x ∷ rest) s t =
    StakeAfter purpose (f x) (bond_of (f x) s) t × AllAfter f purpose rest s t

-- The stakes of the opener, of the jurors and of the verifiers.
pub record StakesAfter (d : Dispute) (e : Escrow) (s t : State) : Type 0 where
  pub opener : StakeAfter (dispute_purpose d.id) d.bond_id (bond_of d.bond_id s) t
  pub jurors : AllAfter vote_bond (juror_purpose d.id) d.votes s t
  pub verifiers : AllAfter attestation_bond (attestation_purpose e.id) e.attestations s t

module _ (s t : State) (kept : Kept s t) where
  Kept-StakeAfter :
      (purpose : String) (k : ℕ) → IsClosed purpose k t → StakeAfter purpose k (bond_of k s) t
  Kept-StakeAfter purpose k closed = go (bond_of k s) refl
    where
      weigh :
          (b : Bond) (status : BondStatus)
          → bond_of k t ≡ some (record b { status = status })
          → IsUnlocked purpose (some (record b { status = status }))
          → StakeAfter purpose k (some b) t
      weigh b status found (inl released) = inr (status, found, inl released)
      weigh b status found (inr (inl slashed)) = inr (status, found, inr slashed)
      weigh b status found (inr (inr other)) = inl other

      go : (o : Option Bond) → bond_of k s ≡ o → StakeAfter purpose k o t
      go none e = tt
      go (some b) e =
          let (status, found) = kept k b e in
          weigh b status found (subst (IsUnlocked purpose) found closed)

  Kept-AllAfter :
      {A : Type 0} (f : A → ℕ) (purpose : String) (xs : List A)
      → AllClosed f purpose xs t
      → AllAfter f purpose xs s t
  Kept-AllAfter f purpose [] h = tt
  Kept-AllAfter f purpose (x ∷ xs) h =
      (Kept-StakeAfter purpose (f x) h.0, Kept-AllAfter f purpose xs h.1)

  pub Kept-StakesAfter : (d : Dispute) (e : Escrow) → StakesClosed d e t → StakesAfter d e s t
  Kept-StakesAfter d e h = record {
    opener = Kept-StakeAfter _ _ h.opener;
    jurors = Kept-AllAfter vote_bond _ d.votes h.jurors;
    verifiers = Kept-AllAfter attestation_bond _ e.attestations h.verifiers;
  }
