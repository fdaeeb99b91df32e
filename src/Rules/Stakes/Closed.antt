-- ===== src/Rules/Stakes/Closed.antt =====
-- The stakes of a dispute, and that none of them is locked (the dispute of Msg/Jury.antt and its
-- escrow).
use mathlib.Core.Path.{subst}
use ag3nt_coin.Base.{◌≡◌, ℕ, String, List, [], ◌∷◌}
use ag3nt_coin.Base.Store.{uint_key, string_key}
use ag3nt_coin.Types.{Escrow, Attestation, Dispute, Vote}
use ag3nt_coin.Keeper.{State, bond_of}
use ag3nt_coin.Msg.Verifiers.{attestation_purpose}
use ag3nt_coin.Msg.Jury.{dispute_purpose, juror_purpose}
use ag3nt_coin.Rules.Stakes.{IsClosed, Closing}

-- A list of stakes for one purpose.
abbrev pub AllClosed : {A : Type 0} → (A → ℕ) → String → List A → State → Type 0
AllClosed bond_of purpose [] s = Unit
AllClosed bond_of purpose (x ∷ rest) s =
    IsClosed purpose (bond_of x) s × AllClosed bond_of purpose rest s

pub Closing-AllClosed :
    {A : Type 0} (f : A → ℕ) (purpose : String) (xs : List A) {s t : State}
    → Closing s t
    → AllClosed f purpose xs s
    → AllClosed f purpose xs t
Closing-AllClosed f purpose [] c h = tt
Closing-AllClosed f purpose (x ∷ xs) c h =
    (c.stays_closed purpose (f x) h.0, Closing-AllClosed f purpose xs c h.1)

abbrev pub vote_bond : Vote → ℕ
vote_bond v = v.bond_id

abbrev pub attestation_bond : Attestation → ℕ
attestation_bond a = a.bond_id

-- No stake of the dispute is locked: not the opener's, no juror's, and no verifier's.
pub record StakesClosed (d : Dispute) (e : Escrow) (s : State) : Type 0 where
  pub opener : IsClosed (dispute_purpose d.id) d.bond_id s
  pub jurors : AllClosed vote_bond (juror_purpose d.id) d.votes s
  pub verifiers : AllClosed attestation_bond (attestation_purpose e.id) e.attestations s

pub Closing-StakesClosed :
    (d : Dispute) (e : Escrow) {s t : State} → Closing s t → StakesClosed d e s → StakesClosed d e t
Closing-StakesClosed d e c h = record {
  opener = c.stays_closed _ _ h.opener;
  jurors = Closing-AllClosed vote_bond _ d.votes c h.jurors;
  verifiers = Closing-AllClosed attestation_bond _ e.attestations c h.verifiers;
}

pub StakesClosed-settled :
    (d : Dispute) (e settled : Escrow) (s : State)
    → settled.id ≡ e.id
    → settled.attestations ≡ e.attestations
    → StakesClosed d settled s
    → StakesClosed d e s
StakesClosed-settled d e settled s same_id same_stakes h = record {
  opener = h.opener;
  jurors = h.jurors;
  verifiers =
      subst (λ xs. AllClosed attestation_bond (attestation_purpose e.id) xs s) same_stakes
        (subst (λ k. AllClosed attestation_bond (attestation_purpose k) settled.attestations s)
          same_id h.verifiers);
}
