-- ===== src/Rules/Stakes/Paid.antt =====
-- The escrow under ResolveDispute (settle_escrow of Msg/Verdict.antt).
use ag3nt_coin.Base.{◌≡◌, refl, ◌||◌, if◌then◌else◌, Bool, inl, inr, Bool-cases}
use ag3nt_coin.Base.Store.{uint_key, string_key}
use ag3nt_coin.Exec.Returns.{Returns, Returns-pure}
use ag3nt_coin.Types.{Escrow, EscrowStatus, Resolution, is_challenged, is_accept}
use ag3nt_coin.Keeper.{State, Env}
use ag3nt_coin.Msg.Verdict.{settle_escrow}
use ag3nt_coin.Supply.Payments.{credited, Returns-paid}
use ag3nt_coin.Supply.Escrows.{pay_payee-Pays, pay_payer-Pays}
use ag3nt_coin.Rules.Stakes.{HasNumbers}

-- The status of the escrow after the verdict: after a challenged release the money is gone.
abbrev pub status_after : Bool → Resolution → EscrowStatus
status_after challenged r =
    if challenged || is_accept r then EscrowStatus.released else EscrowStatus.refunded

-- What settles an escrow leaves the bonds, the escrow's id and its attestations.
pub record Leaves (e : Escrow) (r : Resolution) (settled : Escrow) (s t : State) : Type 0 where
  pub numbered : HasNumbers t
  pub bonds : t.bond ≡ s.bond
  pub id : settled.id ≡ e.id
  pub attestations : settled.attestations ≡ e.attestations
  pub status : settled.status ≡ status_after (is_challenged e.status) r

pub settle_escrow-Leaves :
    (env : Env) (e : Escrow) (r : Resolution) (s : State)
    → HasNumbers s
    → Returns (λ settled t. Leaves e r settled s t) (settle_escrow env e r s)
unfolding settle_escrow credited
settle_escrow-Leaves env e r s numbered = elim (Bool-cases (is_challenged e.status)) [
  | inl challenged ↦ rw challenged (
      Returns-pure _ _ (record {
        numbered = numbered;
        bonds = refl;
        id = refl;
        attestations = refl;
        status = rw challenged refl;
      }))
  | inr jury ↦ rw jury (elim (Bool-cases (is_accept r)) [
    | inl accepted ↦ rw accepted (
        Returns-paid s env e.payee e.amount _ _ (pay_payee-Pays s env e) λ bytes.
          Returns-pure _ _ (record {
            numbered = numbered;
            bonds = refl;
            id = refl;
            attestations = refl;
            status = rw (jury, accepted) refl;
          }))
    | inr rejected ↦ rw rejected (
        Returns-paid s env e.payer e.amount _ _ (pay_payer-Pays s env e) λ bytes.
          Returns-pure _ _ (record {
            numbered = numbered;
            bonds = refl;
            id = refl;
            attestations = refl;
            status = rw (jury, rejected) refl;
          }))
  ])
]
